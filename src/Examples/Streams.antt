-- ===== src/Examples/Streams.antt =====
-- Small inputs for the streams, the formatter and the selector.
use vncmanager.Base.{
  some, not, ◌==◌, ℕ, ◌≡◌, refl, arith, Bool, true, false, List, [], ◌∷◌, ◌++◌, ok,
}
use vncmanager.Stream.Channel
use vncmanager.Stream.Channel.{Channel, Link}
use vncmanager.Stream.FdStream
use vncmanager.Stream.FdStream.{
  Arrival, chunk, closed, failed, Acceptance, accepts, refuses, Received,
}
use vncmanager.Stream.FdStream.Refinement.{Agrees, recv-Agrees, wired, IsSent, send_prefix}
use vncmanager.Stream.Forward.{moved, forward_directly_lem}
use vncmanager.Stream.TlsStream
use vncmanager.Stream.TlsStream.{
  Record, payload, again, premature_termination, socket, Same, recv-Same,
}
use vncmanager.Formatter
use vncmanager.Formatter.{Peer, Transfer, recv_raw}
use vncmanager.Formatter.Laws.{carried, forward_directly_exact}
use vncmanager.ReadSelector.{Handlers, dispatch}
use vncmanager.ReadSelector.Table.{table}
use vncmanager.ReadSelector.Laws.{Dispatched, dispatch-Dispatched}

-- Five bytes that arrive in two pieces.
abbrev pieces : List Arrival
pieces = chunk 1 (2 ∷ []) ∷ chunk 3 (4 ∷ 5 ∷ []) ∷ closed ∷ []

abbrev five_bytes : Channel
five_bytes = record { input = 1 ∷ 2 ∷ 3 ∷ 4 ∷ 5 ∷ []; output = [] }

recv-Agrees_example : Agrees (FdStream.recv 3 pieces) (Channel.recv 3 five_bytes)
recv-Agrees_example = recv-Agrees 3 pieces five_bytes tt refl

abbrev slow_kernel : List Acceptance
slow_kernel = accepts 0 ∷ accepts 1 ∷ refuses ∷ []

send_prefix_example :
    (rest : List ℕ) × (1 ∷ 2 ∷ 3 ∷ 4 ∷ []
      ≡ wired (FdStream.send (1 ∷ 2 ∷ 3 ∷ 4 ∷ []) slow_kernel) ++ rest)
    × (IsSent (FdStream.send (1 ∷ 2 ∷ 3 ∷ 4 ∷ []) slow_kernel) → rest ≡ [])
send_prefix_example = send_prefix (1 ∷ 2 ∷ 3 ∷ 4 ∷ []) slow_kernel

abbrev link : Link
link = record { source = five_bytes; sink = record { input = []; output = 9 ∷ [] } }

forward_directly_lem_example : Channel.forward_directly 4 link ≡ ok tt (moved 4 link)
forward_directly_lem_example = forward_directly_lem 4 link (omega arith)

abbrev records : List Record
records = payload 1 (2 ∷ []) ∷ again ∷ payload 3 [] ∷ premature_termination ∷ []

recv-Same_example : Same (TlsStream.recv 4 records) (FdStream.recv 4 (socket records))
recv-Same_example = recv-Same 4 records

-- A message's type byte was put back.
abbrev pushed_peer : Peer
pushed_peer = record { stream = five_bytes; pushed = 7 ∷ [] }

abbrev transfer : Transfer
transfer = record { from = pushed_peer; to = record { stream = link.sink; pushed = [] } }

forward_directly_exact_example : Formatter.forward_directly 4 transfer ≡ ok tt (carried 4 transfer)
forward_directly_exact_example = forward_directly_exact 4 transfer (omega arith) (omega arith)

-- Descriptors 6, 5 and 3 were added; 5 has nothing to read, and the handler of 3 cancels.
abbrev added : Handlers Bool
added = (6, λ s. ok tt false) ∷ (5, λ s. ok tt s) ∷ (3, λ s. ok tt true) ∷ []

abbrev is_ready : ℕ → Bool
is_ready n = not (n == 5)

abbrev cancelling : Handlers Bool
cancelling = (3, λ s. ok tt true) ∷ (5, λ s. ok tt s) ∷ (6, λ s. ok tt false) ∷ []

cancelling_lem : table added ≡ some cancelling
unfolding table
cancelling_lem = refl

dispatched : dispatch is_ready (λ s. s) cancelling false ≡ ok tt true
unfolding dispatch
dispatched = refl

dispatch-Dispatched_example : Dispatched is_ready (λ s. s) 0 added false true
dispatch-Dispatched_example =
    dispatch-Dispatched is_ready (λ s. s) added cancelling false true cancelling_lem dispatched
