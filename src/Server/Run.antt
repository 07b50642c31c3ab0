-- ===== src/Server/Run.antt =====
-- Server.cpp: `run`, the loop over the listening sockets, the signals and the controllers' socket.
pub mod Table
pub mod Laws
use vncmanager.Base.{
  ℕ, Bool, true, false, Option, none, some, List, [], ◌∷◌, if◌then◌else◌, Action, ok, err, errno,
  assertion, out_of_fuel,
}
use vncmanager.ReadSelector
use vncmanager.ReadSelector.{Handlers}
use vncmanager.Server.{Server, Wait, Signal, handle_signal}

-- What the system answers in a round: whether `select` fails, which descriptors are ready, the
-- descriptor of the client that `accept4` finds on a socket, and the signal.
pub record Round : Type 0 where
  pub failed : Bool
  pub ready : ℕ → Bool
  pub accept4 : ℕ → Option ℕ
  pub signal_failed : Bool
  pub signal : Signal
  pub waits : List Wait

-- The server with the clients' descriptors that went to a tunnel and the controllers' descriptors
-- that went to a connection, the newest first; and the present answers.
pub record Main : Type 0 where
  pub server : Server
  pub tunnels : List ℕ
  pub controllers : List ℕ
  pub now : Round

-- `Server::accept`, the handler of a listening socket.
unfoldable pub accept : ℕ → Action Main (Unit {0})
accept fd s = elim (s.now.accept4 fd) [
  | none ↦ err errno s
  | some client ↦ ok tt (record s { tunnels = client ∷ s.tunnels })
]

-- `ControllerManager::accept`
unfoldable pub accept_controller : ℕ → Action Main (Unit {0})
accept_controller fd s = elim (s.now.accept4 fd) [
  | none ↦ err errno s
  | some client ↦ ok tt (record s { controllers = client ∷ s.controllers })
]

-- `handleSignal`, as a handler.
unfoldable pub take_signal : Action Main (Unit {0})
unfolding handle_signal
take_signal s = elim (handle_signal s.now.signal_failed s.now.signal s.now.waits s.server) [
  | ok u t ↦ ok tt (record s { server = t })
  | err e t ↦ err e (record s { server = t })
]

abbrev pub add_listeners : List ℕ → Handlers Main → Option (Handlers Main)
add_listeners [] hs = some hs
add_listeners (fd ∷ fds) hs = elim (ReadSelector.add_fd fd (accept fd) hs) [
  | none ↦ none
  | some hs' ↦ add_listeners fds hs'
]

-- `addFD` of an optional table.
abbrev pub add_to : ℕ → Action Main (Unit {0}) → Option (Handlers Main) → Option (Handlers Main)
add_to fd h none = none
add_to fd h (some hs) = ReadSelector.add_fd fd h hs

-- The selector's table; `none` is the failed assertion of `addFD`.
unfoldable pub selector : List ℕ → ℕ → ℕ → Option (Handlers Main)
unfolding ReadSelector.add_fd
selector listenfds sigfd controlfd =
    add_to controlfd (accept_controller controlfd)
      (add_to sigfd take_signal (add_listeners listenfds []))

-- One `select`; no handler cancels it.
unfoldable pub select_round : Handlers Main → Round → Action Main (Unit {0})
unfolding ReadSelector.select
select_round hs r s =
    ReadSelector.select r.ready (λ _. false) (λ t. t) r.failed hs (record s { now = r })

-- `while (m_run)`, with the rounds to come; what is left of them is the result.
unfoldable pub loop : Handlers Main → List Round → Action Main (List Round)
unfolding select_round
loop hs [] s = if s.server.run then err out_of_fuel s else ok [] s
loop hs (r ∷ rest) s =
    if s.server.run
    then elim (select_round hs r s) [ ok u t ↦ loop hs rest t | err e t ↦ err e t ]
    else ok (r ∷ rest) s

-- `run`
unfoldable pub run : List ℕ → ℕ → ℕ → List Round → Action Main (List Round)
unfolding loop selector
run listenfds sigfd controlfd rounds s =
    let started = record s { server = record (s.server) { run = true } } in
    elim (selector listenfds sigfd controlfd) [
      | none ↦ err assertion started
      | some hs ↦ loop hs rounds started
    ]
