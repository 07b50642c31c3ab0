-- ===== src/Formatter/Laws.antt =====
-- What the formatter's operations do to the bytes still to be read and those sent.
use vncmanager.Base.{
  ℕ, zero, suc, ◌<◌, ◌≤◌, ◌≡◌, refl, arith, List, [], ◌∷◌, ◌++◌, append-nil, append_assoc, length,
  take, drop, ok, err, eof, pure, bind_ok,
}
use vncmanager.Stream.Channel.{Channel}
use vncmanager.Stream.Forward.{forward_directly_lem}
use vncmanager.Rfb.Wire.{Wire, decode}
use vncmanager.Formatter.{
  Peer, Transfer, recv_raw, send_raw, recv, forward_raw, forward, forward_directly,
}

-- What is still to be read: the pushed-back bytes, then the stream's.
abbrev pub pending : Peer → List ℕ
pending p = p.pushed ++ p.input

-- A peer with its buffer within `bufferMaxSize`.
abbrev pub IsBuffered : Peer → Type 0
IsBuffered p = length p.pushed ≤ 1

-- The peer after `n` bytes were read, the pushed-back one among them.
abbrev pub advanced : ℕ → Peer → Peer
advanced zero p = p
advanced (suc n) p = record {
  stream = record p.stream { input = drop (suc n) (pending p) };
  pushed = [];
}

recv_raw_cases :
    (n : ℕ) (c : Channel) (pushed : List ℕ)
    → length pushed ≤ 1
    → n ≤ length (pushed ++ c.input)
    → recv_raw n (record { stream = c; pushed = pushed })
      ≡ ok (take n (pushed ++ c.input)) (advanced n (record { stream = c; pushed = pushed }))
unfolding recv_raw
recv_raw_cases zero c [] b h = ground arith
recv_raw_cases (suc n) c [] b h = ground arith
recv_raw_cases zero c (x ∷ []) b h = ground arith
recv_raw_cases (suc n) c (x ∷ []) b h = ground arith
recv_raw_cases n c (x ∷ y ∷ r) b h = absurd (omega arith)

-- With the push-back buffer within its size and `n` bytes to come, `recv_raw n` returns the next `n`
-- bytes, the pushed-back one first, and leaves the others.
pub recv_raw_lem :
    (n : ℕ) (p : Peer)
    → IsBuffered p
    → n ≤ length (pending p)
    → recv_raw n p ≡ ok (take n (pending p)) (advanced n p)
recv_raw_lem n p b h = recv_raw_cases n p.stream p.pushed b h

-- A peer whose stream has ended.
abbrev pub drained : Peer → Peer
drained p = record { stream = record p.stream { input = [] }; pushed = [] }

recv_raw_ended :
    (n : ℕ) (c : Channel) (pushed : List ℕ)
    → length pushed ≤ 1
    → length (pushed ++ c.input) < n
    → recv_raw n (record { stream = c; pushed = pushed })
      ≡ err eof (drained (record { stream = c; pushed = pushed }))
unfolding recv_raw
recv_raw_ended zero c pushed b h = elim h [ ]
recv_raw_ended (suc n) c [] b h = ground arith
recv_raw_ended (suc n) c (x ∷ []) b h = ground arith
recv_raw_ended n c (x ∷ y ∷ r) b h = absurd (omega arith)

-- With the push-back buffer within its size and fewer than `n` bytes to come, `recv_raw n` throws
-- `eof_exception`, and nothing is left to read.
pub recv_raw_short :
    (n : ℕ) (p : Peer) → IsBuffered p → length (pending p) < n → recv_raw n p ≡ err eof (drained p)
recv_raw_short n p b h = recv_raw_ended n p.stream p.pushed b h

pub pending-advanced : (n : ℕ) (p : Peer) → pending (advanced n p) ≡ drop n (pending p)
pending-advanced zero p = refl
pending-advanced (suc n) p = refl

pub advanced-IsBuffered : (n : ℕ) (p : Peer) → IsBuffered p → IsBuffered (advanced n p)
advanced-IsBuffered zero p b = b
advanced-IsBuffered (suc n) p b = omega arith

-- A peer to which bytes were sent.
abbrev pub with_sent : List ℕ → Peer → Peer
with_sent bs p = record p { stream = record p.stream { output = p.output ++ bs } }

pub send_raw_lem : (bs : List ℕ) (p : Peer) → send_raw bs p ≡ ok tt (with_sent bs p)
unfolding send_raw
send_raw_lem bs p = refl

-- `n` bytes carried from one peer to the other.
abbrev pub carried : ℕ → Transfer → Transfer
carried n t = record { from = advanced n t.from; to = with_sent (take n (pending t.from)) t.to }

forward_raw_cases :
    (n : ℕ) (c : Channel) (pushed : List ℕ) (to : Peer)
    → length pushed ≤ 1
    → n ≤ length (pushed ++ c.input)
    → forward_raw n (record { from = record { stream = c; pushed = pushed }; to = to })
      ≡ ok
          (take n (pushed ++ c.input))
          (carried n (record { from = record { stream = c; pushed = pushed }; to = to }))
unfolding forward_raw
forward_raw_cases zero c [] to b h = ground arith
forward_raw_cases (suc n) c [] to b h = ground arith
forward_raw_cases zero c (x ∷ []) to b h = ground arith
forward_raw_cases (suc n) c (x ∷ []) to b h = ground arith
forward_raw_cases n c (x ∷ y ∷ r) to b h = absurd (omega arith)

-- `forward` hands the next bytes over as they are, and returns them.
pub forward_raw_lem :
    (n : ℕ) (t : Transfer)
    → IsBuffered t.from
    → n ≤ length (pending t.from)
    → forward_raw n t ≡ ok (take n (pending t.from)) (carried n t)
forward_raw_lem n t b h = forward_raw_cases n t.from.stream t.from.pushed t.to b h

forward_directly_cases :
    (n : ℕ) (c : Channel) (pushed : List ℕ) (to : Peer)
    → length pushed ≤ 1
    → n ≤ length (pushed ++ c.input)
    → forward_directly n (record { from = record { stream = c; pushed = pushed }; to = to })
      ≡ ok tt (carried n (record { from = record { stream = c; pushed = pushed }; to = to }))
unfolding forward_directly
forward_directly_cases zero c [] to b h = ground (arith, append-nil to.output)
forward_directly_cases (suc n) c [] to b h =
    ground (arith, forward_directly_lem (suc n) (record { source = c; sink = to.stream }))
forward_directly_cases zero c (x ∷ []) to b h = ground (arith, append-nil to.output)
forward_directly_cases (suc zero) c (x ∷ []) to b h = ground arith
forward_directly_cases (suc (suc n)) c (x ∷ []) to b h = ground (
  arith,
  append_assoc to.output (x ∷ []) (take (suc n) c.input),
  forward_directly_lem (suc n)
      (record { source = c; sink = record to.stream { output = to.output ++ x ∷ [] } }),
)
forward_directly_cases n c (x ∷ y ∷ r) to b h = absurd (omega arith)

-- With the push-back buffer within its size and `n` bytes to come, `forward_directly n` ends well and
-- hands the next `n` bytes over as they are, the pushed-back one first.
pub forward_directly_exact :
    (n : ℕ) (t : Transfer)
    → IsBuffered t.from
    → n ≤ length (pending t.from)
    → forward_directly n t ≡ ok tt (carried n t)
forward_directly_exact n t b h = forward_directly_cases n t.from.stream t.from.pushed t.to b h

module _ {T : Type 0} (w : Wire T) where
  pub recv_lem :
      (p : Peer)
      → IsBuffered p
      → w.size ≤ length (pending p)
      → recv w p ≡ ok (decode w (take w.size (pending p))) (advanced w.size p)
  unfolding recv
  recv_lem p b h =
      bind_ok (recv_raw w.size) (λ bs. pure (decode w bs)) p (recv_raw_lem w.size p b h)

  pub forward_lem :
      (t : Transfer)
      → IsBuffered t.from
      → w.size ≤ length (pending t.from)
      → forward w t ≡ ok (decode w (take w.size (pending t.from))) (carried w.size t)
  unfolding forward
  forward_lem t b h =
      bind_ok (forward_raw w.size) (λ bs. pure (decode w bs)) t (forward_raw_lem w.size t b h)
