-- ===== src/Stream/TlsStream/Send.antt =====
-- TLSStream.cpp: the loop of send over gnutls records. What gnutls answers is an argument.
use vncmanager.Base.{
  ℕ, zero, suc, ◌≡◌, refl, List, [], ◌∷◌, ◌++◌, append-nil, take, drop, Error, tls_failed,
}
use vncmanager.Stream.FdStream
use vncmanager.Stream.FdStream.{Acceptance, accepts, refuses, Sent, sent, send_error, send_waiting}

-- What `gnutls_record_send` answers: how many bytes it took, GNUTLS_E_INTERRUPTED or GNUTLS_E_AGAIN,
-- or an error.
pub data Answer : Type 0 where
  takes : ℕ → Answer
  retry : Answer
  fails : Answer

-- How a call ends, with the bytes that gnutls took.
pub data Delivery : Type 0 where
  delivered : List ℕ → List Answer → Delivery
  throws : Error → List ℕ → Delivery
  blocks : List ℕ → Delivery

pub send_loop : List ℕ → List ℕ → List Answer → Delivery
send_loop out [] q = delivered out q
send_loop out (b ∷ bs) [] = blocks out
send_loop out (b ∷ bs) (retry ∷ q) = send_loop out (b ∷ bs) q
send_loop out (b ∷ bs) (fails ∷ q) = throws tls_failed out
send_loop out (b ∷ bs) (takes k ∷ q) = send_loop (out ++ take k (b ∷ bs)) (drop k (b ∷ bs)) q

unfoldable pub send : List ℕ → List Answer → Delivery
unfolding send_loop
send bs q = send_loop [] bs q

-- The socket that would accept the same bytes at a time; an answer that moves nothing is dropped.
abbrev pub socket : List Answer → List Acceptance
socket [] = []
socket (takes zero ∷ q) = socket q
socket (takes (suc k) ∷ q) = accepts k ∷ socket q
socket (retry ∷ q) = socket q
socket (fails ∷ q) = refuses ∷ socket q

abbrev pub SameDelivery : Delivery → Sent → Type 0
SameDelivery (delivered out q) (sent out' q') = (out ≡ out') × (socket q ≡ q')
SameDelivery (throws e out) (send_error out') = (e ≡ tls_failed) × (out ≡ out')
SameDelivery (blocks out) (send_waiting out') = out ≡ out'
SameDelivery d s = ⊥

send_loop-SameDelivery :
    (out bs : List ℕ) (q : List Answer)
    → SameDelivery (send_loop out bs q) (FdStream.send_loop out bs (socket q))
unfolding send_loop FdStream.send_loop
send_loop-SameDelivery out [] q = (refl, refl)
send_loop-SameDelivery out (b ∷ bs) [] = refl
send_loop-SameDelivery out (b ∷ bs) (retry ∷ q) = send_loop-SameDelivery out (b ∷ bs) q
send_loop-SameDelivery out (b ∷ bs) (fails ∷ q) = (refl, refl)
send_loop-SameDelivery out (b ∷ bs) (takes zero ∷ q) =
    rw (append-nil out) (send_loop-SameDelivery out (b ∷ bs) q)
send_loop-SameDelivery out (b ∷ bs) (takes (suc k) ∷ q) =
    send_loop-SameDelivery (out ++ take (suc k) (b ∷ bs)) (drop (suc k) (b ∷ bs)) q

-- A send over TLS puts out what a send over a plain socket does that accepts as many bytes at a time,
-- and ends in the same way: interruptions and records of no bytes are retried, and an error throws.
pub send-SameDelivery :
    (bs : List ℕ) (q : List Answer) → SameDelivery (send bs q) (FdStream.send bs (socket q))
unfolding send FdStream.send
send-SameDelivery bs q = send_loop-SameDelivery [] bs q
