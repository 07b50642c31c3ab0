-- ===== src/Stream/TlsStream.antt =====
-- TLSStream.cpp: the loop of recv over gnutls records. What gnutls answers is an argument.
pub mod Session
pub mod Send
pub mod Counts
pub mod Held
pub mod Handles
use vncmanager.Base.{
  ℕ, zero, suc, ◌-◌, ◌≡◌, refl, List, [], ◌∷◌, ◌++◌, length, take, drop, leb, if◌then◌else◌, Error,
  eof, tls_failed, Bool-cases, inl, inr,
}
use vncmanager.Stream.FdStream
use vncmanager.Stream.FdStream.{
  Arrival, chunk, closed, failed, Received, received, end_of_file, system_error, waiting, requeue,
}

-- What `gnutls_record_recv` meets: decrypted data, GNUTLS_E_INTERRUPTED or GNUTLS_E_AGAIN, the end,
-- an end with no notice of it, or an error.
pub data Record : Type 0 where
  payload : ℕ → List ℕ → Record
  again : Record
  finished : Record
  premature_termination : Record
  fatal : Record

abbrev pub keep : List ℕ → List Record → List Record
keep [] q = q
keep (b ∷ bs) q = payload b bs ∷ q

-- How a call ends, with what gnutls holds afterwards.
pub data Outcome : Type 0 where
  received_records : List ℕ → List Record → Outcome
  throws : Error → Outcome
  blocks : List ℕ → Outcome

pub recv_loop : List ℕ → ℕ → List Record → Outcome
recv_loop got zero q = received_records got q
recv_loop got (suc n) [] = blocks got
recv_loop got (suc n) (again ∷ q) = recv_loop got (suc n) q
recv_loop got (suc n) (finished ∷ q) = throws eof
recv_loop got (suc n) (premature_termination ∷ q) = throws eof
recv_loop got (suc n) (fatal ∷ q) = throws tls_failed
recv_loop got (suc n) (payload b bs ∷ q) =
    let more = recv_loop (got ++ (b ∷ bs)) (suc n - length (b ∷ bs)) q in
    if leb (suc n) (length (b ∷ bs))
    then received_records (got ++ take (suc n) (b ∷ bs)) (keep (drop (suc n) (b ∷ bs)) q)
    else more

unfoldable pub recv : ℕ → List Record → Outcome
unfolding recv_loop
recv n q = recv_loop [] n q

-- The socket that would bring the same bytes: interruptions gone, both ends a close.
abbrev pub socket : List Record → List Arrival
socket [] = []
socket (payload b bs ∷ q) = chunk b bs ∷ socket q
socket (again ∷ q) = socket q
socket (finished ∷ q) = closed ∷ socket q
socket (premature_termination ∷ q) = closed ∷ socket q
socket (fatal ∷ q) = failed ∷ socket q

abbrev pub Same : Outcome → Received → Type 0
Same (received_records bs q) (received bs' q') = (bs ≡ bs') × (socket q ≡ q')
Same (throws e) end_of_file = e ≡ eof
Same (throws e) system_error = e ≡ tls_failed
Same (blocks bs) (waiting bs') = bs ≡ bs'
Same o r = ⊥

socket-keep : (bs : List ℕ) (q : List Record) → socket (keep bs q) ≡ requeue bs (socket q)
socket-keep [] q = refl
socket-keep (b ∷ bs) q = refl

recv_loop-Same :
    (got : List ℕ) (n : ℕ) (q : List Record)
    → Same (recv_loop got n q) (FdStream.recv_loop got n (socket q))
unfolding recv_loop FdStream.recv_loop
recv_loop-Same got zero q = (refl, refl)
recv_loop-Same got (suc n) [] = refl
recv_loop-Same got (suc n) (again ∷ q) = recv_loop-Same got (suc n) q
recv_loop-Same got (suc n) (finished ∷ q) = refl
recv_loop-Same got (suc n) (premature_termination ∷ q) = refl
recv_loop-Same got (suc n) (fatal ∷ q) = refl
recv_loop-Same got (suc n) (payload b bs ∷ q) = elim (Bool-cases (leb (suc n) (length (b ∷ bs)))) [
  | inl last ↦ rw last (refl, socket-keep (drop n bs) q)
  | inr more ↦ rw more (recv_loop-Same (got ++ (b ∷ bs)) (suc n - length (b ∷ bs)) q)
]

-- A read over TLS ends as a read of the plain socket with the same bytes does: interruptions are
-- retried, and both ways in which a session can end throw `eof_exception`.
pub recv-Same : (n : ℕ) (q : List Record) → Same (recv n q) (FdStream.recv n (socket q))
unfolding recv FdStream.recv
recv-Same n q = recv_loop-Same [] n q
