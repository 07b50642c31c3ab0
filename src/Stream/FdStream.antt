-- ===== src/Stream/FdStream.antt =====
-- FdStream.h and FdStream.cpp: the read and write loops over a socket, and the ownership of its
-- descriptor. What the kernel answers is an argument: how data arrive, and how much it accepts.
pub mod Refinement
use vncmanager.Base.{
  ℕ, zero, suc, ◌-◌, Option, none, some, List, [], ◌∷◌, ◌++◌, length, take, drop, min, leb,
  if◌then◌else◌,
}

-- The kernel's receive queue, oldest first: a block of at least one byte, the peer's orderly close,
-- or an error.
pub data Arrival : Type 0 where
  chunk : ℕ → List ℕ → Arrival
  closed : Arrival
  failed : Arrival

-- How a call of `recv` ends; `waiting` means that it blocks with these bytes read.
pub data Received : Type 0 where
  received : List ℕ → List Arrival → Received
  end_of_file : Received
  system_error : Received
  waiting : List ℕ → Received

abbrev pub requeue : List ℕ → List Arrival → List Arrival
requeue [] q = q
requeue (b ∷ bs) q = chunk b bs ∷ q

-- The loop of `FdStream::recv`, with the bytes read so far. `::recv(fd, ptr, len)` returns what is
-- there, `len` bytes at most, and the rest stays queued; then `len` is 0 and the loop is over.
unfoldable pub recv_loop : List ℕ → ℕ → List Arrival → Received
recv_loop got zero q = received got q
recv_loop got (suc n) [] = waiting got
recv_loop got (suc n) (closed ∷ q) = end_of_file
recv_loop got (suc n) (failed ∷ q) = system_error
recv_loop got (suc n) (chunk b bs ∷ q) =
    let more = recv_loop (got ++ (b ∷ bs)) (suc n - length (b ∷ bs)) q in
    if leb (suc n) (length (b ∷ bs))
    then received (got ++ take (suc n) (b ∷ bs)) (requeue (drop (suc n) (b ∷ bs)) q)
    else more

unfoldable pub recv : ℕ → List Arrival → Received
unfolding recv_loop
recv n q = recv_loop [] n q

-- What the kernel answers to one `::send`: it takes some bytes, at least one, or refuses.
pub data Acceptance : Type 0 where
  accepts : ℕ → Acceptance
  refuses : Acceptance

-- How a call of `send` ends, with the bytes that went out.
pub data Sent : Type 0 where
  sent : List ℕ → List Acceptance → Sent
  send_error : List ℕ → Sent
  send_waiting : List ℕ → Sent

-- The loop of `FdStream::send`; `accepts k` is a return of `k + 1` bytes, or of all that is left.
unfoldable pub send_loop : List ℕ → List ℕ → List Acceptance → Sent
send_loop out [] q = sent out q
send_loop out (b ∷ bs) [] = send_waiting out
send_loop out (b ∷ bs) (refuses ∷ q) = send_error out
send_loop out (b ∷ bs) (accepts k ∷ q) =
    send_loop (out ++ take (suc k) (b ∷ bs)) (drop (suc k) (b ∷ bs)) q

unfoldable pub send : List ℕ → List Acceptance → Sent
unfolding send_loop
send bs q = send_loop [] bs q

-- `m_fd`, with -1 as `none`.
pub record Owner : Type 0 where
  pub fd : Option ℕ

-- The descriptors that the destructor closes.
pub destroy : Owner → List ℕ
destroy o = elim o.fd [ none ↦ [] | some n ↦ n ∷ [] ]

-- FdStream(FdStream &&): the new object, and what is left of the other.
pub move : Owner → Owner × Owner
move another = (record { fd = another.fd }, record { fd = none })

pub take_fd : Owner → Option ℕ × Owner
take_fd o = (o.fd, record { fd = none })
