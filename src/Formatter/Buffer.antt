-- ===== src/Formatter/Buffer.antt =====
-- When an operation of the formatter leaves the push-back buffer empty.
use vncmanager.Base.{
  ℕ, zero, suc, ◌-◌, ◌*◌, ◌≤◌, ◌≡◌, ◌⊎◌, refl, arith, inl, inr, List, [], ◌∷◌, length, take, ◌++◌,
  min, leb, Bool-cases, Result-cases, Error, eof, out_of_fuel, Post, Post-bind, Action, pure,
}
use vncmanager.Stream.Channel
use vncmanager.Stream.Channel.{Channel, Link, buffer_length}
use vncmanager.Rfb.Wire.{Wire, decode, decode_all}
use vncmanager.Formatter.{
  Peer, Transfer, recv_raw, recv_string, recv, recv_vector, forward_raw, forward, forward_rest,
  forward_directly,
}

-- No byte was pushed back and not read again.
abbrev pub IsClear : Peer → Type 0
IsClear p = p.pushed ≡ []

-- What the operations throw.
abbrev pub IsEnd : Error → Type 0
IsEnd e = (e ≡ eof) ⊎ (e ≡ out_of_fuel)

-- A read of at least as many bytes as the buffer holds leaves it empty.
abbrev pub Clears : ℕ → {A : Type 0} → Action Peer A → Type 0
Clears n m =
    (p : Peer)
    → length p.pushed ≤ 1
    → length p.pushed ≤ n
    → Post (λ _ q. IsClear q) (λ e _. IsEnd e) (m p)

raw_cases :
    (n : ℕ) (c : Channel) (pushed : List ℕ)
    → length pushed ≤ 1
    → length pushed ≤ n
    → Post (λ _ q. IsClear q) (λ e _. IsEnd e) (recv_raw n (record { stream = c; pushed = pushed }))
unfolding recv_raw
raw_cases zero c [] b h = ground arith
raw_cases (suc n) c [] b h = ground arith
raw_cases zero c (x ∷ []) b h = absurd (omega arith)
raw_cases (suc n) c (x ∷ []) b h = ground arith
raw_cases n c (x ∷ y ∷ r) b h = absurd (omega arith)

pub recv_raw-Clears : (n : ℕ) → Clears n (recv_raw n)
recv_raw-Clears n p b h = raw_cases n p.stream p.pushed b h

pub recv_string-Clears : (n : ℕ) → Clears n (recv_string n)
unfolding recv_string
recv_string-Clears n p b h = recv_raw-Clears n p b h

module _ {T : Type 0} (w : Wire T) where
  pub recv-Clears : Clears w.size (recv w)
  unfolding recv
  recv-Clears p b h =
      Post-bind (λ _ q. IsClear q) (λ _ q. IsClear q) (λ e _. IsEnd e) (recv_raw w.size)
        (λ bs. pure (decode w bs)) p (recv_raw-Clears w.size p b h) (λ bs q k. k)

  pub recv_vector-Clears : (n : ℕ) → Clears (n * w.size) (recv_vector w n)
  unfolding recv_vector
  recv_vector-Clears n p b h =
      Post-bind (λ _ q. IsClear q) (λ _ q. IsClear q) (λ e _. IsEnd e) (recv_raw (n * w.size))
        (λ bs. pure (decode_all w n bs)) p (recv_raw-Clears (n * w.size) p b h) (λ bs q k. k)

-- A forward, which writes to a peer that keeps its buffer.
abbrev pub Hands : ℕ → {A : Type 0} → Action Transfer A → Type 0
Hands n m =
    (t : Transfer)
    → length t.from.pushed ≤ 1
    → length t.from.pushed ≤ n
    → Post (λ _ u. IsClear u.from × (u.to.pushed ≡ t.to.pushed)) (λ e _. IsEnd e) (m t)

stream_forward-IsEnd :
    (n : ℕ) (l : Link) → Post (λ _ _. Unit {0}) (λ e _. IsEnd e) (Channel.forward n l)
unfolding Channel.forward
stream_forward-IsEnd n l = ground arith

loop-IsEnd :
    (fuel n : ℕ) (l : Link)
    → Post (λ _ _. Unit {0}) (λ e _. IsEnd e) (Channel.forward_loop fuel n l)
unfolding Channel.forward_loop
loop-IsEnd zero n l = ground arith
loop-IsEnd (suc fuel) n l = elim (Result-cases (Channel.forward (min n buffer_length) l)) [
  | inl (bs, k, e) ↦
      rw (e, Channel.forward_loop)
        (elim (Bool-cases (leb n buffer_length)) [
          | inl last ↦ rw last tt
          | inr more ↦ rw more (loop-IsEnd fuel (n - buffer_length) k)
        ])
  | inr (x, k, e) ↦
      rw (e, Channel.forward_loop) (rw e at (stream_forward-IsEnd (min n buffer_length) l))
]

directly-IsEnd :
    (n : ℕ) (l : Link) → Post (λ _ _. Unit {0}) (λ e _. IsEnd e) (Channel.forward_directly n l)
unfolding Channel.forward_directly
directly-IsEnd n l = loop-IsEnd (suc n) n l

raw_forward_cases :
    (n : ℕ) (c : Channel) (pushed : List ℕ) (to : Peer)
    → length pushed ≤ 1
    → length pushed ≤ n
    → Post
        (λ _ u. IsClear u.from × (u.to.pushed ≡ to.pushed))
        (λ e _. IsEnd e)
        (forward_raw n (record { from = record { stream = c; pushed = pushed }; to = to }))
unfolding forward_raw
raw_forward_cases n c [] to b h =
    ground (arith, stream_forward-IsEnd n (record { source = c; sink = to.stream }))
raw_forward_cases zero c (x ∷ []) to b h = absurd (omega arith)
raw_forward_cases (suc n) c (x ∷ []) to b h = ground arith
raw_forward_cases n c (x ∷ y ∷ r) to b h = absurd (omega arith)

pub forward_raw-Hands : (n : ℕ) → Hands n (forward_raw n)
forward_raw-Hands n t b h = raw_forward_cases n t.from.stream t.from.pushed t.to b h

pub forward-Hands : {T : Type 0} (w : Wire T) → Hands w.size (forward w)
unfolding forward
forward-Hands w t b h =
    Post-bind (λ _ u. IsClear u.from × (u.to.pushed ≡ t.to.pushed))
      (λ _ u. IsClear u.from × (u.to.pushed ≡ t.to.pushed)) (λ e _. IsEnd e) (forward_raw w.size)
      (λ bs. pure (decode w bs)) t (forward_raw-Hands w.size t b h) (λ bs q k. k)

rest_cases :
    (n : ℕ) (t : Transfer)
    → IsClear t.from
    → Post (λ _ u. IsClear u.from × (u.to.pushed ≡ t.to.pushed)) (λ e _. IsEnd e) (forward_rest n t)
unfolding forward_rest
rest_cases n t h =
    ground (arith, directly-IsEnd n (record { source = t.from.stream; sink = t.to.stream }))

directly_cases :
    (n : ℕ) (c : Channel) (pushed : List ℕ) (to : Peer)
    → length pushed ≤ 1
    → length pushed ≤ n
    → Post
        (λ _ u. IsClear u.from × (u.to.pushed ≡ to.pushed))
        (λ e _. IsEnd e)
        (forward_directly n (record { from = record { stream = c; pushed = pushed }; to = to }))
unfolding forward_directly
directly_cases n c [] to b h =
    rest_cases n (record { from = record { stream = c; pushed = [] }; to = to }) refl
directly_cases zero c (x ∷ []) to b h = absurd (omega arith)
directly_cases (suc n) c (x ∷ []) to b h =
    rest_cases (suc n - min (suc n) 1)
      (record {
        from = record { stream = c; pushed = take (1 - min (suc n) 1) (x ∷ []) };
        to = record {
          stream = record to.stream { output = to.output ++ take (min (suc n) 1) (x ∷ []) };
          pushed = to.pushed;
        };
      })
      (ground arith)
directly_cases n c (x ∷ y ∷ r) to b h = absurd (omega arith)

pub forward_directly-Hands : (n : ℕ) → Hands n (forward_directly n)
forward_directly-Hands n t b h = directly_cases n t.from.stream t.from.pushed t.to b h
