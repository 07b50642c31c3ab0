-- ===== src/Stream/FdStream/Refinement.antt =====
-- The loops of FdStream against the streams of Stream/Channel.
use vncmanager.Base.{
  ℕ, zero, suc, ◌-◌, ◌<◌, ◌≤◌, ◌≡◌, refl, sym, ap, ◌∙◌, arith, false, List, [], ◌∷◌, ◌++◌,
  append-nil, append_assoc, length, length-append, take, drop, take-append-drop, leb, ltb,
  Bool-cases, inl, inr, Result, ok, err, eof,
}
use vncmanager.Stream.Channel
use vncmanager.Stream.Channel.{Channel}
use vncmanager.Stream.FdStream.{
  Arrival, chunk, closed, failed, Received, received, end_of_file, system_error, waiting, requeue,
  recv_loop, recv, Acceptance, accepts, refuses, Sent, sent, send_error, send_waiting, send_loop,
  send,
}

-- The bytes of a queue up to its end.
abbrev pub arrived : List Arrival → List ℕ
arrived [] = []
arrived (chunk b bs ∷ q) = (b ∷ bs) ++ arrived q
arrived (closed ∷ q) = []
arrived (failed ∷ q) = []

-- The peer closes after its last byte.
abbrev pub Closes : List Arrival → Type 0
Closes [] = ⊥
Closes (chunk b bs ∷ q) = Closes q
Closes (closed ∷ q) = Unit
Closes (failed ∷ q) = ⊥

-- The loop's outcome against that of `Channel.recv`.
abbrev pub Agrees : Received → Result Channel (List ℕ) → Type 0
Agrees (received bs q) (ok bs' c) = (bs ≡ bs') × (arrived q ≡ c.input) × Closes q
Agrees (received bs q) (err e c) = ⊥
Agrees end_of_file (err e c) = (e ≡ eof) × (c.input ≡ [])
Agrees end_of_file (ok bs' c) = ⊥
Agrees system_error r = ⊥
Agrees (waiting bs) r = ⊥

take-append_le : (n : ℕ) (xs ys : List ℕ) → n ≤ length xs → take n (xs ++ ys) ≡ take n xs
take-append_le zero xs ys h = refl
take-append_le (suc n) [] ys h = elim h [ ]
take-append_le (suc n) (x ∷ xs) ys h = ap (◌∷◌ x) (take-append_le n xs ys (omega arith))

drop-append_le : (n : ℕ) (xs ys : List ℕ) → n ≤ length xs → drop n (xs ++ ys) ≡ drop n xs ++ ys
drop-append_le zero xs ys h = refl
drop-append_le (suc n) [] ys h = elim h [ ]
drop-append_le (suc n) (x ∷ xs) ys h = drop-append_le n xs ys (omega arith)

take-append_ge :
    (n : ℕ) (xs ys : List ℕ) → length xs ≤ n → take n (xs ++ ys) ≡ xs ++ take (n - length xs) ys
take-append_ge n [] ys h = ap (λ (k : ℕ). take k ys) (omega arith)
take-append_ge zero (x ∷ xs) ys h = elim h [ ]
take-append_ge (suc n) (x ∷ xs) ys h =
    ap (◌∷◌ x)
      (take-append_ge n xs ys (omega arith) ∙ ap (λ (k : ℕ). xs ++ take k ys) (omega arith))

drop-append_ge :
    (n : ℕ) (xs ys : List ℕ) → length xs ≤ n → drop n (xs ++ ys) ≡ drop (n - length xs) ys
drop-append_ge n [] ys h = ap (λ (k : ℕ). drop k ys) (omega arith)
drop-append_ge zero (x ∷ xs) ys h = elim h [ ]
drop-append_ge (suc n) (x ∷ xs) ys h =
    drop-append_ge n xs ys (omega arith) ∙ ap (λ (k : ℕ). drop k ys) (omega arith)

arrived-requeue : (bs : List ℕ) (q : List Arrival) → arrived (requeue bs q) ≡ bs ++ arrived q
arrived-requeue [] q = refl
arrived-requeue (b ∷ bs) q = refl

Closes-requeue : (bs : List ℕ) (q : List Arrival) → Closes q → Closes (requeue bs q)
Closes-requeue [] q h = h
Closes-requeue (b ∷ bs) q h = h

-- With enough bytes on the way the loop returns the first `n`, and leaves the others queued.
recv_loop_enough :
    (got : List ℕ) (n : ℕ) (q : List Arrival)
    → Closes q
    → n ≤ length (arrived q)
    → (r : List Arrival) × (recv_loop got n q ≡ received (got ++ take n (arrived q)) r)
      × (arrived r ≡ drop n (arrived q))
      × Closes r
unfolding recv_loop
recv_loop_enough got zero q c h =
    (q, ap (λ (g : List ℕ). received g q) (sym (append-nil got)), refl, c)
recv_loop_enough got (suc n) [] c h = absurd c
recv_loop_enough got (suc n) (closed ∷ q) c h = absurd (omega arith)
recv_loop_enough got (suc n) (failed ∷ q) c h = absurd c
recv_loop_enough got (suc n) (chunk b bs ∷ q) c h =
    elim (Bool-cases (leb (suc n) (length (b ∷ bs)))) [
      | inl last ↦
          let le : suc n ≤ length (b ∷ bs) = ground arith in
          (
            requeue (drop (suc n) (b ∷ bs)) q,
            rw last (
                ap (λ (x : List ℕ). received (got ++ x) (requeue (drop (suc n) (b ∷ bs)) q))
                  (sym (take-append_le (suc n) (b ∷ bs) (arrived q) le))),
            arrived-requeue (drop n bs) q ∙ sym (drop-append_le (suc n) (b ∷ bs) (arrived q) le),
            Closes-requeue (drop n bs) q c,
          )
      | inr more ↦
          let ge : length (b ∷ bs) ≤ suc n = ground arith in
          let (r, e, a, k) =
            recv_loop_enough (got ++ (b ∷ bs)) (suc n - length (b ∷ bs)) q c
              (omega (arith, length-append bs (arrived q))) in
          (
            r,
            rw more (
                e
                ∙ ap (λ (x : List ℕ). received x r)
                    (append_assoc got (b ∷ bs) _
                      ∙ ap (◌++◌ got) (sym (take-append_ge (suc n) (b ∷ bs) (arrived q) ge)))),
            a ∙ sym (drop-append_ge (suc n) (b ∷ bs) (arrived q) ge),
            k,
          )
    ]

recv_loop_short :
    (got : List ℕ) (n : ℕ) (q : List Arrival)
    → Closes q
    → length (arrived q) < n
    → recv_loop got n q ≡ end_of_file
unfolding recv_loop
recv_loop_short got zero q c h = elim h [ ]
recv_loop_short got (suc n) [] c h = absurd c
recv_loop_short got (suc n) (closed ∷ q) c h = refl
recv_loop_short got (suc n) (failed ∷ q) c h = absurd c
recv_loop_short got (suc n) (chunk b bs ∷ q) c h =
    let more : leb (suc n) (length (b ∷ bs)) ≡ false =
      ground (arith, length-append bs (arrived q)) in
    rw more (
      recv_loop_short (got ++ (b ∷ bs)) (suc n - length (b ∷ bs)) q c
        (omega (arith, length-append bs (arrived q))))

-- However the kernel splits what a peer sends before it closes, `FdStream::recv` returns the same
-- bytes and leaves the same bytes to come as one read of the whole stream, and throws
-- `eof_exception` exactly when that read does.
pub recv-Agrees :
    (n : ℕ) (q : List Arrival) (c : Channel)
    → Closes q
    → arrived q ≡ c.input
    → Agrees (recv n q) (Channel.recv n c)
unfolding recv Channel.recv
recv-Agrees n q c k e = elim (Bool-cases (ltb (length c.input) n)) [
  | inl short ↦ rw (recv_loop_short [] n q k (rw e (ground arith)), short) (refl, refl)
  | inr enough ↦
      let (r, p, a, k') = recv_loop_enough [] n q k (rw e (ground arith)) in
      rw (p, enough) (ap (take n) e, a ∙ ap (drop n) e, k')
]

-- What went out, whichever way the call ended.
abbrev pub wired : Sent → List ℕ
wired (sent out q) = out
wired (send_error out) = out
wired (send_waiting out) = out

abbrev pub IsSent : Sent → Type 0
IsSent (sent out q) = Unit
IsSent (send_error out) = ⊥
IsSent (send_waiting out) = ⊥

send_loop_prefix :
    (out bs : List ℕ) (q : List Acceptance)
    → (rest : List ℕ) × (out ++ bs ≡ wired (send_loop out bs q) ++ rest)
      × (IsSent (send_loop out bs q) → rest ≡ [])
unfolding send_loop
send_loop_prefix out [] q = ([], refl, λ _. refl)
send_loop_prefix out (b ∷ bs) [] = (b ∷ bs, refl, λ h. absurd h)
send_loop_prefix out (b ∷ bs) (refuses ∷ q) = (b ∷ bs, refl, λ h. absurd h)
send_loop_prefix out (b ∷ bs) (accepts k ∷ q) =
    let (rest, e, whole) =
      send_loop_prefix (out ++ take (suc k) (b ∷ bs)) (drop (suc k) (b ∷ bs)) q in
    (
      rest,
      ap (◌++◌ out) (sym (take-append-drop (suc k) (b ∷ bs)))
          ∙ sym (append_assoc out (take (suc k) (b ∷ bs)) (drop (suc k) (b ∷ bs)))
          ∙ e,
      whole,
    )

-- What `FdStream::send` puts on the wire is a prefix of its buffer, in order and without a gap or a
-- repetition, whatever the kernel accepts at a time; a call that returns has sent the whole buffer.
pub send_prefix :
    (bs : List ℕ) (q : List Acceptance)
    → (rest : List ℕ) × (bs ≡ wired (send bs q) ++ rest) × (IsSent (send bs q) → rest ≡ [])
unfolding send
send_prefix bs q = send_loop_prefix [] bs q
