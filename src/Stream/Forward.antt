-- ===== src/Stream/Forward.antt =====
-- The loop of `Stream::forward_directly`, with enough bytes to come and with too few.
use vncmanager.Base.{
  ℕ, zero, suc, ◌+◌, ◌-◌, ◌*◌, ◌/◌, ◌<◌, ◌≤◌, ◌≡◌, sym, ap, ◌∙◌, arith, inl, inr, true, false,
  append-nil, min, List, [], ◌++◌, append_assoc, length, take, drop, length-drop, take-add,
  drop-drop, ltb, leb, Bool-cases, ok, err, eof,
}
use native.Mathlib.Nat.{add_comm}
use vncmanager.Stream.Channel.{Link, forward, forward_loop, forward_directly, buffer_length}

-- The link after `n` bytes were moved.
abbrev pub moved : ℕ → Link → Link
moved n l = record {
  source = record l.source { input = drop n l.source.input };
  sink = record l.sink { output = l.sink.output ++ take n l.source.input };
}

pub forward_lem :
    (n : ℕ) (l : Link)
    → n ≤ length l.source.input
    → forward n l ≡ ok (take n l.source.input) (moved n l)
unfolding forward
forward_lem n l h = ground arith

pub forward_short :
    (n : ℕ) (l : Link)
    → length l.source.input < n
    → forward n l ≡ err eof (record l { source = record l.source { input = [] } })
unfolding forward
forward_short n l h = ground arith

moved-moved : (m n : ℕ) (l : Link) → moved n (moved m l) ≡ moved (m + n) l
moved-moved m n l = ground (
  arith,
  drop-drop m n l.source.input,
  take-add m n l.source.input,
  append_assoc l.sink.output (take m l.source.input) (take n (drop m l.source.input)),
)

-- One round of the loop.
round_last :
    (fuel n : ℕ) (l l' : Link) (bs : List ℕ)
    → leb n buffer_length ≡ true
    → forward (min n buffer_length) l ≡ ok bs l'
    → forward_loop (suc fuel) n l ≡ ok tt l'
unfolding forward_loop
round_last fuel n l l' bs last e = rw (e, last, forward_loop)

round_more :
    (fuel n : ℕ) (l l' : Link) (bs : List ℕ)
    → leb n buffer_length ≡ false
    → forward (min n buffer_length) l ≡ ok bs l'
    → forward_loop (suc fuel) n l ≡ forward_loop fuel (n - buffer_length) l'
unfolding forward_loop
round_more fuel n l l' bs more e = rw (e, more, forward_loop)

round_error :
    (fuel n : ℕ) (l l' : Link)
    → forward (min n buffer_length) l ≡ err eof l'
    → forward_loop (suc fuel) n l ≡ err eof l'
unfolding forward_loop
round_error fuel n l l' e = rw (e, forward_loop)

-- A round that does not break takes a whole buffer.
whole_round : (n : ℕ) → leb n buffer_length ≡ false → min n buffer_length ≡ buffer_length
whole_round n more = ground arith

forward_loop_lem :
    (fuel n : ℕ) (l : Link)
    → n < fuel
    → n ≤ length l.source.input
    → forward_loop fuel n l ≡ ok tt (moved n l)
forward_loop_lem zero n l f h = absurd (omega arith)
forward_loop_lem (suc fuel) n l f h = elim (Bool-cases (leb n buffer_length)) [
  | inl last ↦
      let e : min n buffer_length ≡ n = ground arith in
      round_last fuel n l (moved n l) (take n l.source.input) last (rw e (forward_lem n l h))
  | inr more ↦
      let big : buffer_length < n = ground arith in
      round_more fuel n l (moved buffer_length l) (take buffer_length l.source.input) more
        (rw (whole_round n more) (forward_lem buffer_length l (omega arith)))
      ∙ forward_loop_lem fuel (n - buffer_length) (moved buffer_length l) (omega arith)
          (omega (arith, length-drop buffer_length l.source.input))
      ∙ ap (ok tt) (
          moved-moved buffer_length (n - buffer_length) l ∙ ap (λ (k : ℕ). moved k l) (omega arith))
]

-- With `n` bytes to come, `forward_directly n` ends well: it moves those bytes and no other, as one
-- `forward` of `n` bytes does.
pub forward_directly_lem :
    (n : ℕ) (l : Link) → n ≤ length l.source.input → forward_directly n l ≡ ok tt (moved n l)
unfolding forward_directly
forward_directly_lem n l h = forward_loop_lem (suc n) n l (omega arith) h

-- The link after the stream ended: the whole buffers that came before the end were moved.
abbrev pub moved_until_end : Link → Link
moved_until_end l = record {
  source = record l.source { input = [] };
  sink = record l.sink {
    output =
        l.sink.output
        ++ take (length l.source.input / buffer_length * buffer_length) l.source.input;
  };
}

moved_until_end-moved :
    (l : Link)
    → buffer_length ≤ length l.source.input
    → moved_until_end (moved buffer_length l) ≡ moved_until_end l
moved_until_end-moved l h =
    let k : ℕ = length l.source.input in
    let e : (k - buffer_length) / buffer_length * buffer_length + buffer_length
        ≡ k / buffer_length * buffer_length =
      omega arith in
    ground (
      arith,
      e,
      add_comm buffer_length ((k - buffer_length) / buffer_length * buffer_length),
      length-drop buffer_length l.source.input,
      take-add buffer_length ((k - buffer_length) / buffer_length * buffer_length) l.source.input,
      append_assoc l.sink.output (take buffer_length l.source.input) (
          take ((k - buffer_length) / buffer_length * buffer_length)
            (drop buffer_length l.source.input)),
    )

nothing_whole :
    (l : Link)
    → length l.source.input < buffer_length
    → moved_until_end l ≡ record l { source = record l.source { input = [] } }
nothing_whole l h =
    let e : length l.source.input / buffer_length * buffer_length ≡ 0 = omega arith in
    rw e (ground (arith, append-nil l.sink.output))

forward_loop_short :
    (fuel n : ℕ) (l : Link)
    → n < fuel
    → length l.source.input < n
    → forward_loop fuel n l ≡ err eof (moved_until_end l)
forward_loop_short zero n l f h = absurd (omega arith)
forward_loop_short (suc fuel) n l f h =
    elim (Bool-cases (ltb (length l.source.input) (min n buffer_length))) [
      | inl short ↦
          round_error fuel n l _ (forward_short (min n buffer_length) l (ground arith))
          ∙ ap (err eof) (sym (nothing_whole l (ground arith)))
      | inr full ↦
          let big : buffer_length < n = ground arith in
          let enough : buffer_length ≤ length l.source.input = ground arith in
          let more : leb n buffer_length ≡ false = ground arith in
          round_more fuel n l (moved buffer_length l) (take buffer_length l.source.input) more
            (rw (whole_round n more) (forward_lem buffer_length l enough))
          ∙ forward_loop_short fuel (n - buffer_length) (moved buffer_length l) (omega arith)
              (omega (arith, length-drop buffer_length l.source.input))
          ∙ ap (err eof) (moved_until_end-moved l enough)
    ]

-- With fewer than `n` bytes to come, `forward_directly n` throws `eof_exception`, with every whole
-- buffer of 4096 bytes that came before the end delivered.
forward_directly_short :
    (n : ℕ) (l : Link)
    → length l.source.input < n
    → forward_directly n l ≡ err eof (moved_until_end l)
unfolding forward_directly
forward_directly_short n l h = forward_loop_short (suc n) n l (omega arith) h
