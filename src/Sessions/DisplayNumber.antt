-- ===== src/Sessions/DisplayNumber.antt =====
-- The loop of `Xvnc::execute` that reads the display number from the pipe of `-displayfd`.
use vncmanager.Base.{
  ℕ, zero, suc, ◌+◌, ◌-◌, ◌*◌, ◌/◌, ◌%◌, ◌^◌, ◌<◌, ◌≤◌, ◌≡◌, ap, ◌∙◌, arith, List, [], ◌∷◌, leb,
  ltb, ◌==◌, ◌&&◌, if◌then◌else◌, Result, ok, err, display_number_missing, overflow, Bool-cases,
  inl, inr,
}

abbrev pub int_limit : ℕ
int_limit = 2 ^ 31

-- The state is the rest of the pipe's bytes; a pipe that ends gives the exception. The number is an
-- `int`: past 2^31 - 1 it overflows.
unfoldable pub read_display_number : ℕ → List ℕ → Result (List ℕ) ℕ
read_display_number number [] = err display_number_missing []
read_display_number number (buf ∷ rest) =
    let number' = if leb b'0' buf && leb buf b'9' then number * 10 + (buf - b'0') else number in
    let more = read_display_number number' rest in
    if leb int_limit number'
    then err overflow rest
    else (if buf == 10 then ok number' rest else more)

-- A number in decimal, before `rest`: what Xvnc writes, and what `std::ostream` prints.
unfoldable pub decimal_loop : ℕ → ℕ → List ℕ → List ℕ
decimal_loop zero n rest = rest
decimal_loop (suc fuel) n rest =
    let more = decimal_loop fuel (n / 10) ((n % 10 + b'0') ∷ rest) in
    if ltb n 10 then (n + b'0') ∷ rest else more

unfoldable pub decimal : ℕ → List ℕ → List ℕ
unfolding decimal_loop
decimal n rest = decimal_loop (suc n) n rest

read_digit :
    (number d : ℕ) (rest : List ℕ)
    → d < 10
    → number * 10 + d < int_limit
    → read_display_number number ((d + b'0') ∷ rest) ≡ read_display_number (number * 10 + d) rest
unfolding read_display_number
read_digit number d rest h fits = ground arith

-- After the digits of `n` the loop holds `n`, whatever follows.
read_digits :
    (fuel n : ℕ) (rest : List ℕ)
    → n < fuel
    → n < int_limit
    → read_display_number 0 (decimal_loop fuel n rest) ≡ read_display_number n rest
unfolding decimal_loop
read_digits zero n rest h fits = absurd (omega arith)
read_digits (suc fuel) n rest h fits = elim (Bool-cases (ltb n 10)) [
  | inl small ↦
      let le : n < 10 = ground arith in
      rw small (
        read_digit 0 n rest le (omega arith)
        ∙ ap (λ (k : ℕ). read_display_number k rest) (omega arith))
  | inr large ↦
      let ge : 10 ≤ n = ground arith in
      rw large (
        read_digits fuel (n / 10) ((n % 10 + b'0') ∷ rest) (omega arith) (omega arith)
        ∙ read_digit (n / 10) (n % 10) rest (omega arith) (omega arith)
        ∙ ap (λ (k : ℕ). read_display_number k rest) (omega arith))
]

-- The display number that Xvnc writes in decimal and ends with a newline is the number that the
-- loop returns, if it fits an `int`; the loop reads no byte past the newline.
pub read_display_number-decimal :
    (n : ℕ) (rest : List ℕ)
    → n < int_limit
    → read_display_number 0 (decimal n (10 ∷ rest)) ≡ ok n rest
unfolding decimal
read_display_number-decimal n rest fits =
    read_digits (suc n) n (10 ∷ rest) (omega arith) fits
    ∙ unfold read_display_number in ground arith
