-- ===== src/Tunnel/Tight/Length.antt =====
-- The lengths of Tight data, as they are looked at on their way.
use vncmanager.Base.{
  ℕ, ◌+◌, ◌*◌, ◌/◌, ◌%◌, ◌^◌, ◌<◌, ◌≡◌, refl, ap, ◌∙◌, arith, true, false, List, [], ◌∷◌, ◌++◌,
  append_assoc, length, bind_ok, Action, ok, pure, ◌>>=◌, if◌then◌else◌, ltb, leb, Bool-cases, inl,
  inr,
}
use vncmanager.Rfb.Wire.{u8}
use vncmanager.Formatter.{forward, forward_directly}
use vncmanager.Formatter.Laws.{forward_lem}
use vncmanager.Tunnel.State.{Tunnel, to_client}
use vncmanager.Tunnel.Lift.{to_client_ok}
use vncmanager.Tunnel.Tight.{tight_length, forward_tight_variable_length_data}
use vncmanager.Tunnel.Rectangles.Relay.{server_sends, client_gets, client_gets-append, relay_body}

-- A length as the protocol writes it, in one to three bytes.
abbrev pub compact : ℕ → List ℕ
compact k =
    if ltb k 128
    then k ∷ []
    else (if ltb k 16384
        then (k % 128 + 128) ∷ k / 128 ∷ []
        else (k % 128 + 128) ∷ (k / 128 % 128 + 128) ∷ k / 16384 ∷ [])

-- One byte looked at on the way.
pub pass_byte :
    (b : ℕ) (bs : List ℕ) (t : Tunnel)
    → to_client (forward u8) (server_sends [] (b ∷ bs) t)
      ≡ ok b (server_sends [] bs (client_gets (b ∷ []) t))
pass_byte b bs t = to_client_ok (server_sends [] (b ∷ bs) t) (forward u8) (
    forward_lem u8 (record { from = (server_sends [] (b ∷ bs) t).current.peer; to = t.client })
      (omega arith) (omega arith))

-- The bytes of a length after the first.
abbrev third_byte : ℕ → Action Tunnel ℕ
third_byte n = to_client (forward u8) >>= λ b. pure (n + b * 2 ^ 14)

abbrev after_second : ℕ → ℕ → Action Tunnel ℕ
after_second n b = let m = n + b % 128 * 2 ^ 7 in if leb 128 b then third_byte m else pure m

abbrev after_first : ℕ → Action Tunnel ℕ
after_first b =
    let n = b % 128 in if leb 128 b then to_client (forward u8) >>= after_second n else pure n

first_byte :
    (b : ℕ) (bs : List ℕ) (t : Tunnel)
    → tight_length (server_sends [] (b ∷ bs) t)
      ≡ after_first b (server_sends [] bs (client_gets (b ∷ []) t))
unfolding tight_length
first_byte b bs t =
    bind_ok (to_client (forward u8)) after_first (server_sends [] (b ∷ bs) t) (pass_byte b bs t)

first_is_last : (b : ℕ) (s : Tunnel) → leb 128 b ≡ false → after_first b s ≡ ok (b % 128) s
first_is_last b s h = rw h refl

second_byte :
    (a b : ℕ) (bs : List ℕ) (t : Tunnel)
    → leb 128 a ≡ true
    → after_first a (server_sends [] (b ∷ bs) t)
      ≡ after_second (a % 128) b (server_sends [] bs (client_gets (b ∷ []) t))
second_byte a b bs t h = rw h (
    bind_ok (to_client (forward u8)) (after_second (a % 128)) (server_sends [] (b ∷ bs) t)
      (pass_byte b bs t))

second_is_last :
    (n b : ℕ) (s : Tunnel) → leb 128 b ≡ false → after_second n b s ≡ ok (n + b % 128 * 2 ^ 7) s
second_is_last n b s h = rw h refl

last_byte :
    (n b c : ℕ) (bs : List ℕ) (t : Tunnel)
    → leb 128 b ≡ true
    → after_second n b (server_sends [] (c ∷ bs) t)
      ≡ ok (n + b % 128 * 2 ^ 7 + c * 2 ^ 14) (server_sends [] bs (client_gets (c ∷ []) t))
last_byte n b c bs t h = rw h (
    bind_ok (to_client (forward u8)) (λ d. pure (n + b % 128 * 2 ^ 7 + d * 2 ^ 14))
      (server_sends [] (c ∷ bs) t) (pass_byte c bs t))

-- `client_gets` of one byte after another.
two_bytes :
    (a b : ℕ) (t : Tunnel)
    → client_gets (b ∷ []) (client_gets (a ∷ []) t) ≡ client_gets (a ∷ b ∷ []) t
two_bytes a b t = client_gets-append (a ∷ []) (b ∷ []) t

three_bytes :
    (a b c : ℕ) (t : Tunnel)
    → client_gets (c ∷ []) (client_gets (b ∷ []) (client_gets (a ∷ []) t))
      ≡ client_gets (a ∷ b ∷ c ∷ []) t
three_bytes a b c t =
    ap (client_gets (c ∷ [])) (two_bytes a b t) ∙ client_gets-append (a ∷ b ∷ []) (c ∷ []) t

tight_length_lem :
    (k : ℕ) (bs : List ℕ) (t : Tunnel)
    → k < 2 ^ 22
    → tight_length (server_sends [] (compact k ++ bs) t)
      ≡ ok k (server_sends [] bs (client_gets (compact k) t))
tight_length_lem k bs t fits =
    let a : ℕ = k % 128 + 128 in
    elim (Bool-cases (ltb k 128)) [
      | inl one ↦ rw one (
          first_byte k bs t
          ∙ first_is_last k (server_sends [] bs (client_gets (k ∷ []) t)) (ground arith)
          ∙ ap (λ (n : ℕ). ok n (server_sends [] bs (client_gets (k ∷ []) t))) (ground arith))
      | inr more ↦ elim (Bool-cases (ltb k 16384)) [
        | inl two ↦
            rw (more, two)
              (first_byte a (k / 128 ∷ bs) t
                ∙ second_byte a (k / 128) bs (client_gets (a ∷ []) t) (ground arith)
                ∙ second_is_last (a % 128) (k / 128) _ (ground arith)
                ∙ ap
                    (λ (n : ℕ).
                      ok n
                        (server_sends [] bs (client_gets (k / 128 ∷ []) (client_gets (a ∷ []) t))))
                    (ground arith)
                ∙ ap (λ (s : Tunnel). ok k (server_sends [] bs s)) (two_bytes a (k / 128) t))
        | inr three ↦
            let b : ℕ = k / 128 % 128 + 128 in
            rw (more, three)
              (first_byte a (b ∷ k / 16384 ∷ bs) t
                ∙ second_byte a b (k / 16384 ∷ bs) (client_gets (a ∷ []) t) (ground arith)
                ∙ last_byte (a % 128) b (k / 16384) bs
                    (client_gets (b ∷ []) (client_gets (a ∷ []) t)) (ground arith)
                ∙ ap
                    (λ (n : ℕ). ok n (
                      server_sends [] bs (
                        client_gets (k / 16384 ∷ [])
                          (client_gets (b ∷ []) (client_gets (a ∷ []) t)))))
                    (omega arith)
                ∙ ap (λ (s : Tunnel). ok k (server_sends [] bs s)) (three_bytes a b (k / 16384) t))
      ]
    ]

pub variable_length :
    (k : ℕ) (bs rest : List ℕ) (t : Tunnel)
    → k < 2 ^ 22
    → length bs ≡ k
    → forward_tight_variable_length_data (server_sends [] ((compact k ++ bs) ++ rest) t)
      ≡ ok tt (server_sends [] rest (client_gets (compact k ++ bs) t))
unfolding forward_tight_variable_length_data
variable_length k bs rest t fits h =
    ap (λ (xs : List ℕ). forward_tight_variable_length_data (server_sends [] xs t))
      (append_assoc (compact k) bs rest)
    ∙ bind_ok tight_length (λ n. to_client (forward_directly n))
        (server_sends [] (compact k ++ (bs ++ rest)) t) (tight_length_lem k (bs ++ rest) t fits)
    ∙ relay_body k bs rest (client_gets (compact k) t) h
    ∙ ap (λ (s : Tunnel). ok tt (server_sends [] rest s)) (client_gets-append (compact k) bs t)
