-- ===== src/Base/Effects.antt =====
-- Stateful code that may throw: the state goes on after an exception, as C++ objects do.
use mathlib.Core.Path.{◌≡◌, refl}
use mathlib.Core.Bool.{Bool, true, false}
use mathlib.Core.Logic.{◌⊎◌, inl, inr}

-- What the code throws, and the ways in which it stops without throwing.
pub data Error : Type 0 where
  eof errno : Error
  unsupported_version invalid_security_type : Error
  unsupported_vencrypt_version invalid_vencrypt_subtype : Error
  unknown_client_message invalid_pixel_format : Error
  unknown_server_message colour_map_not_implemented : Error
  too_many_rectangles no_dummy_encoding unknown_encoding : Error
  push_back_overflow tls_failed greeter_died gnutls_failed : Error
  display_number_missing path_too_long no_address config_invalid spawn_failed : Error
  -- XvncConnection::ConnectionException
  connection_version connection_refused connection_no_security : Error
  connection_vencrypt_version connection_vencrypt_status connection_no_subtype : Error
  connection_not_none : Error
  -- an exception of the potential connection's methods: `faultyConnection()` tells which threw
  of_potential : Error → Error
  -- a failed assert, a null pointer that is read, and signed overflow
  assertion null_pointer use_after_free overflow out_of_fuel : Error
  -- `std::bad_function_call`
  bad_function_call : Error

pub data Result (S : Type 0) (A : Type 0) : Type 0 where
  ok : A → S → Result S A
  err : Error → S → Result S A

abbrev pub Action : Type 0 → Type 0 → Type 0
Action S A = S → Result S A

module _ {S : Type 0} where
  abbrev pub pure : {A : Type 0} → A → Action S A
  pure a s = ok a s

  abbrev pub throw : {A : Type 0} → Error → Action S A
  throw e s = err e s

  infixl 5 ◌>>=◌ ◌>>◌
  abbrev pub ◌>>=◌ : {A B : Type 0} → Action S A → (A → Action S B) → Action S B
  ◌>>=◌ m f s = elim (m s) [ ok a s' ↦ f a s' | err e s' ↦ err e s' ]

  abbrev pub ◌>>◌ : {B : Type 0} → Action S (Unit {0}) → Action S B → Action S B
  m >> k = m >>= λ _. k

  abbrev pub get : Action S S
  get s = ok s s

  abbrev pub gets : {A : Type 0} → (S → A) → Action S A
  gets f s = ok (f s) s

  abbrev pub modify : (S → S) → Action S (Unit {0})
  modify f s = ok tt (f s)

  abbrev pub when : Bool → Action S (Unit {0}) → Action S (Unit {0})
  when true m = m
  when false m = pure tt

  -- `assert(test)`
  abbrev pub check : Bool → Error → Action S (Unit {0})
  check true e = pure tt
  check false e = throw e

  -- The state that an action leaves, whichever way it ends.
  abbrev pub after : {A : Type 0} → Result S A → S
  after (ok a s) = s
  after (err e s) = s

  pub Result-cases :
      {A : Type 0} (r : Result S A)
      → ((a : A) × (s : S) × (r ≡ ok a s)) ⊎ ((e : Error) × (s : S) × (r ≡ err e s))
  Result-cases (ok a s) = inl (a, s, refl)
  Result-cases (err e s) = inr (e, s, refl)

  -- A block that ends well has a first step that did.
  pub bind-eq-ok :
      {A B : Type 0} (r : Result S A) (f : A → Action S B) {b : B} {t : S}
      → (elim r [ ok a s' ↦ f a s' | err e s' ↦ err e s' ]) ≡ ok b t
      → (a : A) × (s : S) × (r ≡ ok a s) × (f a s ≡ ok b t)
  bind-eq-ok (ok a s) f h = (a, s, refl, h)
  bind-eq-ok (err e s) f h = cc

  -- A block that throws has a first step that did, or goes on from one that ended well.
  pub bind-eq-err :
      {A B : Type 0} (r : Result S A) (f : A → Action S B) {x : Error} {t : S}
      → (elim r [ ok a s' ↦ f a s' | err e s' ↦ err e s' ]) ≡ err x t
      → ((s : S) × (r ≡ err x s)) ⊎ ((a : A) × (s : S) × (r ≡ ok a s) × (f a s ≡ err x t))
  bind-eq-err (ok a s) f h = inr (a, s, refl, h)
  bind-eq-err (err e s) f h = inl (s, cc h)
