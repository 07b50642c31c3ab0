-- ===== src/Base/Outcomes.antt =====
-- What holds when an action ends: of its result and state, or of its exception and state.
use vncmanager.Base.Effects.{Result, Action, ok, err, Error, ◌>>=◌}
use mathlib.Core.Path.{◌≡◌, ap}

module _ {S : Type 0} where
  abbrev pub Post : {A : Type 0} → (A → S → Type 0) → (Error → S → Type 0) → Result S A → Type 0
  Post Q E (ok a s) = Q a s
  Post Q E (err e s) = E e s

  -- The rule of a block: its first step, and what follows from where that step leaves off.
  pub Post-bind :
      {A B : Type 0} (P : A → S → Type 0) (Q : B → S → Type 0) (E : Error → S → Type 0)
      (m : Action S A) (f : A → Action S B) (s : S)
      → Post P E (m s)
      → ((a : A) (t : S) → P a t → Post Q E (f a t))
      → Post Q E ((m >>= f) s)
  Post-bind {A} {B} P Q E m f s first rest = go (m s) first
    where
      go : (r : Result S A) → Post P E r → Post Q E (elim r [ ok a t ↦ f a t | err e t ↦ err e t ])
      go (ok a t) h = rest a t h
      go (err e t) h = h

  -- A block whose first step is known.
  pub bind_ok :
      {A B : Type 0} (m : Action S A) (f : A → Action S B) (s : S) {t : S} {a : A}
      → m s ≡ ok a t
      → (m >>= f) s ≡ f a t
  bind_ok m f s e = ap (λ r. elim r [ ok a t ↦ f a t | err x t ↦ err x t ]) e

  pub bind_err :
      {A B : Type 0} (m : Action S A) (f : A → Action S B) (s : S) {t : S} {x : Error}
      → m s ≡ err x t
      → (m >>= f) s ≡ err x t
  bind_err m f s e = ap (λ r. elim r [ ok a t ↦ f a t | err x t ↦ err x t ]) e
