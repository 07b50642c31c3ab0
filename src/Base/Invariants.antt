-- ===== src/Base/Invariants.antt =====
-- Conditions before and after an action, with a rule for each way to build one.
use vncmanager.Base.Effects.{
  Result, Action, ok, err, Error, pure, throw, gets, modify, check, when, ◌>>=◌,
}
use vncmanager.Base.Outcomes.{Post}
use vncmanager.Base.Tests.{if◌then◌else◌}
use mathlib.Core.Bool.{Bool, true, false}
use mathlib.Core.Path.{◌≡◌, refl}

-- From a state with `P`, `m` ends in one with `Q`, or throws with `E`.
pub record Leads {S A : Type 0} (P Q : S → Type 0) (E : Error → S → Type 0) (m : Action S A)
    : Type 0 where
  pub at : (s : S) → P s → Post (λ _ t. Q t) E (m s)

abbrev pub Keeps : {S A : Type 0} (I : S → Type 0) (E : Error → S → Type 0) → Action S A → Type 0
Keeps I E m = Leads I I E m

module _ {S : Type 0} {P Q : S → Type 0} {E : Error → S → Type 0} where
  pub Leads-throw :
      {A : Type 0} (e : Error) → ((s : S) → P s → E e s) → Leads P Q E (throw {A = A} e)
  Leads-throw e k = record { at = k }

  pub Leads-modify : (f : S → S) → ((s : S) → P s → Q (f s)) → Leads P Q E (modify f)
  Leads-modify f k = record { at = k }

  pub Leads-if :
      {A : Type 0} (b : Bool) (m n : Action S A)
      → Leads P Q E m
      → Leads P Q E n
      → Leads P Q E (if b then m else n)
  Leads-if true m n km kn = km
  Leads-if false m n km kn = kn

  pub Leads-bind :
      {R : S → Type 0} {A B : Type 0} (m : Action S A) (f : A → Action S B)
      → Leads P Q E m
      → ((a : A) → Leads Q R E (f a))
      → Leads P R E (m >>= f)
  Leads-bind {R} {A} {B} m f km kf = record { at = λ s h. go (m s) (km.at s h) }
    where
      go :
          (r : Result S A)
          → Post (λ _ t. Q t) E r
          → Post (λ _ t. R t) E (elim r [ ok a t ↦ f a t | err e t ↦ err e t ])
      go (ok a t) h = (kf a).at t h
      go (err e t) h = h

module _ {S : Type 0} {I : S → Type 0} {E : Error → S → Type 0} where
  pub Keeps-pure : {A : Type 0} (a : A) → Keeps I E (pure a)
  Keeps-pure a = record { at = λ s h. h }

  pub Keeps-gets : {A : Type 0} (f : S → A) → Keeps I E (gets f)
  Keeps-gets f = record { at = λ s h. h }

  pub Keeps-check : (b : Bool) (e : Error) → ((s : S) → I s → E e s) → Keeps I E (check b e)
  Keeps-check true e k = record { at = λ s h. h }
  Keeps-check false e k = record { at = k }

  pub Keeps-when : (b : Bool) (m : Action S (Unit {0})) → Keeps I E m → Keeps I E (when b m)
  Keeps-when true m k = k
  Keeps-when false m k = record { at = λ s h. h }

-- From a state with `P`, `m` returns a value and leaves a state that `Q` relates, or throws.
pub record Yields {S A : Type 0} (P : S → Type 0) (Q : A → S → Type 0) (m : Action S A)
    : Type 0 where
  pub at : (s : S) → P s → Post Q (λ _ _. Unit) (m s)

-- Any exception will do.
abbrev pub Grants : {S A : Type 0} (P Q : S → Type 0) → Action S A → Type 0
Grants P Q m = Leads P Q (λ _ _. Unit) m

module _ {S : Type 0} {P : S → Type 0} {A : Type 0} {Q : A → S → Type 0} where
  pub Yields-pure : (a : A) → ((s : S) → P s → Q a s) → Yields P Q (pure a)
  Yields-pure a k = record { at = k }

  pub Yields-if :
      (b : Bool) (m n : Action S A)
      → (b ≡ true → Yields P Q m)
      → (b ≡ false → Yields P Q n)
      → Yields P Q (if b then m else n)
  Yields-if true m n km kn = km refl
  Yields-if false m n km kn = kn refl

  pub Yields-bind :
      {R : S → Type 0} {B : Type 0} (m : Action S B) (f : B → Action S A)
      → Grants P R m
      → ((b : B) → Yields R Q (f b))
      → Yields P Q (m >>= f)
  Yields-bind {R} {B} m f km kf = record { at = λ s h. go (m s) (km.at s h) }
    where
      go :
          (r : Result S B)
          → Post (λ _ t. R t) (λ _ _. Unit) r
          → Post Q (λ _ _. Unit) (elim r [ ok a t ↦ f a t | err e t ↦ err e t ])
      go (ok a t) h = (kf a).at t h
      go (err e t) h = tt
