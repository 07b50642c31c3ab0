-- ===== src/ReadSelector/Order.antt =====
-- Where a handler stands among the others, and what one that throws stops.
use vncmanager.Base.{
  ℕ, ◌≡◌, refl, Bool, true, false, [], ◌∷◌, ltb, Action, ok, err, Error, Bool-cases, inl, inr,
}
use vncmanager.ReadSelector.{Handlers, insert_fd, dispatch}

module _ {S : Type 0} (ready : ℕ → Bool) (cancelled : S → Bool) where
  -- A descriptor that is not ready makes no difference.
  pub dispatch-idle :
      (fd : ℕ) (h : Action S (Unit {0})) (hs : Handlers S) (s : S)
      → ready fd ≡ false
      → dispatch ready cancelled (insert_fd fd h hs) s ≡ dispatch ready cancelled hs s
  unfolding dispatch
  dispatch-idle fd h [] s r = rw (r, dispatch) refl
  dispatch-idle fd h ((k, g) ∷ rest) s r = elim (Bool-cases (ltb fd k)) [
    | inl below ↦ rw below (rw (r, dispatch) refl)
    | inr above ↦ rw above (λ i. elim (ready k) [
      | true ↦ elim (g s) [
        | ok u s' ↦ elim (cancelled s') [ true ↦ ok tt s' | false ↦ dispatch-idle fd h rest s' r i ]
        | err e s' ↦ err e s'
      ]
      | false ↦ dispatch-idle fd h rest s r i
    ])
  ]

  -- The one handler that is ready throws.
  pub dispatch_throws :
      (fd : ℕ) (h : Action S (Unit {0})) (rest : Handlers S) (s u : S) (x : Error)
      → ready fd ≡ true
      → h s ≡ err x u
      → dispatch ready cancelled ((fd, h) ∷ rest) s ≡ err x u
  unfolding dispatch
  dispatch_throws fd h rest s u x r e = rw (r, e, dispatch) refl

  -- So it does behind one that is not ready.
  pub second_throws :
      (fd k : ℕ) (h g : Action S (Unit {0})) (s u : S) (x : Error)
      → ready fd ≡ true
      → ready k ≡ false
      → h s ≡ err x u
      → dispatch ready cancelled (insert_fd fd h ((k, g) ∷ [])) s ≡ err x u
  unfolding dispatch
  second_throws fd k h g s u x r q e = elim (Bool-cases (ltb fd k)) [
    | inl below ↦ rw below (dispatch_throws fd h ((k, g) ∷ []) s u x r e)
    | inr above ↦ rw above (rw (q, dispatch) (dispatch_throws fd h [] s u x r e))
  ]
