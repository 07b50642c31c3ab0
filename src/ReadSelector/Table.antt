-- ===== src/ReadSelector/Table.antt =====
-- The table of handlers that `addFD` builds.
use vncmanager.Base.{
  ℕ, suc, ◌<◌, ◌≤◌, ◌≡◌, ◌∙◌, refl, ap, arith, false, Option, none, some, [], ◌∷◌, ◌==◌,
  if◌then◌else◌, Action, Option-cases, Bool-cases, inl, inr,
}
use mathlib.Core.Path.{subst}
use vncmanager.ReadSelector.{Handlers, has_fd, insert_fd, add_fd}

module _ {S : Type 0} where
  some-injective : {a b : Handlers S} → some a ≡ some b → a ≡ b
  some-injective e = cc

  abbrev pub handler : ℕ → Handlers S → Option (Action S (Unit {0}))
  handler j [] = none
  handler j ((k, h) ∷ rest) = if k == j then some h else handler j rest

  -- Descriptors that ascend strictly, from `low` on.
  abbrev pub Ascends : ℕ → Handlers S → Type 0
  Ascends low [] = Unit
  Ascends low ((k, h) ∷ rest) = (low ≤ k) × Ascends (suc k) rest

  -- The table after the calls of `addFD` of a list, the last of them at its head.
  unfoldable pub table : Handlers S → Option (Handlers S)
  unfolding add_fd
  table [] = some []
  table ((fd, h) ∷ adds) = elim (table adds) [ none ↦ none | some fds ↦ add_fd fd h fds ]

  pub Ascends-mono :
      (low high : ℕ) (fds : Handlers S) → low ≤ high → Ascends high fds → Ascends low fds
  Ascends-mono low high [] l a = tt
  Ascends-mono low high ((k, h) ∷ rest) l a = (omega arith, a.1)

  pub handler_below :
      (low j : ℕ) (fds : Handlers S) → Ascends low fds → j < low → handler j fds ≡ none
  handler_below low j [] a l = refl
  handler_below low j ((k, h) ∷ rest) a l = ground (arith, handler_below (suc k) j rest)

  pub handler_above :
      (low j : ℕ) (fds : Handlers S) (h : Action S (Unit {0}))
      → Ascends low fds
      → handler j fds ≡ some h
      → low ≤ j
  handler_above low j [] h a e = cc
  handler_above low j ((k, g) ∷ rest) h a e = ground (arith, handler_above (suc k) j rest h)

  insert-Ascends :
      (low fd : ℕ) (h : Action S (Unit {0})) (fds : Handlers S)
      → Ascends low fds
      → low ≤ fd
      → has_fd fd fds ≡ false
      → Ascends low (insert_fd fd h fds)
  insert-Ascends low fd h [] a l n = (l, tt)
  insert-Ascends low fd h ((k, g) ∷ rest) a l n = ground (arith, insert-Ascends (suc k) fd h rest)

  handler-insert :
      (j fd : ℕ) (h : Action S (Unit {0})) (fds : Handlers S)
      → has_fd fd fds ≡ false
      → handler j (insert_fd fd h fds) ≡ (if fd == j then some h else handler j fds)
  handler-insert j fd h [] n = refl
  handler-insert j fd h ((k, g) ∷ rest) n = ground (arith, handler-insert j fd h rest)

  abbrev pub IsTable : Handlers S → Handlers S → Type 0
  IsTable adds fds = Ascends 0 fds × ((j : ℕ) → handler j fds ≡ handler j adds)

  added-IsTable :
      (fd : ℕ) (h : Action S (Unit {0})) (adds fds fds' : Handlers S)
      → IsTable adds fds
      → add_fd fd h fds ≡ some fds'
      → IsTable ((fd, h) ∷ adds) fds'
  unfolding add_fd
  added-IsTable fd h adds fds fds' (a, same) e = elim (Bool-cases (has_fd fd fds)) [
    | inl there ↦ ground arith
    | inr new ↦
        let e' : insert_fd fd h fds ≡ fds' = ground arith in
        subst (IsTable ((fd, h) ∷ adds)) e' (
          insert-Ascends 0 fd h fds a (omega arith) new,
          λ j. handler-insert j fd h fds new ∙ ap (λ o. if fd == j then some h else o) (same j),
        )
  ]

  pub table-IsTable : (adds fds : Handlers S) → table adds ≡ some fds → IsTable adds fds
  unfolding table
  table-IsTable [] fds e = subst (IsTable []) (some-injective e) (tt, λ j. refl)
  table-IsTable ((fd, h) ∷ adds) fds e = elim (Option-cases (table adds)) [
    | inl none_added ↦ ground arith
    | inr (fds', e') ↦
        let added : add_fd fd h fds' ≡ some fds = ground arith in
        added-IsTable fd h adds fds' fds (table-IsTable adds fds' e') added
  ]
