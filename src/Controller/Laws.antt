-- ===== src/Controller/Laws.antt =====
-- When a controller is accepted.
use vncmanager.Base.{
  ℕ, zero, suc, ◌+◌, ◌<◌, ◌≤◌, ◌≡◌, ◌⊎◌, refl, arith, true, false, some, List, ◌==◌, ==_iff,
  Bool-cases, inl, inr,
}
use vncmanager.Sessions.Manager.{XvncManager}
use vncmanager.Controller.{approval_tries, key_approved, approval_loop}

module _ (key : List ℕ) (i : ℕ) (world : ℕ → XvncManager) where
  -- The key was approved at a try from `first` on, in time.
  pub record InTime (first : ℕ) : Type 0 where
    pub try : ℕ
    pub from : first ≤ try
    pub limit : try ≤ approval_tries
    pub approved : key_approved key i (world try) ≡ true

  -- It was approved at none of them.
  abbrev pub Never : ℕ → Type 0
  Never first =
      (try : ℕ) → first ≤ try → try ≤ approval_tries → key_approved key i (world try) ≡ false

  loop_lem :
      (fuel first : ℕ)
      → first ≤ approval_tries
      → approval_tries < first + fuel
      → ((approval_loop fuel first key i world ≡ some true) × InTime first)
        ⊎ ((approval_loop fuel first key i world ≡ some false) × Never first)
  unfolding approval_loop
  loop_lem zero first low enough = absurd (omega arith)
  loop_lem (suc fuel) first low enough = elim (Bool-cases (key_approved key i (world first))) [
    | inl good ↦
        inl (rw good refl, record { try = first; from = omega arith; limit = low; approved = good })
    | inr bad ↦ elim (Bool-cases (first == approval_tries)) [
      | inl at_end ↦ inr (
        rw (bad, at_end) refl,
        λ k from limit. let same : first ≡ k = ground arith in rw (← same) bad,
      )
      | inr before ↦ elim (loop_lem fuel (first + 1) (ground arith) (omega arith)) [
        | inl (e, t) ↦ inl (
          rw (bad, before) e,
          record {
            try = t.try;
            from = omega (arith, t.from);
            limit = t.limit;
            approved = t.approved;
          },
        )
        | inr (e, never) ↦ inr (
          rw (bad, before) e,
          λ k from limit. elim (Bool-cases (k == first)) [
            | inl same ↦ rw ((==_iff k first).0 same) bad
            | inr other ↦ never k (ground arith) limit
          ],
        )
      ]
    ]
  ]

  -- The wait for a controller's key ends. The key is accepted exactly when one of the tries, the
  -- hundredth repetition included, saw it among the session's approved keys.
  pub approval_loop_lem :
      ((approval_loop (suc approval_tries) 0 key i world ≡ some true) × InTime 0)
      ⊎ ((approval_loop (suc approval_tries) 0 key i world ≡ some false) × Never 0)
  approval_loop_lem = loop_lem (suc approval_tries) 0 (omega arith) (omega arith)
