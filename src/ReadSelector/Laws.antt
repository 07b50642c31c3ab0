-- ===== src/ReadSelector/Laws.antt =====
-- The order in which handlers run, and what a cancellation stops.
use vncmanager.Base.{
  ℕ, suc, ◌≤◌, ◌≡◌, sym, ap, ◌∙◌, arith, Bool, true, false, none, some, [], ◌∷◌, leb, ◌&&◌,
  if◌then◌else◌, ◌⊎◌, Action, ok, err, Error, Bool-cases, Result-cases, inl, inr,
}
use mathlib.Core.Path.{subst}
use vncmanager.ReadSelector.{Handlers, dispatch}
use vncmanager.ReadSelector.Table.{
  handler, Ascends, table, Ascends-mono, handler_below, handler_above, table-IsTable,
}

module _ {S : Type 0} (ready : ℕ → Bool) (cancelled : S → Bool) where
  ok-injective : {a b : Unit {0}} {s t : S} → ok a s ≡ ok b t → s ≡ t
  ok-injective e = cc

  skip :
      (fd : ℕ) (h : Action S (Unit {0})) (rest : Handlers S) (s : S)
      → ready fd ≡ false
      → dispatch ready cancelled ((fd, h) ∷ rest) s ≡ dispatch ready cancelled rest s
  unfolding dispatch
  skip fd h rest s r = rw (r, dispatch)

  fail :
      (fd : ℕ) (h : Action S (Unit {0})) (rest : Handlers S) (s u : S) (x : Error)
      → ready fd ≡ true
      → h s ≡ err x u
      → dispatch ready cancelled ((fd, h) ∷ rest) s ≡ err x u
  unfolding dispatch
  fail fd h rest s u x r q = rw (r, q, dispatch)

  module _ (fd : ℕ) (h : Action S (Unit {0})) (rest : Handlers S) (s u : S) (r : ready fd ≡ true)
      (q : h s ≡ ok tt u) where
    halt : cancelled u ≡ true → dispatch ready cancelled ((fd, h) ∷ rest) s ≡ ok tt u
    unfolding dispatch
    halt c = rw (r, q, c, dispatch)

    step :
        cancelled u ≡ false
        → dispatch ready cancelled ((fd, h) ∷ rest) s ≡ dispatch ready cancelled rest u
    unfolding dispatch
    step c = rw (r, q, c, dispatch)

  -- Handlers that ran one after another, each on the state that the one before left; none but the
  -- last cancelled.
  pub data Chain : S → Handlers S → S → Type 0 where
    ended : (s : S) → Chain s [] s
    ran :
        (fd : ℕ) (h : Action S (Unit {0})) (rest : Handlers S) {s u t : S}
        → h s ≡ ok tt u
        → cancelled u ≡ false
        → Chain u rest t
        → Chain s ((fd, h) ∷ rest) t
    stopped :
        (fd : ℕ) (h : Action S (Unit {0})) {s t : S}
        → h s ≡ ok tt t
        → cancelled t ≡ true
        → Chain s ((fd, h) ∷ []) t

  -- What ran is what was ready among `fds`.
  abbrev pub IsAll : Handlers S → Handlers S → Type 0
  IsAll done fds = (j : ℕ) → handler j done ≡ (if ready j then handler j fds else none)

  -- What ran is what was ready up to a descriptor whose handler ran and cancelled.
  abbrev pub IsUpTo : ℕ → Handlers S → Handlers S → Type 0
  IsUpTo n done fds =
      ((h : Action S (Unit {0})) × (handler n done ≡ some h))
      × ((j : ℕ) → handler j done ≡ (if ready j && leb j n then handler j fds else none))

  abbrev pub Dispatched : ℕ → Handlers S → S → S → Type 0
  Dispatched low fds s t =
      (done : Handlers S) × Chain s done t
      × Ascends low done
      × (IsAll done fds ⊎ ((n : ℕ) × IsUpTo n done fds × (cancelled t ≡ true)))

  module _ (fd low : ℕ) (h : Action S (Unit {0})) (rest : Handlers S) (s t : S) (l : low ≤ fd) where
    idles : ready fd ≡ false → Dispatched (suc fd) rest s t → Dispatched low ((fd, h) ∷ rest) s t
    idles r (done, c, a, inl all) =
        (done, c, Ascends-mono low (suc fd) done (omega arith) a, inl (λ j. ground (arith, all j)))
    idles r (done, c, a, inr (n, (there, upto), e)) = (
      done,
      c,
      Ascends-mono low (suc fd) done (omega arith) a,
      inr (n, (there, λ j. ground (arith, upto j)), e),
    )

    stops :
        Ascends (suc fd) rest
        → ready fd ≡ true
        → h s ≡ ok tt t
        → cancelled t ≡ true
        → Dispatched low ((fd, h) ∷ rest) s t
    stops a r q c = (
      (fd, h) ∷ [],
      stopped fd h q c,
      (l, tt),
      inr (fd, ((h, ground arith), λ j. ground (arith, handler_below (suc fd) j rest a)), c),
    )

    runs :
        (u : S)
        → ready fd ≡ true
        → h s ≡ ok tt u
        → cancelled u ≡ false
        → Dispatched (suc fd) rest u t
        → Dispatched low ((fd, h) ∷ rest) s t
    runs u r q c (done, chain, a, inl all) =
        ((fd, h) ∷ done, ran fd h done q c chain, (l, a), inl (λ j. ground (arith, all j)))
    runs u r q c (done, chain, a, inr (n, ((g, there), upto), e)) =
        let above : suc fd ≤ n = handler_above (suc fd) n done g a there in
        (
          (fd, h) ∷ done,
          ran fd h done q c chain,
          (l, a),
          inr (n, ((g, ground arith), λ j. ground (arith, upto j)), e),
        )

  sorted-Dispatched :
      (low : ℕ) (fds : Handlers S) (s t : S)
      → Ascends low fds
      → dispatch ready cancelled fds s ≡ ok tt t
      → Dispatched low fds s t
  unfolding dispatch
  sorted-Dispatched low [] s t a e =
      subst (Dispatched low [] s) (ok-injective e) ([], ended s, tt, inl (λ j. ground arith))
  sorted-Dispatched low ((fd, h) ∷ rest) s t (l, a) e = elim (Bool-cases (ready fd)) [
    | inr r ↦
        idles fd low h rest s t l r
          (sorted-Dispatched (suc fd) rest s t a (sym (skip fd h rest s r) ∙ e))
    | inl r ↦ elim (Result-cases (h s)) [
      | inr (x, u, q) ↦ cc (sym (fail fd h rest s u x r q) ∙ e)
      | inl (z, u, q) ↦ elim (Bool-cases (cancelled u)) [
        | inl c ↦
            subst (Dispatched low ((fd, h) ∷ rest) s)
              (ok-injective (sym (halt fd h rest s u r q c) ∙ e))
              (stops fd low h rest s u l a r q c)
        | inr c ↦
            runs fd low h rest s t l u r q c
              (sorted-Dispatched (suc fd) rest u t a (sym (step fd h rest s u r q c) ∙ e))
      ]
    ]
  ]

  -- When a `select` returns on a table that calls of `addFD` filled, handlers ran one after another
  -- in strictly ascending order of their descriptors, each on the state that the one before left:
  -- those that were added for the ready descriptors and no other, all of them, or those up to one
  -- that cancelled, and none after it.
  pub dispatch-Dispatched :
      (adds fds : Handlers S) (s t : S)
      → table adds ≡ some fds
      → dispatch ready cancelled fds s ≡ ok tt t
      → Dispatched 0 adds s t
  dispatch-Dispatched adds fds s t filled e =
      let (a, same) = table-IsTable adds fds filled in
      let (done, c, d, which) = sorted-Dispatched 0 fds s t a e in
      (
        done,
        c,
        d,
        elim which [
          | inl all ↦ inl (λ j. all j ∙ ap (λ o. if ready j then o else none) (same j))
          | inr (n, (there, upto), x) ↦ inr (
            n,
            (there, λ j. upto j ∙ ap (λ o. if ready j && leb j n then o else none) (same j)),
            x,
          )
        ],
      )
