-- ===== src/Server/Run/Laws.antt =====
-- When the main loop ends.
use vncmanager.Base.{
  ℕ, ◌≡◌, ◌≢◌, refl, ap, ◌∙◌, Bool, true, false, none, some, List, [], ◌∷◌, ◌++◌, if◌then◌else◌,
  Action, ok, err, errno, out_of_fuel, All, Bool-cases, Option-cases, inl, inr,
}
use mathlib.Core.Path.{subst}
use vncmanager.ReadSelector
use vncmanager.ReadSelector.{Handlers, has_fd, insert_fd, dispatch}
use vncmanager.Server.Run.{
  Round, Main, accept, accept_controller, take_signal, add_listeners, selector, select_round, loop,
  run,
}
use vncmanager.Server.Run.Table.{
  ends, IsCalm, IsTable, empty, client, controller, insert-IsTable, insert_signals, main,
  dispatch-Sets,
}

add_fd-eq-some :
    (fd : ℕ) (h : Action Main (Unit {0})) (hs hs' : Handlers Main)
    → ReadSelector.add_fd fd h hs ≡ some hs'
    → insert_fd fd h hs ≡ hs'
unfolding ReadSelector.add_fd
add_fd-eq-some fd h hs hs' e = elim (Bool-cases (has_fd fd hs)) [
  | inl there ↦ cc (rw there at e)
  | inr new ↦ cc (rw new at e)
]

listeners-IsTable :
    (sigfd : ℕ) (fds : List ℕ) (hs hs' : Handlers Main)
    → IsTable sigfd false hs
    → add_listeners fds hs ≡ some hs'
    → IsTable sigfd false hs'
listeners-IsTable sigfd [] hs hs' v e = subst (IsTable sigfd false) (cc e) v
listeners-IsTable sigfd (fd ∷ fds) hs hs' v e =
    elim (Option-cases (ReadSelector.add_fd fd (accept fd) hs)) [
      | inl twice ↦ cc (rw (twice, add_listeners) at e)
      | inr (hs1, added) ↦
          listeners-IsTable sigfd fds hs1 hs'
            (subst (IsTable sigfd false) (add_fd-eq-some fd (accept fd) hs hs1 added)
              (insert-IsTable sigfd fd (accept fd) (λ b rest w. client b fd rest w) false hs v))
            (rw (added, add_listeners) at e)
    ]

selector-IsTable :
    (listenfds : List ℕ) (sigfd controlfd : ℕ) (hs : Handlers Main)
    → selector listenfds sigfd controlfd ≡ some hs
    → IsTable sigfd true hs
unfolding selector
selector-IsTable listenfds sigfd controlfd hs e = elim (Option-cases (add_listeners listenfds [])) [
  | inl twice ↦ cc (rw twice at e)
  | inr (l, listed) ↦ elim (Option-cases (ReadSelector.add_fd sigfd take_signal l)) [
    | inl twice ↦ cc (rw (listed, twice) at e)
    | inr (m, added) ↦
        subst (IsTable sigfd true)
          (add_fd-eq-some controlfd (accept_controller controlfd) m hs (rw (listed, added) at e))
          (insert-IsTable sigfd controlfd (accept_controller controlfd)
            (λ b rest w. controller b controlfd rest w) true m
            (subst (IsTable sigfd true) (add_fd-eq-some sigfd take_signal l m added)
              (insert_signals sigfd l (listeners-IsTable sigfd listenfds [] l empty listed))))
  ]
]

-- No signal that ends the loop is taken.
abbrev pub IsQuiet : ℕ → Round → Type 0
IsQuiet sigfd r = IsCalm r × ((r.ready sigfd ≡ true) → (ends r.signal ≡ false))

round_lem :
    (sigfd : ℕ) (hs : Handlers Main) (r : Round) (s : Main)
    → IsTable sigfd true hs
    → IsCalm r
    → (t : Main) × (select_round hs r s ≡ ok tt t)
      × (t.server.run ≡ (
          if r.ready sigfd then (if ends r.signal then false else s.server.run) else s.server.run))
unfolding select_round
round_lem sigfd hs r s v calm =
    let (w, ts, cs, e, p) = dispatch-Sets r calm sigfd true hs v s.server s.tunnels s.controllers in
    (
      main r calm w ts cs,
      ap
            (λ b.
              if b
              then err errno (record s { now = r })
              else dispatch r.ready (λ _. false) hs (record s { now = r }))
            calm.selected
          ∙ e,
      p,
    )

stays :
    (a b c : Bool)
    → (a ≡ true → b ≡ false)
    → c ≡ true
    → (if a then (if b then false else c) else c) ≡ true
stays true true c q h = cc (q refl)
stays true false c q h = h
stays false b c q h = h

stops : (a b c : Bool) → a ≡ true → b ≡ true → (if a then (if b then false else c) else c) ≡ false
stops a b c p q = rw (p, q) refl

module _ (sigfd : ℕ) (hs : Handlers Main) (v : IsTable sigfd true hs) where
  loop_step :
      (r : Round) (rest : List Round) (s t : Main)
      → s.server.run ≡ true
      → select_round hs r s ≡ ok tt t
      → loop hs (r ∷ rest) s ≡ loop hs rest t
  unfolding loop
  loop_step r rest s t running e =
      ap
        (λ b.
          if b
          then elim (select_round hs r s) [ ok u t ↦ loop hs rest t | err x t ↦ err x t ]
          else ok (r ∷ rest) s)
        running
      ∙ ap (λ y. elim y [ ok u t ↦ loop hs rest t | err x t ↦ err x t ]) e

  stopped : (rest : List Round) (s : Main) → s.server.run ≡ false → loop hs rest s ≡ ok rest s
  unfolding loop
  stopped [] s e = ap (λ b. if b then err out_of_fuel s else ok [] s) e
  stopped (r ∷ rest) s e =
      ap
        (λ b.
          if b
          then elim (select_round hs r s) [ ok u t ↦ loop hs rest t | err x t ↦ err x t ]
          else ok (r ∷ rest) s)
        e

  loop_lem :
      (quiet : List Round) (r : Round) (rest : List Round) (s : Main)
      → All (IsQuiet sigfd) quiet
      → IsCalm r
      → r.ready sigfd ≡ true
      → ends r.signal ≡ true
      → s.server.run ≡ true
      → (t : Main) × (loop hs (quiet ++ (r ∷ rest)) s ≡ ok rest t) × (t.server.run ≡ false)
  loop_lem [] r rest s qs calm is_ready end_signal running =
      let (t, e, p) = round_lem sigfd hs r s v calm in
      let down = p ∙ stops (r.ready sigfd) (ends r.signal) s.server.run is_ready end_signal in
      (t, loop_step r rest s t running e ∙ stopped rest t down, down)
  loop_lem (q ∷ quiet) r rest s qs calm is_ready end_signal running =
      let (t, e, p) = round_lem sigfd hs q s v qs.0.0 in
      let up = p ∙ stays (q.ready sigfd) (ends q.signal) s.server.run qs.0.1 running in
      let (t', e', p') = loop_lem quiet r rest t qs.1 calm is_ready end_signal up in
      (t', loop_step q (quiet ++ (r ∷ rest)) s t running e ∙ e', p')

-- With descriptors that `addFD` takes, and as long as no system call fails, the server serves through
-- the rounds that take no SIGINT and no SIGTERM, and `run` returns after the first that takes one.
pub run_lem :
    (listenfds : List ℕ) (sigfd controlfd : ℕ) (quiet : List Round) (r : Round) (rest : List Round)
    (s : Main)
    → selector listenfds sigfd controlfd ≢ none
    → All (IsQuiet sigfd) quiet
    → IsCalm r
    → r.ready sigfd ≡ true
    → ends r.signal ≡ true
    → (t : Main) × (run listenfds sigfd controlfd (quiet ++ (r ∷ rest)) s ≡ ok rest t)
      × (t.server.run ≡ false)
unfolding run
run_lem listenfds sigfd controlfd quiet r rest s added qs calm is_ready end_signal =
    elim (Option-cases (selector listenfds sigfd controlfd)) [
      | inl twice ↦ absurd (added twice)
      | inr (hs, e) ↦
          let (t, l, p) =
            loop_lem sigfd hs (selector-IsTable listenfds sigfd controlfd hs e) quiet r rest
              (record s { server = record (s.server) { run = true } }) qs calm is_ready end_signal
              refl in
          (t, rw (e, run) l, p)
    ]
