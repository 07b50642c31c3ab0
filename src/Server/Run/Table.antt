-- ===== src/Server/Run/Table.antt =====
-- What one select of the main loop does to the flag, over the table of the handlers.
use vncmanager.Base.{
  ℕ, ◌≡◌, ◌≢◌, refl, ap, ◌∙◌, Bool, true, false, none, List, [], ◌∷◌, ltb, if◌then◌else◌, Action,
  ok, Bool-cases, Option-cases, inl, inr,
}
use vncmanager.ReadSelector.{Handlers, insert_fd, dispatch}
use vncmanager.Server.{
  Server, Wait, child, none_ended, no_children, wait_failed, child_ended, Signal, interrupt,
  terminate, child_signal, pipe, handle_signal, reap,
}
use vncmanager.Server.Run.{Round, Main, accept, accept_controller, take_signal}

-- The signals that end the loop.
abbrev pub ends : Signal → Bool
ends interrupt = true
ends terminate = true
ends child_signal = false
ends pipe = false

abbrev pub no_failure : List Wait → Bool
no_failure [] = true
no_failure (child pid held ∷ ws) = no_failure ws
no_failure (none_ended ∷ ws) = true
no_failure (no_children ∷ ws) = true
no_failure (wait_failed ∷ ws) = false

-- A round in which no system call fails.
pub record IsCalm (r : Round) : Type 0 where
  pub selected : r.failed ≡ false
  pub accepted : (fd : ℕ) → r.ready fd ≡ true → r.accept4 fd ≢ none
  pub signalled : r.signal_failed ≡ false
  pub waited : no_failure r.waits ≡ true

reap_lem :
    (ws : List Wait) (s : Server)
    → no_failure ws ≡ true
    → (t : Server) × (reap ws s ≡ ok tt t) × (t.run ≡ s.run)
unfolding reap
reap_lem [] s h = (s, refl, refl)
reap_lem (child pid held ∷ ws) s h = reap_lem ws (child_ended pid held s) h
reap_lem (none_ended ∷ ws) s h = (s, refl, refl)
reap_lem (no_children ∷ ws) s h = (s, refl, refl)
reap_lem (wait_failed ∷ ws) s h = cc h

handle_signal_lem :
    (x : Signal) (ws : List Wait) (s : Server)
    → no_failure ws ≡ true
    → (t : Server) × (handle_signal false x ws s ≡ ok tt t)
      × (t.run ≡ (if ends x then false else s.run))
unfolding handle_signal
handle_signal_lem interrupt ws s h = (_, refl, refl)
handle_signal_lem terminate ws s h = (_, refl, refl)
handle_signal_lem child_signal ws s h = reap_lem ws s h
handle_signal_lem pipe ws s h = (s, refl, refl)

module _ (sigfd : ℕ) where
  -- A table of handlers, with a flag that says whether the signals' handler is in it.
  pub data IsTable : Bool → Handlers Main → Type 0 where
    empty : IsTable false []
    client :
        (b : Bool) (fd : ℕ) (rest : Handlers Main)
        → IsTable b rest
        → IsTable b ((fd, accept fd) ∷ rest)
    controller :
        (b : Bool) (fd : ℕ) (rest : Handlers Main)
        → IsTable b rest
        → IsTable b ((fd, accept_controller fd) ∷ rest)
    signals :
        (rest : Handlers Main) → IsTable false rest → IsTable true ((sigfd, take_signal) ∷ rest)

  module _ (fd : ℕ) (h : Action Main (Unit {0}))
      (put : (b : Bool) (rest : Handlers Main) → IsTable b rest → IsTable b ((fd, h) ∷ rest)) where
    insert_below :
        (b : Bool) (k : ℕ) (g : Action Main (Unit {0})) (rest : Handlers Main)
        → ((c : Bool) → IsTable c rest → IsTable c (insert_fd fd h rest))
        → IsTable b ((k, g) ∷ rest)
        → IsTable b ((k, g) ∷ insert_fd fd h rest)
    insert_below b k g rest ih (client _ _ _ w) = client b k _ (ih b w)
    insert_below b k g rest ih (controller _ _ _ w) = controller b k _ (ih b w)
    insert_below b k g rest ih (signals _ w) = signals _ (ih false w)

    -- A handler of clients or controllers may stand anywhere.
    pub insert-IsTable :
        (b : Bool) (hs : Handlers Main) → IsTable b hs → IsTable b (insert_fd fd h hs)
    insert-IsTable b [] v = put b [] v
    insert-IsTable b ((k, g) ∷ rest) v = elim (Bool-cases (ltb fd k)) [
      | inl before ↦ rw before (put b ((k, g) ∷ rest) v)
      | inr behind ↦ rw behind (insert_below b k g rest (λ c w. insert-IsTable c rest w) v)
    ]

  signals_below :
      (k : ℕ) (g : Action Main (Unit {0})) (rest : Handlers Main)
      → (IsTable false rest → IsTable true (insert_fd sigfd take_signal rest))
      → IsTable false ((k, g) ∷ rest)
      → IsTable true ((k, g) ∷ insert_fd sigfd take_signal rest)
  signals_below k g rest ih (client _ _ _ w) = client true k _ (ih w)
  signals_below k g rest ih (controller _ _ _ w) = controller true k _ (ih w)

  pub insert_signals :
      (hs : Handlers Main) → IsTable false hs → IsTable true (insert_fd sigfd take_signal hs)
  insert_signals [] v = signals [] v
  insert_signals ((k, g) ∷ rest) v = elim (Bool-cases (ltb sigfd k)) [
    | inl before ↦ rw before (signals ((k, g) ∷ rest) v)
    | inr behind ↦ rw behind (signals_below k g rest (insert_signals rest) v)
  ]

module _ (r : Round) (calm : IsCalm r) where
  -- A state in this round.
  abbrev pub main : Server → List ℕ → List ℕ → Main
  main v tunnels controllers = record {
    server = v;
    tunnels = tunnels;
    controllers = controllers;
    now = r;
  }

  -- An action that ends well in this round, and sets the flag so.
  abbrev pub Sets : (Bool → Bool) → Action Main (Unit {0}) → Type 0
  Sets f h =
      (v : Server) (tunnels controllers : List ℕ)
      → (w : Server) × (ts : List ℕ) × (cs : List ℕ) × (h (main v tunnels controllers)
          ≡ ok tt (main w ts cs))
        × (w.run ≡ f v.run)

  accept-Sets : (fd : ℕ) → r.ready fd ≡ true → Sets (λ b. b) (accept fd)
  unfolding accept
  accept-Sets fd h v ts cs = elim (Option-cases (r.accept4 fd)) [
    | inl nobody ↦ absurd (calm.accepted fd h nobody)
    | inr (c, found) ↦ (v, c ∷ ts, cs, rw (found, accept) refl, refl)
  ]

  accept_controller-Sets : (fd : ℕ) → r.ready fd ≡ true → Sets (λ b. b) (accept_controller fd)
  unfolding accept_controller
  accept_controller-Sets fd h v ts cs = elim (Option-cases (r.accept4 fd)) [
    | inl nobody ↦ absurd (calm.accepted fd h nobody)
    | inr (c, found) ↦ (v, ts, c ∷ cs, rw (found, accept_controller) refl, refl)
  ]

  abbrev pub stop : Bool → Bool
  stop b = if ends r.signal then false else b

  take_signal-Sets : Sets stop take_signal
  unfolding take_signal
  take_signal-Sets v ts cs =
      let (w, e, h) = handle_signal_lem r.signal r.waits v calm.waited in
      let answered = ap (λ b. handle_signal b r.signal r.waits v) calm.signalled ∙ e in
      (w, ts, cs, rw (answered, take_signal) refl, h)

  -- One select over the table.
  abbrev pub selected_stop : ℕ → Bool → Bool → Bool
  selected_stop sigfd true b = if r.ready sigfd then stop b else b
  selected_stop sigfd false b = b

  -- Behind a handler comes the rest of the table.
  entry-Sets :
      (f g : Bool → Bool) (fd : ℕ) (h : Action Main (Unit {0})) (rest : Handlers Main)
      → (r.ready fd ≡ true → Sets f h)
      → Sets g (dispatch r.ready (λ _. false) rest)
      → Sets
          (λ b. if r.ready fd then g (f b) else g b)
          (dispatch r.ready (λ _. false) ((fd, h) ∷ rest))
  unfolding dispatch
  entry-Sets f g fd h rest k l v ts cs = elim (Bool-cases (r.ready fd)) [
    | inr idle ↦
        let (w, ts', cs', e, q) = l v ts cs in (w, ts', cs', rw (idle, dispatch) e, rw idle q)
    | inl is_ready ↦
        let (w, ts', cs', e, q) = k is_ready v ts cs in
        let (w', ts'', cs'', e', q') = l w ts' cs' in
        (w', ts'', cs'', rw (is_ready, e, dispatch) e', rw is_ready (q' ∙ ap g q))
  ]

  same-Sets :
      (f g : Bool → Bool) (h : Action Main (Unit {0}))
      → ((b : Bool) → f b ≡ g b)
      → Sets f h
      → Sets g h
  same-Sets f g h e k v ts cs = let (w, ts', cs', q, p) = k v ts cs in (w, ts', cs', q, p ∙ e v.run)

  either : (c : Bool) (b : Bool) → (if c then b else b) ≡ b
  either true b = refl
  either false b = refl

  pub dispatch-Sets :
      (sigfd : ℕ) (b : Bool) (hs : Handlers Main)
      → IsTable sigfd b hs
      → Sets (selected_stop sigfd b) (dispatch r.ready (λ _. false) hs)
  unfolding dispatch
  dispatch-Sets sigfd false [] empty = λ v ts cs. (v, ts, cs, refl, refl)
  dispatch-Sets sigfd true [] v = elim v [ ]
  dispatch-Sets sigfd b ((fd, h) ∷ rest) (client _ _ _ w) =
      same-Sets _ (selected_stop sigfd b) (dispatch r.ready (λ _. false) ((fd, h) ∷ rest))
        (λ c. either (r.ready fd) (selected_stop sigfd b c))
        (entry-Sets (λ c. c) (selected_stop sigfd b) fd h rest (accept-Sets fd)
          (dispatch-Sets sigfd b rest w))
  dispatch-Sets sigfd b ((fd, h) ∷ rest) (controller _ _ _ w) =
      same-Sets _ (selected_stop sigfd b) (dispatch r.ready (λ _. false) ((fd, h) ∷ rest))
        (λ c. either (r.ready fd) (selected_stop sigfd b c))
        (entry-Sets (λ c. c) (selected_stop sigfd b) fd h rest (accept_controller-Sets fd)
          (dispatch-Sets sigfd b rest w))
  dispatch-Sets sigfd true ((fd, h) ∷ rest) (signals _ w) =
      entry-Sets stop (λ c. c) fd h rest (λ _. take_signal-Sets) (dispatch-Sets sigfd false rest w)
