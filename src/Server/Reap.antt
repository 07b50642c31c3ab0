-- ===== src/Server/Reap.antt =====
-- What the end of several children leaves of the sessions and of the greeters.
use vncmanager.Base.{
  ℕ, ◌≡◌, refl, arith, Bool, none, List, [], ◌∷◌, after, contains, if◌then◌else◌, Bool-cases, inl,
  inr,
}
use vncmanager.Sessions.Invariant.{IsConsistent}
use vncmanager.Greeter
use vncmanager.Greeter.Manager.Lifetime.{IsReachable, dies, found_after}
use vncmanager.Server.{Server, Wait, child, none_ended, no_children, wait_failed, child_ended, reap}
use vncmanager.Server.Ended.{HasOwnProcesses, Remaining, child_lem}

-- The children that `waitpid` reports, up to the answer that ends the loop.
abbrev pub ended_pids : List Wait → List ℕ
ended_pids (child pid held ∷ ws) = pid ∷ ended_pids ws
ended_pids ws = []

-- The greeters' entries with those of these processes taken out.
abbrev pub Unregistered : List ℕ → Server → Server → Type 0
Unregistered pids s s' =
    (k : ℕ)
    → Greeter.Manager.find_pid k s'.greeters.greeters
      ≡ (if contains pids k then none else Greeter.Manager.find_pid k s.greeters.greeters)

abbrev pub Reaped : List Wait → Server → Server → Type 0
Reaped ws s s' =
    IsConsistent s'.sessions
    × Remaining (ended_pids ws) s.sessions s'.sessions
    × Unregistered (ended_pids ws) s s'
    × (s'.run ≡ s.run)

unregister :
    (pid : ℕ) (held : Bool) (pids : List ℕ) (s s' : Server)
    → IsReachable s.greeters
    → Unregistered pids (child_ended pid held s) s'
    → Unregistered (pid ∷ pids) s s'
unregister pid held pids s s' r u k = elim (Bool-cases (contains pids k)) [
  | inl c ↦ ground (arith, u k, found_after k pid s.greeters r)
  | inr c ↦ ground (arith, u k, found_after k pid s.greeters r)
]

pub reap-Reaped :
    (ws : List Wait) (s : Server)
    → IsConsistent s.sessions
    → HasOwnProcesses s.sessions
    → IsReachable s.greeters
    → Reaped ws s (after (reap ws s))
unfolding reap
reap-Reaped [] s v o r = (v, λ j. ground arith, λ k. refl, refl)
reap-Reaped (none_ended ∷ ws) s v o r = (v, λ j. ground arith, λ k. refl, refl)
reap-Reaped (no_children ∷ ws) s v o r = (v, λ j. ground arith, λ k. refl, refl)
reap-Reaped (wait_failed ∷ ws) s v o r = (v, λ j. ground arith, λ k. refl, refl)
reap-Reaped (child pid held ∷ ws) s v o r =
    let ((v1, o1), further) = child_lem held pid s.sessions (v, o) in
    let (v', left, entries, same) =
      reap-Reaped ws (child_ended pid held s) v1 o1 (dies pid s.greeters r) in
    (
      v',
      further (ended_pids ws) (after (reap ws (child_ended pid held s))).sessions left,
      unregister pid held (ended_pids ws) s (after (reap ws (child_ended pid held s))) r entries,
      same,
    )
