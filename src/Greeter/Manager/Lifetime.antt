-- ===== src/Greeter/Manager/Lifetime.antt =====
-- The pointers of `m_greeters`, over any run of the manager's methods.
use vncmanager.Base.{
  ℕ, ◌+◌, ◌<◌, ◌≡◌, ◌≢◌, refl, sym, ap, ◌∙◌, arith, none, some, List, [], ◌∷◌, ◌==◌, if◌then◌else◌,
  Bool-cases, Option-cases, inl, inr,
}
use vncmanager.Greeter.Connection.{GreeterConnection, spawned_greeter, mark_dead}
use vncmanager.Greeter.Manager.{
  GreeterManager, find_greeter, find_pid, erase_pid, mark_dead_at, delete_at, insert_pid,
  create_greeter, release_greeter, child_died,
}

abbrev pub no_greeters : GreeterManager
no_greeters = record { objects = []; greeters = []; next_pointer = 0 }

-- The managers that calls can lead to; a greeter is released once, while it is there.
pub data IsReachable : GreeterManager → Type 0 where
  starts : IsReachable no_greeters
  creates : (pid : ℕ) (m : GreeterManager) → IsReachable m → IsReachable (create_greeter pid m).1
  releases :
      (p : ℕ) (g : GreeterConnection) (m : GreeterManager)
      → find_greeter p m.objects ≡ some g
      → IsReachable m
      → IsReachable (release_greeter p m)
  dies : (pid : ℕ) (m : GreeterManager) → IsReachable m → IsReachable (child_died pid m)

-- No process id is there twice.
abbrev Distinct : List (ℕ × ℕ) → Type 0
Distinct [] = Unit
Distinct ((k, p) ∷ rest) = (find_pid k rest ≡ none) × Distinct rest

-- The pointer leads to a greeter that was not deleted, of this process.
abbrev pub IsAlive : ℕ → ℕ → GreeterManager → Type 0
IsAlive pid p m =
    (g : GreeterConnection) × (find_greeter p m.objects ≡ some g) × (g.greeter_pid ≡ pid)

record IsSound (m : GreeterManager) : Type 0 where
  pub distinct : Distinct m.greeters
  pub below : (pid p : ℕ) → find_pid pid m.greeters ≡ some p → p < m.next_pointer
  pub alive : (pid p : ℕ) → find_pid pid m.greeters ≡ some p → IsAlive pid p m

find-insert :
    (k pid p : ℕ) (gs : List (ℕ × ℕ))
    → find_pid k (insert_pid pid p gs) ≡ (
        if k == pid
        then elim (find_pid k gs) [ none ↦ some p | some q ↦ some q ]
        else find_pid k gs)
find-insert k pid p [] = ground arith
find-insert k pid p ((j, q) ∷ rest) = ground (arith, find-insert k pid p rest)

insert-Distinct : (pid p : ℕ) (gs : List (ℕ × ℕ)) → Distinct gs → Distinct (insert_pid pid p gs)
insert-Distinct pid p [] d = (refl, tt)
insert-Distinct pid p ((j, q) ∷ rest) d =
    ground (arith, insert-Distinct pid p rest, find-insert j pid p rest)

find-erase :
    (k pid : ℕ) (gs : List (ℕ × ℕ))
    → Distinct gs
    → find_pid k (erase_pid pid gs) ≡ (if k == pid then none else find_pid k gs)
find-erase k pid [] d = ground arith
find-erase k pid ((j, q) ∷ rest) d = ground (arith, find-erase k pid rest)

erase-Distinct : (pid : ℕ) (gs : List (ℕ × ℕ)) → Distinct gs → Distinct (erase_pid pid gs)
erase-Distinct pid [] d = d
erase-Distinct pid ((j, q) ∷ rest) d =
    ground (arith, erase-Distinct pid rest, find-erase j pid rest)

find-delete :
    (p q : ℕ) (os : List (ℕ × GreeterConnection))
    → p ≢ q
    → find_greeter p (delete_at q os) ≡ find_greeter p os
find-delete p q [] n = refl
find-delete p q ((k, g) ∷ rest) n = ground (arith, find-delete p q rest)

-- A greeter that was marked is the same process's.
find-mark :
    (p q pid : ℕ) (os : List (ℕ × GreeterConnection)) (g : GreeterConnection)
    → find_greeter p os ≡ some g
    → (g' : GreeterConnection) × (find_greeter p (mark_dead_at q os) ≡ some g')
      × (g'.greeter_pid ≡ g.greeter_pid)
unfolding mark_dead
find-mark p q pid [] g h = cc h
find-mark p q pid ((k, o) ∷ rest) g h = elim (Bool-cases (k == q)) [
  | inl marked ↦ elim (Bool-cases (k == p)) [
    | inl here ↦ (mark_dead o, ground arith, ground arith)
    | inr there ↦ (g, ground arith, refl)
  ]
  | inr unmarked ↦ elim (Bool-cases (k == p)) [
    | inl here ↦ (o, ground arith, ground arith)
    | inr there ↦
        let (g', e, same) = find-mark p q pid rest g (ground arith) in (g', ground arith, same)
  ]
]

create-IsAlive :
    (pid k p : ℕ) (m : GreeterManager)
    → p < m.next_pointer
    → IsAlive k p m
    → IsAlive k p (create_greeter pid m).1
unfolding create_greeter
create-IsAlive pid k p m below (g, e, same) = (g, ground arith, same)

create-found :
    (pid k p : ℕ) (m : GreeterManager)
    → IsSound m
    → find_pid k (create_greeter pid m).1.greeters ≡ some p
    → (p < m.next_pointer + 1) × IsAlive k p (create_greeter pid m).1
unfolding create_greeter
create-found pid k p m v h = elim (Option-cases (find_pid k m.greeters)) [
  | inr (q, e) ↦
      let same : q ≡ p = ground (arith, find-insert k pid m.next_pointer m.greeters) in
      let e' : find_pid k m.greeters ≡ some p = rw same at e in
      (omega (arith, v.below k p e'), create-IsAlive pid k p m (v.below k p e') (v.alive k p e'))
  | inl e ↦
      let is_new : m.next_pointer ≡ p =
        ground (arith, find-insert k pid m.next_pointer m.greeters) in
      let is_its : k ≡ pid = ground (arith, find-insert k pid m.next_pointer m.greeters) in
      (omega arith, (spawned_greeter pid, ground arith, sym is_its))
]

create-IsSound : (pid : ℕ) (m : GreeterManager) → IsSound m → IsSound (create_greeter pid m).1
create-IsSound pid m v = record {
  distinct = unfold create_greeter in insert-Distinct pid m.next_pointer m.greeters v.distinct;
  below = λ k p h. unfold create_greeter in (create-found pid k p m v h).0;
  alive = λ k p h. (create-found pid k p m v h).1;
}

release-IsSound :
    (p : ℕ) (g : GreeterConnection) (m : GreeterManager)
    → find_greeter p m.objects ≡ some g
    → IsSound m
    → IsSound (release_greeter p m)
unfolding release_greeter
release-IsSound p g m h v =
    let erased : (k q : ℕ)
        → find_pid k (erase_pid g.greeter_pid m.greeters) ≡ some q
        → (k ≢ g.greeter_pid) × (find_pid k m.greeters ≡ some q) =
      λ k q e. ground (arith, find-erase k g.greeter_pid m.greeters v.distinct) in
    record {
      distinct = rw h (erase-Distinct g.greeter_pid m.greeters v.distinct);
      below = λ k q e. v.below k q (erased k q (rw h at e)).1;
      alive = λ k q e.
          let (other, listed) = erased k q (rw h at e) in
          let (o, found, same) = v.alive k q listed in
          let apart : q ≢ p =
            λ (i : q ≡ p). ground (arith, ap (λ (j : ℕ). find_greeter j m.objects) i) in
          (o, find-delete q p m.objects apart ∙ found, same);
    }

dead_lem :
    (pid p : ℕ) (m : GreeterManager)
    → find_pid pid m.greeters ≡ some p
    → child_died pid m
      ≡ record m { objects = mark_dead_at p m.objects; greeters = erase_pid pid m.greeters }
unfolding child_died
dead_lem pid p m e = rw (e, child_died) refl

unknown_lem : (pid : ℕ) (m : GreeterManager) → find_pid pid m.greeters ≡ none → child_died pid m ≡ m
unfolding child_died
unknown_lem pid m e = rw (e, child_died) refl

marked-IsSound :
    (pid p : ℕ) (m : GreeterManager)
    → IsSound m
    → IsSound (record m { objects = mark_dead_at p m.objects; greeters = erase_pid pid m.greeters })
marked-IsSound pid p m v =
    let kept : (k q : ℕ)
        → find_pid k (erase_pid pid m.greeters) ≡ some q
        → find_pid k m.greeters ≡ some q =
      λ k q e. ground (arith, find-erase k pid m.greeters v.distinct) in
    record {
      distinct = erase-Distinct pid m.greeters v.distinct;
      below = λ k q e. v.below k q (kept k q e);
      alive = λ k q e.
          let (o, found, same) = v.alive k q (kept k q e) in
          let (o', found', same') = find-mark q p pid m.objects o found in
          (o', found', same' ∙ same);
    }

died-IsSound : (pid : ℕ) (m : GreeterManager) → IsSound m → IsSound (child_died pid m)
died-IsSound pid m v = elim (Option-cases (find_pid pid m.greeters)) [
  | inl e ↦ rw (unknown_lem pid m e) v
  | inr (p, e) ↦ rw (dead_lem pid p m e) (marked-IsSound pid p m v)
]

reachable-IsSound : (m : GreeterManager) → IsReachable m → IsSound m
reachable-IsSound _ starts = record { distinct = tt; below = λ k p e. cc e; alive = λ k p e. cc e }
reachable-IsSound _ (creates pid m r) = create-IsSound pid m (reachable-IsSound m r)
reachable-IsSound _ (releases p g m h r) = release-IsSound p g m h (reachable-IsSound m r)
reachable-IsSound _ (dies pid m r) = died-IsSound pid m (reachable-IsSound m r)

-- The end of a process takes its entry away, and no other.
pub found_after :
    (k pid : ℕ) (m : GreeterManager)
    → IsReachable m
    → find_pid k (child_died pid m).greeters ≡ (if k == pid then none else find_pid k m.greeters)
found_after k pid m r = elim (Option-cases (find_pid pid m.greeters)) [
  | inl e ↦ rw (unknown_lem pid m e) (ground arith)
  | inr (p, e) ↦
      rw (dead_lem pid p m e) (find-erase k pid m.greeters (reachable-IsSound m r).distinct)
]

-- However greeters are created, released and die, the pointer that the manager has for a process id
-- leads to a greeter that was not deleted, and that was started with this process id.
pub registered-IsAlive :
    (m : GreeterManager) (pid p : ℕ)
    → IsReachable m
    → find_pid pid m.greeters ≡ some p
    → IsAlive pid p m
registered-IsAlive m pid p r h = (reachable-IsSound m r).alive pid p h
