-- ===== src/Greeter/Start/Laws.antt =====
-- What a greeter holds open while it is there, and what it leaves.
use vncmanager.Base.{
  ℕ, ◌≡◌, ◌≢◌, refl, ap, ◌∙◌, arith, Bool, Option, none, some, List, ◌∷◌, if◌then◌else◌, Post,
  Option-cases, inl, inr, ◌>>=◌,
}
use vncmanager.Sessions.Start.{remove_fd}
use vncmanager.Greeter.Start.{Host, Answers, construct, destroy}

-- The kernel gives descriptors that are not in use.
pub record AreDistinct (p q : ℕ × ℕ) : Type 0 where
  pub reads : q.0 ≢ p.0
  pub write_read : q.1 ≢ p.0
  pub read_write : q.0 ≢ p.1
  pub ends : q.0 ≢ q.1

module _ (p q : ℕ × ℕ) (d : AreDistinct p q) (ks : List ℕ) where
  remove_child_ends : remove_fd q.1 (remove_fd p.0 (q.0 ∷ q.1 ∷ p.0 ∷ p.1 ∷ ks)) ≡ q.0 ∷ p.1 ∷ ks
  remove_child_ends = ground (arith, d.reads, d.write_read, d.ends)

  remove_own_ends : remove_fd q.0 (remove_fd p.1 (q.0 ∷ p.1 ∷ ks)) ≡ ks
  remove_own_ends = ground (arith, d.read_write)

-- What is open when the constructor throws.
abbrev pub leftovers : Option (ℕ × ℕ) → Option (ℕ × ℕ) → List ℕ → List ℕ
leftovers none q ks = ks
leftovers (some p) none ks = p.0 ∷ p.1 ∷ ks
leftovers (some p) (some q) ks = q.0 ∷ q.1 ∷ p.0 ∷ p.1 ∷ ks

abbrev pub TakesDistinct : Option (ℕ × ℕ) → Option (ℕ × ℕ) → Type 0
TakesDistinct none q = Unit
TakesDistinct (some p) none = Unit
TakesDistinct (some p) (some q) = AreDistinct p q

-- A greeter that was started and is deleted leaves the manager's descriptors as they were, and its
-- process was sent SIGTERM unless the greeter was marked dead. A constructor that throws starts no
-- process, and leaves open what it had of the two pipes.
pub construct-destroy :
    (a : Answers) (greeter display xauth_filename : List ℕ) (dead : Bool) (s : Host)
    → TakesDistinct a.stdin_pipe a.stdout_pipe
    → Post
        (λ _ t.
          (t.descriptors ≡ s.descriptors)
          × ((pid : ℕ) × (a.fork ≡ some pid)
              × (t.children ≡ pid ∷ s.children)
              × (t.terminated ≡ (if dead then s.terminated else pid ∷ s.terminated))))
        (λ _ t.
          (t.descriptors ≡ leftovers a.stdin_pipe a.stdout_pipe s.descriptors)
          × (t.children ≡ s.children)
          × (t.terminated ≡ s.terminated))
        ((construct a greeter display xauth_filename >>= λ g. destroy g dead) s)
unfolding construct destroy
construct-destroy a greeter display xauth_filename dead s h = elim (Option-cases a.stdin_pipe) [
  | inl e0 ↦ rw e0 (refl, refl, refl)
  | inr (p, e0) ↦ elim (Option-cases a.stdout_pipe) [
    | inl e1 ↦ rw (e0, e1) (refl, refl, refl)
    | inr (q, e1) ↦ elim (Option-cases a.fork) [
      | inl e2 ↦ rw (e0, e1, e2) (refl, refl, refl)
      | inr (pid, e2) ↦
          let d : AreDistinct p q = rw (e0, e1) at h in
          rw (e0, e1, e2)
            (
              ap (λ ks. remove_fd q.0 (remove_fd p.1 ks)) (remove_child_ends p q d s.descriptors)
                  ∙ remove_own_ends p q d s.descriptors,
              (pid, refl, refl, refl),
            )
    ]
  ]
]
