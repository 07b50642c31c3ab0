-- ===== src/Examples/Greeters.antt =====
-- Small inputs for the greeters and the handshake with an Xvnc.
use vncmanager.Base.{◌≡◌, refl, some, [], ◌∷◌, true, false, arith, ℕ, codes, Post, ◌>>=◌}
use vncmanager.Greeter.Connection.{mark_dead, spawned_greeter}
use vncmanager.Greeter.Manager.{
  GreeterManager, find_pid, create_greeter, child_died, release_greeter,
}
use vncmanager.Greeter.Manager.Lifetime.{
  no_greeters, IsReachable, starts, creates, releases, dies, IsAlive, registered-IsAlive,
}
use vncmanager.Greeter.Start
use vncmanager.Greeter.Start.{Host, Answers}
use vncmanager.Greeter.Start.Laws.{AreDistinct, construct-destroy}

-- Two greeters; the first dies and is released, and a third gets its process id.
abbrev two_greeters : GreeterManager
two_greeters = (create_greeter 71 (create_greeter 70 no_greeters).1).1

abbrev three_greeters : GreeterManager
three_greeters = (create_greeter 70 (release_greeter 0 (child_died 70 two_greeters))).1

three_greeters-IsReachable : IsReachable three_greeters
unfolding create_greeter child_died mark_dead
three_greeters-IsReachable = creates 70 (release_greeter 0 (child_died 70 two_greeters)) (
    releases 0 (record (spawned_greeter 70) { dead = true }) (child_died 70 two_greeters) refl
      (dies 70 two_greeters
        (creates 71 (create_greeter 70 no_greeters).1 (creates 70 no_greeters starts))))

third_greeter : find_pid 70 three_greeters.greeters ≡ some 2
unfolding create_greeter release_greeter child_died mark_dead
third_greeter = refl

registered-IsAlive_example : IsAlive 70 2 three_greeters
registered-IsAlive_example =
    registered-IsAlive three_greeters 70 2 three_greeters-IsReachable third_greeter

-- A greeter that is told to end.
abbrev greeter_answers : Answers
greeter_answers = record { stdin_pipe = some (6, 7); stdout_pipe = some (8, 9); fork = some 102 }

abbrev manager_process : Host
manager_process = record { descriptors = 5 ∷ []; children = 100 ∷ []; terminated = [] }

greeter_answers-AreDistinct : AreDistinct (6, 7) (8, 9)
greeter_answers-AreDistinct = record {
  reads = omega arith;
  write_read = omega arith;
  read_write = omega arith;
  ends = omega arith;
}

construct-destroy_example :
    Post
      (λ _ t.
        (t.descriptors ≡ 5 ∷ [])
        × ((pid : ℕ) × (some 102 ≡ some pid)
            × (t.children ≡ pid ∷ 100 ∷ [])
            × (t.terminated ≡ pid ∷ [])))
      (λ _ t.
        (t.descriptors ≡ 8 ∷ 9 ∷ 6 ∷ 7 ∷ 5 ∷ []) × (t.children ≡ 100 ∷ []) × (t.terminated ≡ []))
      ((Start.construct greeter_answers
            (codes "/usr/bin/greeter")
            (codes ":7")
            (codes "/run/auth/3")
          >>= λ g. Start.destroy g false)
        manager_process)
construct-destroy_example =
    construct-destroy greeter_answers (codes "/usr/bin/greeter") (codes ":7") (codes "/run/auth/3")
      false manager_process greeter_answers-AreDistinct
