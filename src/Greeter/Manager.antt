-- ===== src/Greeter/Manager.antt =====
-- class GreeterManager: the greeters by process id. A pointer to a greeter is a number that no two
-- greeters share.
pub mod Lifetime
use vncmanager.Base.{ℕ, ◌+◌, Option, none, some, List, [], ◌∷◌, ◌==◌, if◌then◌else◌}
use vncmanager.Greeter.Connection.{GreeterConnection, spawned_greeter, mark_dead}

-- `objects` are the greeters that were created and not deleted, and `greeters` is `m_greeters`, from
-- process ids to pointers.
pub record GreeterManager : Type 0 where
  pub objects : List (ℕ × GreeterConnection)
  pub greeters : List (ℕ × ℕ)
  pub next_pointer : ℕ

abbrev pub find_greeter : ℕ → List (ℕ × GreeterConnection) → Option GreeterConnection
find_greeter p [] = none
find_greeter p ((q, g) ∷ rest) = if q == p then some g else find_greeter p rest

abbrev pub find_pid : ℕ → List (ℕ × ℕ) → Option ℕ
find_pid pid [] = none
find_pid pid ((k, p) ∷ rest) = if k == pid then some p else find_pid pid rest

abbrev pub erase_pid : ℕ → List (ℕ × ℕ) → List (ℕ × ℕ)
erase_pid pid [] = []
erase_pid pid ((k, p) ∷ rest) = if k == pid then rest else (k, p) ∷ erase_pid pid rest

abbrev pub mark_dead_at : ℕ → List (ℕ × GreeterConnection) → List (ℕ × GreeterConnection)
mark_dead_at p [] = []
mark_dead_at p ((q, g) ∷ rest) =
    if q == p then (q, mark_dead g) ∷ rest else (q, g) ∷ mark_dead_at p rest

abbrev pub delete_at : ℕ → List (ℕ × GreeterConnection) → List (ℕ × GreeterConnection)
delete_at p [] = []
delete_at p ((q, g) ∷ rest) = if q == p then rest else (q, g) ∷ delete_at p rest

-- `std::map::insert` keeps an entry that is there.
abbrev pub insert_pid : ℕ → ℕ → List (ℕ × ℕ) → List (ℕ × ℕ)
insert_pid pid p [] = (pid, p) ∷ []
insert_pid pid p ((k, q) ∷ rest) =
    if k == pid then (k, q) ∷ rest else (k, q) ∷ insert_pid pid p rest

-- A greeter whose process was started as `pid`.
unfoldable pub create_greeter : ℕ → GreeterManager → ℕ × GreeterManager
create_greeter pid m = (
  m.next_pointer,
  record {
    objects = (m.next_pointer, spawned_greeter pid) ∷ m.objects;
    greeters = insert_pid pid m.next_pointer m.greeters;
    next_pointer = m.next_pointer + 1;
  },
)

abbrev pub pid_at : Option GreeterConnection → List (ℕ × ℕ) → List (ℕ × ℕ)
pid_at none gs = gs
pid_at (some g) gs = erase_pid g.greeter_pid gs

unfoldable pub release_greeter : ℕ → GreeterManager → GreeterManager
release_greeter p m = record m {
  objects = delete_at p m.objects;
  greeters = pid_at (find_greeter p m.objects) m.greeters;
}

unfoldable pub child_died : ℕ → GreeterManager → GreeterManager
child_died pid m = elim (find_pid pid m.greeters) [
  | none ↦ m
  | some p ↦ record m { objects = mark_dead_at p m.objects; greeters = erase_pid pid m.greeters }
]
