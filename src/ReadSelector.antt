-- ===== src/ReadSelector.antt =====
-- ReadSelector.h and ReadSelector.cpp: handlers by file descriptor. Which descriptors are ready is an
-- argument; `cancelled` reads the flag that `cancel` sets, which the handlers reach.
pub mod Laws
pub mod Order
pub mod Table
use vncmanager.Base.{
  ℕ, Bool, true, false, List, [], ◌∷◌, ltb, ◌==◌, if◌then◌else◌, Option, none, some, Result, Action,
  ok, err, errno,
}

-- `m_fds`, in ascending order of the descriptors.
abbrev pub Handlers : Type 0 → Type 0
Handlers S = List (ℕ × Action S (Unit {0}))

module _ {S : Type 0} where
  abbrev pub has_fd : ℕ → Handlers S → Bool
  has_fd fd [] = false
  has_fd fd ((k, h) ∷ rest) = if k == fd then true else has_fd fd rest

  abbrev pub insert_fd : ℕ → Action S (Unit {0}) → Handlers S → Handlers S
  insert_fd fd h [] = (fd, h) ∷ []
  insert_fd fd h ((k, g) ∷ rest) =
      if ltb fd k then (fd, h) ∷ (k, g) ∷ rest else (k, g) ∷ insert_fd fd h rest

  -- `addFD`; `none` is the failed assertion, a descriptor that was there.
  unfoldable pub add_fd : ℕ → Action S (Unit {0}) → Handlers S → Option (Handlers S)
  add_fd fd h fds = if has_fd fd fds then none else some (insert_fd fd h fds)

  -- `maxfd`
  unfoldable pub max_fd : ℕ → Handlers S → ℕ
  max_fd n [] = n
  max_fd n ((k, h) ∷ rest) = max_fd (if ltb n k then k else n) rest

module _ {S : Type 0} (ready : ℕ → Bool) (cancelled : S → Bool) where
  -- The second loop of `select`.
  unfoldable pub dispatch : Handlers S → Action S (Unit {0})
  dispatch [] s = ok tt s
  dispatch ((fd, h) ∷ rest) s = elim (ready fd) [
    | true ↦ elim (h s) [
      | ok u s' ↦ elim (cancelled s') [ true ↦ ok tt s' | false ↦ dispatch rest s' ]
      | err e s' ↦ err e s'
    ]
    | false ↦ dispatch rest s
  ]

  -- `uncancel` clears the flag, and `failed` says that `::select` returned an error.
  unfoldable pub select : (S → S) → Bool → Handlers S → Action S (Unit {0})
  unfolding dispatch
  select uncancel failed fds s =
      if failed then err errno (uncancel s) else dispatch fds (uncancel s)
