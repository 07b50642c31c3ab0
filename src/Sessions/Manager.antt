-- ===== src/Sessions/Manager.antt =====
-- class XvncManager. `objects` are the Xvnc objects that some shared pointer keeps alive, and
-- `xvncs` the keys of `m_xvncs`; an entry's pointer leads to the object of that id.
use vncmanager.Base.{
  ℕ, ◌+◌, Bool, false, Option, none, some, List, [], ◌∷◌, contains, ltb, ◌==◌, if◌then◌else◌,
  Action, ok, err, spawn_failed, assertion, ◌||◌,
}
use vncmanager.Sessions.Xvnc
use vncmanager.Sessions.Xvnc.{Xvnc, started}

pub record XvncManager : Type 0 where
  pub objects : List Xvnc
  pub xvncs : List ℕ
  pub next_id : ℕ
  pub session_list_version : ℕ

abbrev pub object : ℕ → List Xvnc → Option Xvnc
object i [] = none
object i (x ∷ xs) = if x.id == i then some x else object i xs

abbrev pub update_object : ℕ → (Xvnc → Xvnc) → List Xvnc → List Xvnc
update_object i f [] = []
update_object i f (x ∷ xs) = if x.id == i then f x ∷ xs else x ∷ update_object i f xs

abbrev pub remove_object : ℕ → List Xvnc → List Xvnc
remove_object i [] = []
remove_object i (x ∷ xs) = if x.id == i then xs else x ∷ remove_object i xs

-- What the constructor of Xvnc meets: the process and its display number, or an exception.
pub data Spawn : Type 0 where
  spawned : ℕ → ℕ → Spawn
  not_spawned : Spawn

-- `std::map::insert` of a key that is not there; keys are in ascending order.
abbrev pub insert_id : ℕ → List ℕ → List ℕ
insert_id i [] = i ∷ []
insert_id i (j ∷ js) = if ltb i j then i ∷ j ∷ js else j ∷ insert_id i js

-- `m_nextId++` is evaluated before the constructor can throw.
unfoldable pub create_session : Spawn → Action XvncManager ℕ
create_session not_spawned m = err spawn_failed (record m { next_id = m.next_id + 1 })
create_session (spawned pid display) m =
    let m' = record m {
      objects = started m.next_id pid display ∷ m.objects;
      next_id = m.next_id + 1;
    } in
    if contains m.xvncs m.next_id
    then err assertion m'
    else ok m.next_id (record m' { xvncs = insert_id m.next_id m.xvncs })

unfoldable pub get_session : ℕ → XvncManager → Option ℕ
get_session i m = if contains m.xvncs i then some i else none

abbrev pub has_display : ℕ → Option Xvnc → Bool
has_display n none = false
has_display n (some x) = x.display_number == n

abbrev pub find_display : ℕ → List Xvnc → List ℕ → Option ℕ
find_display n xs [] = none
find_display n xs (i ∷ js) = if has_display n (object i xs) then some i else find_display n xs js

unfoldable pub get_session_by_display_number : ℕ → XvncManager → Option ℕ
get_session_by_display_number n m = find_display n m.objects m.xvncs

abbrev pub is_visible : Option Xvnc → Bool
is_visible none = false
is_visible (some x) = x.visible

abbrev pub any_visible : List Xvnc → List ℕ → Bool
any_visible xs [] = false
any_visible xs (i ∷ js) = is_visible (object i xs) || any_visible xs js

unfoldable pub has_visible_sessions : XvncManager → Bool
has_visible_sessions m = any_visible m.objects m.xvncs

unfoldable pub notify_session_changed : XvncManager → XvncManager
notify_session_changed m = record m { session_list_version = m.session_list_version + 1 }

-- A method of the object `i`, with its notification.
unfoldable pub apply : (Xvnc → Xvnc × Bool) → ℕ → XvncManager → XvncManager
unfolding notify_session_changed
apply f i m = elim (object i m.objects) [
  | none ↦ m
  | some x ↦
      let m' = record m { objects = update_object i (λ y. (f y).0) m.objects } in
      if (f x).1 then notify_session_changed m' else m'
]

abbrev pub has_pid : ℕ → Option Xvnc → Bool
has_pid pid none = false
has_pid pid (some x) = x.pid == pid

abbrev pub find_pid : ℕ → List Xvnc → List ℕ → Option ℕ
find_pid pid xs [] = none
find_pid pid xs (i ∷ js) = if has_pid pid (object i xs) then some i else find_pid pid xs js

abbrev pub erase_id : ℕ → List ℕ → List ℕ
erase_id i [] = []
erase_id i (j ∷ js) = if j == i then js else j ∷ erase_id i js

-- The destructor, when the last pointer to the object goes.
unfoldable pub destroy : ℕ → XvncManager → XvncManager
unfolding apply Xvnc.mark_visible
destroy i m =
    let m' = apply (Xvnc.mark_visible false) i m in
    record m' { objects = remove_object i m'.objects }

-- `held` says whether a connection or a controller still points to the object.
unfoldable pub child_died : Bool → ℕ → XvncManager → XvncManager
unfolding destroy
child_died held pid m = elim (find_pid pid m.objects m.xvncs) [
  | none ↦ m
  | some i ↦ let m' = record m { xvncs = erase_id i m.xvncs } in if held then m' else destroy i m'
]
