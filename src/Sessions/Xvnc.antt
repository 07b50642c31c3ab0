-- ===== src/Sessions/Xvnc.antt =====
-- class Xvnc without its process: what the methods do to the object. A method that may call
-- `notifySessionChanged` says so with a Bool. Text is a list of bytes.
use vncmanager.Base.{
  ℕ, ◌+◌, ◌-◌, Bool, true, false, List, [], ◌∷◌, take, drop, ltb, same_bytes, if◌then◌else◌, Option,
  none, some,
}

pub record Xvnc : Type 0 where
  pub id : ℕ
  pub pid : ℕ
  pub display_number : ℕ
  pub connection_count : ℕ
  pub visible : Bool
  pub desktop_name : List ℕ
  pub session_username : List ℕ
  pub approved_controller_keys : List (List ℕ)

-- What the constructor leaves once the process runs and has told its display number.
abbrev pub started : ℕ → ℕ → ℕ → Xvnc
started id pid display = record {
  id = id;
  pid = pid;
  display_number = display;
  connection_count = 0;
  visible = false;
  desktop_name = [];
  session_username = [];
  approved_controller_keys = [];
}

abbrev pub same_bool : Bool → Bool → Bool
same_bool true b = b
same_bool false true = false
same_bool false false = true

unfoldable pub mark_visible : Bool → Xvnc → Xvnc × Bool
mark_visible new_visible x =
    if same_bool x.visible new_visible
    then (x, false)
    else (record x { visible = new_visible }, true)

-- "CONTROLLER_KEY:"
abbrev pub controller_key : List ℕ
controller_key =
    b'C' ∷ b'O' ∷ b'N' ∷ b'T' ∷ b'R' ∷ b'O' ∷ b'L' ∷ b'L' ∷ b'E' ∷ b'R' ∷ b'_' ∷ b'K' ∷ b'E' ∷ b'Y'
    ∷ b':' ∷ []

-- `std::set::find`
abbrev pub has_key : List (List ℕ) → List ℕ → Bool
has_key [] key = false
has_key (k ∷ ks) key = if same_bytes k key then true else has_key ks key

-- `std::set::insert`
abbrev pub insert_key : List ℕ → List (List ℕ) → List (List ℕ)
insert_key key ks = if has_key ks key then ks else key ∷ ks

unfoldable pub set_desktop_name : List ℕ → Xvnc → Xvnc × Bool
set_desktop_name name x =
    if same_bytes (take 15 name) controller_key
    then (
      record x { approved_controller_keys = insert_key (drop 15 name) x.approved_controller_keys },
      false,
    )
    else (if same_bytes x.desktop_name name
        then (x, false)
        else (record x { desktop_name = name }, true))

unfoldable pub set_session_username : List ℕ → Xvnc → Xvnc × Bool
set_session_username name x =
    if same_bytes x.session_username name
    then (x, false)
    else (record x { session_username = name }, true)

-- `connect` once the socket calls went well.
unfoldable pub connected : Xvnc → Xvnc
connected x = record x { connection_count = x.connection_count + 1 }

-- `none` is the failed `assert(m_connectionCount > 0)`.
unfoldable pub disconnect : Xvnc → Option Xvnc
disconnect x =
    if ltb 0 x.connection_count
    then some (record x { connection_count = x.connection_count - 1 })
    else none

unfoldable pub is_key_approved : List ℕ → Xvnc → Bool
is_key_approved key x = has_key x.approved_controller_keys key
