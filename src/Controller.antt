-- ===== src/Controller.antt =====
-- ControllerConnection.cpp: a desktop's helper that proves with a key that it belongs to a session,
-- and then says whether the session is to be shown. The input is a list of words, as
-- `std::istream >> std::string` splits it.
pub mod Laws
pub mod Manager
use vncmanager.Base.{
  ℕ, zero, suc, ◌+◌, Bool, true, false, Option, none, some, List, [], ◌∷◌, ◌++◌, codes, ◌==◌,
  same_bytes, if◌then◌else◌, Result, Action, ok, err, out_of_fuel,
}
use vncmanager.Sessions.Xvnc
use vncmanager.Sessions.Xvnc.{Xvnc}
use vncmanager.Sessions
use vncmanager.Sessions.Manager.{XvncManager, object, get_session_by_display_number}
use vncmanager.Greeter.Connection.{to_int, digits_value, word, next_words}

abbrev pub approval_tries : ℕ
approval_tries = 100

-- `m_xvnc->isKeyApproved(key)`
unfoldable pub key_approved : List ℕ → ℕ → XvncManager → Bool
unfolding Xvnc.is_key_approved
key_approved key i m = elim (object i m.objects) [
  | none ↦ false
  | some x ↦ Xvnc.is_key_approved key x
]

-- The loop that waits for the key. Other threads change the sessions between two tries: `world` gives
-- the sessions that a try sees. `none` is fuel that ran out.
unfoldable pub approval_loop : ℕ → ℕ → List ℕ → ℕ → (ℕ → XvncManager) → Option Bool
unfolding key_approved
approval_loop zero tries key i world = none
approval_loop (suc fuel) tries key i world =
    let again = approval_loop fuel (tries + 1) key i world in
    if key_approved key i (world tries)
    then some true
    else (if tries == approval_tries then some false else again)

abbrev pub ok_line : List ℕ
ok_line = codes "OK\n"

-- What `initialize` leaves: whether the controller is accepted, and for which session; the text sent
-- to it; and the words still to be read.
pub record Outcome : Type 0 where
  pub accepted : Bool
  pub session : Option ℕ
  pub out : List ℕ
  pub words : List (List ℕ)

abbrev approval : Option Bool → ℕ → List (List ℕ) → Option Outcome
approval none i words = none
approval (some true) i words =
    some (record { accepted = true; session = some i; out = ok_line ++ ok_line; words = words })
approval (some false) i words =
    some (record { accepted = false; session = some i; out = ok_line; words = words })

abbrev session_of : Option ℕ → XvncManager → Option ℕ
session_of none m = none
session_of (some n) m = get_session_by_display_number n m

-- `initialize`, up to the name of the peer's user: the display number, then the key.
unfoldable pub initialize : List (List ℕ) → XvncManager → (ℕ → XvncManager) → Option Outcome
unfolding get_session_by_display_number approval_loop
initialize words m world = elim (session_of (to_int (word words)) m) [
  | none ↦ some (record { accepted = false; session = none; out = []; words = next_words words })
  | some i ↦
      approval (approval_loop (suc approval_tries) 0 (word (next_words words)) i world) i
        (next_words (next_words words))
]

-- The user that the socket's peer runs as, when it has a name.
unfoldable pub name_user : Option (List ℕ) → ℕ → XvncManager → XvncManager
unfolding Sessions.Manager.apply Xvnc.set_session_username
name_user none i m = m
name_user (some name) i m = Sessions.Manager.apply (Xvnc.set_session_username name) i m

-- `receive`; `std::istream >> bool` gives false for 0 and for no number.
unfoldable pub receive : List (List ℕ) → ℕ → XvncManager → XvncManager
unfolding Sessions.Manager.apply Xvnc.mark_visible
receive words i m =
    if same_bytes (word words) (codes "VISIBLE")
    then Sessions.Manager.apply
        (Xvnc.mark_visible (if digits_value 0 (word (next_words words)) == 0 then false else true))
        i m
    else m
