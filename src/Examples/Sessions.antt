-- ===== src/Examples/Sessions.antt =====
-- Small inputs for the session list.
use vncmanager.Base.{ℕ, ◌≡◌, ◌≢◌, refl, arith, true, false, none, some, [], ◌∷◌, ok}
use vncmanager.Sessions.Xvnc.{started}
use vncmanager.Sessions.Manager.{XvncManager, spawned, create_session, get_session, child_died}
use vncmanager.Sessions.Invariant.{IsConsistent, create_session_lists}
use vncmanager.Sessions.ChildDied.{child_died_delists, child_died_keeps_version}
use vncmanager.Sessions.DisplayNumber.{read_display_number, decimal, read_display_number-decimal}
use vncmanager.Base.{List, after, false, ltb, if◌then◌else◌, ◌⊎◌}
use vncmanager.Greeter.Manager.Lifetime.{no_greeters, starts, creates}
use vncmanager.Greeter.Manager.{create_greeter}
use vncmanager.Server.{Server, Wait, child, none_ended, child_signal, handle_signal}
use vncmanager.Server.Ended.{HasOwnProcesses}
use vncmanager.Server.Laws.{Handled, handle_signal-Handled}
use vncmanager.Controller.{approval_loop}
use vncmanager.Controller.Laws.{InTime, Never, approval_loop_lem}

-- Two sessions, and an id that was used before.
abbrev pub two_sessions : XvncManager
two_sessions = record {
  objects = started 2 102 5 ∷ started 0 100 3 ∷ [];
  xvncs = 0 ∷ 2 ∷ [];
  next_id = 3;
  session_list_version = 4;
}

pub two_sessions-IsConsistent : IsConsistent two_sessions
two_sessions-IsConsistent = record {
  ascending = omega arith;
  below = omega arith;
  backed = (λ e. cc e, (λ e. cc e, tt));
}

create_session_lists_example :
    (m' : XvncManager) × (create_session (spawned 103 6) two_sessions ≡ ok 3 m')
    × IsConsistent m'
    × (get_session 3 two_sessions ≡ none)
    × (get_session 3 m' ≡ some 3)
    × ((i : ℕ) → i ≢ 3 → get_session i m' ≡ get_session i two_sessions)
create_session_lists_example = create_session_lists two_sessions 103 6 two_sessions-IsConsistent

child_died_delists_example :
    IsConsistent (child_died false 100 two_sessions)
    × (get_session 0 (child_died false 100 two_sessions) ≡ none)
    × ((j : ℕ)
        → j ≢ 0
        → get_session j (child_died false 100 two_sessions) ≡ get_session j two_sessions)
child_died_delists_example =
    child_died_delists false 100 0 two_sessions two_sessions-IsConsistent refl

child_died_keeps_version_example :
    ((child_died true 102 two_sessions).session_list_version ≡ 4)
    × ((child_died true 102 two_sessions).xvncs ≢ 0 ∷ 2 ∷ [])
child_died_keeps_version_example =
    child_died_keeps_version 102 2 two_sessions two_sessions-IsConsistent refl

read_display_number-decimal_example :
    read_display_number 0 (decimal 1042 (10 ∷ 7 ∷ [])) ≡ ok 1042 (7 ∷ [])
read_display_number-decimal_example = read_display_number-decimal 1042 (7 ∷ []) (omega arith)

-- A session's process and a greeter's have ended.
abbrev busy_server : Server
busy_server = record {
  run = true;
  sessions = two_sessions;
  greeters = (create_greeter 71 no_greeters).1;
}

abbrev ended : List Wait
ended = child 71 false ∷ child 102 true ∷ none_ended ∷ []

two_sessions-HasOwnProcesses : HasOwnProcesses two_sessions
unfolding get_session
two_sessions-HasOwnProcesses pid i j li lj hi hj = ground arith

handle_signal-Handled_example :
    Handled false child_signal ended busy_server
      (after (handle_signal false child_signal ended busy_server))
handle_signal-Handled_example =
    handle_signal-Handled false child_signal ended busy_server two_sessions-IsConsistent
      two_sessions-HasOwnProcesses (creates 71 no_greeters starts)

-- The desktop of session 2 approves the key "k" before the third try.
abbrev approving : ℕ → XvncManager
approving n = if ltb n 2 then two_sessions else record two_sessions {
  objects =
      record (started 2 102 5) { approved_controller_keys = (107 ∷ []) ∷ [] }
      ∷ started 0 100 3
      ∷ [];
}

approval_loop_lem_example :
    ((approval_loop 101 0 (107 ∷ []) 2 approving ≡ some true) × InTime (107 ∷ []) 2 approving 0)
    ⊎ ((approval_loop 101 0 (107 ∷ []) 2 approving ≡ some false) × Never (107 ∷ []) 2 approving 0)
approval_loop_lem_example = approval_loop_lem (107 ∷ []) 2 approving
