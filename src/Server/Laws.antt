-- ===== src/Server/Laws.antt =====
-- What each signal does to the server.
use vncmanager.Base.{◌≡◌, refl, Bool, true, false, List, after}
use vncmanager.Sessions.Invariant.{IsConsistent}
use vncmanager.Greeter.Manager.Lifetime.{IsReachable}
use vncmanager.Server.{
  Server, Wait, Signal, interrupt, terminate, child_signal, pipe, handle_signal,
}
use vncmanager.Server.Ended.{HasOwnProcesses}
use vncmanager.Server.Reap.{Reaped, reap-Reaped}

-- What a signal, read or not, makes of a server.
abbrev pub Handled : Bool → Signal → List Wait → Server → Server → Type 0
Handled true signal ws s s' = s' ≡ s
Handled false interrupt ws s s' = s' ≡ record s { run = false }
Handled false terminate ws s s' = s' ≡ record s { run = false }
Handled false child_signal ws s s' = Reaped ws s s'
Handled false pipe ws s s' = s' ≡ s

-- From a consistent list of sessions with a process each, and with greeters that the manager's
-- methods made: SIGCHLD takes the sessions of all children that have ended off the list, and their
-- processes off the greeters, up to the answer of waitpid that ends the loop. The other sessions and
-- greeters stay listed, the list stays consistent, and the server goes on or not as before. SIGINT and
-- SIGTERM end the loop and change nothing else; SIGPIPE and a read that fails change nothing.
pub handle_signal-Handled :
    (failed : Bool) (signal : Signal) (ws : List Wait) (s : Server)
    → IsConsistent s.sessions
    → HasOwnProcesses s.sessions
    → IsReachable s.greeters
    → Handled failed signal ws s (after (handle_signal failed signal ws s))
unfolding handle_signal
handle_signal-Handled true signal ws s v o r = refl
handle_signal-Handled false interrupt ws s v o r = refl
handle_signal-Handled false terminate ws s v o r = refl
handle_signal-Handled false child_signal ws s v o r = reap-Reaped ws s v o r
handle_signal-Handled false pipe ws s v o r = refl
