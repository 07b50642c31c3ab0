-- ===== src/Server.antt =====
-- Server.cpp: what a signal does to the server and its managers.
pub mod Laws
pub mod Listen
pub mod Ended
pub mod Reap
pub mod Run
use vncmanager.Base.{ℕ, Bool, true, false, List, [], ◌∷◌, Action, ok, err, errno}
use vncmanager.Sessions.Manager.{XvncManager}
use vncmanager.Greeter.Manager.{GreeterManager}
use vncmanager.Sessions
use vncmanager.Greeter

pub record Server : Type 0 where
  pub run : Bool
  pub sessions : XvncManager
  pub greeters : GreeterManager

-- What `waitpid` answers: a child that ended, 0 for children of which none did, no child at all
-- (ECHILD), or another error. `held` says whether a connection or a controller still points to the
-- session of the child.
pub data Wait : Type 0 where
  child : ℕ → Bool → Wait
  none_ended : Wait
  no_children : Wait
  wait_failed : Wait

abbrev pub child_ended : ℕ → Bool → Server → Server
child_ended pid held s = record s {
  sessions = Sessions.Manager.child_died held pid s.sessions;
  greeters = Greeter.Manager.child_died pid s.greeters;
}

-- The loop over the children, with what the calls of `waitpid` will answer; a process has finitely
-- many children, and without one the answer is ECHILD.
unfoldable pub reap : List Wait → Action Server (Unit {0})
unfolding Sessions.Manager.child_died Greeter.Manager.child_died
reap [] s = ok tt s
reap (none_ended ∷ ws) s = ok tt s
reap (no_children ∷ ws) s = ok tt s
reap (wait_failed ∷ ws) s = err errno s
reap (child pid held ∷ ws) s = reap ws (child_ended pid held s)

pub data Signal : Type 0 where
  interrupt : Signal
  terminate : Signal
  child_signal : Signal
  pipe : Signal

-- `handleSignal`; the flag stands for a read of the descriptor that brought no signal.
unfoldable pub handle_signal : Bool → Signal → List Wait → Action Server (Unit {0})
unfolding reap
handle_signal true signal ws s = err errno s
handle_signal false interrupt ws s = ok tt (record s { run = false })
handle_signal false terminate ws s = ok tt (record s { run = false })
handle_signal false child_signal ws s = reap ws s
handle_signal false pipe ws s = ok tt s
