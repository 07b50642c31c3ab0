-- ===== src/Examples/Servers.antt =====
-- Small inputs for the server's sockets and its loop.
use vncmanager.Base.{
  ◌≡◌, ◌≢◌, refl, true, false, none, some, [], ◌∷◌, ◌++◌, codes, ok, Post, ◌==◌, if◌then◌else◌,
}
use vncmanager.Server.{child, no_children, terminate, child_signal}
use vncmanager.Server.Listen
use vncmanager.Server.Listen.{inet, inet6, GetAddressInfo, no_sockets}
use vncmanager.Server.Listen.Members.{IsUp, IsDown, construct-IsUp}
use vncmanager.Controller.Manager.{ControllerAnswers}
use vncmanager.Sessions.Start.{Host}
use vncmanager.Server.Run.{Round, Main, selector, run}
use vncmanager.Server.Run.Laws.{IsQuiet, run_lem}
use vncmanager.Server.Run.Table.{IsCalm}
use vncmanager.Greeter.Manager.Lifetime.{no_greeters}
use vncmanager.Examples.Sessions.{two_sessions}

-- The port is in use for IPv4 and free for IPv6.
abbrev half_free : GetAddressInfo
half_free address port = some (
    record { family = inet; socket = some 5; setsockopt = true; bind = false; listen = true }
    ∷ record { family = inet6; socket = some 5; setsockopt = true; bind = true; listen = true }
    ∷ [])

-- The control socket gets descriptor 3, and the one for signals 4.
abbrev control_answers : ControllerAnswers
control_answers = record {
  mkdir = true;
  unlink = true;
  socket = some 3;
  bind = true;
  chmod = true;
  listen = true;
}

abbrev fresh_host : Host
fresh_host = record { descriptors = 2 ∷ []; children = []; sun_path = []; xauth_input = [] }

construct-IsUp_example :
    Post
      (λ _ t. IsUp (some 4) fresh_host t)
      (λ e t. IsDown (some 4) fresh_host e t)
      (Listen.construct control_answers
        (codes "/run/vncmanager")
        half_free
        true
        (some 4)
        none
        (codes "5900")
        (no_sockets fresh_host))
construct-IsUp_example =
    construct-IsUp control_answers (codes "/run/vncmanager") half_free true (some 4) none
      (codes "5900") fresh_host

-- A client comes, and a child ends.
abbrev busy_round : Round
busy_round = record {
  failed = false;
  ready = λ fd. if fd == 6 then false else true;
  accept4 = λ fd. some 9;
  signal_failed = false;
  signal = child_signal;
  waits = child 100 false ∷ no_children ∷ [];
}

abbrev last_round : Round
last_round = record (busy_round) { signal = terminate }

abbrev waiting : Main
waiting = record {
  server = record { run = false; sessions = two_sessions; greeters = no_greeters };
  tunnels = [];
  controllers = [];
  now = busy_round;
}

busy_round-IsQuiet : IsQuiet 4 busy_round
busy_round-IsQuiet = (
  record { selected = refl; accepted = λ fd h e. cc e; signalled = refl; waited = refl },
  λ h. refl,
)

last_round-IsCalm : IsCalm last_round
last_round-IsCalm = record {
  selected = refl;
  accepted = λ fd h e. cc e;
  signalled = refl;
  waited = refl;
}

selector_added : selector (5 ∷ []) 4 6 ≢ none
unfolding selector
selector_added e = cc e

run_lem_example :
    (t : Main) × (run (5 ∷ []) 4 6 ((busy_round ∷ []) ++ (last_round ∷ busy_round ∷ [])) waiting
      ≡ ok (busy_round ∷ []) t)
    × (t.server.run ≡ false)
run_lem_example =
    run_lem (5 ∷ []) 4 6 (busy_round ∷ []) last_round (busy_round ∷ []) waiting selector_added
      (busy_round-IsQuiet, tt) last_round-IsCalm refl refl
