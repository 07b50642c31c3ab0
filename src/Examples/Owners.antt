-- ===== src/Examples/Owners.antt =====
-- Small inputs for the objects that own descriptors and processes.
use vncmanager.Base.{ℕ}
use vncmanager.Base.{◌≤◌, ◌<◌, ◌≡◌, arith, true, false, some, [], ◌∷◌, codes, length, after, Post}
use vncmanager.Stream.FdStream
use vncmanager.Stream.TlsStream.Session.{
  Gnutls, TlsOptions, dh_params_generate, done, not_fatal, construct, initialize, destroy,
}
use vncmanager.Stream.TlsStream.Counts.{count, releases, allocates, closes, dh_params}
use vncmanager.Stream.TlsStream.Handles.{initialize-destroy}
use vncmanager.Stream.TlsStream.Send.{takes, retry, send, socket, SameDelivery, send-SameDelivery}
use vncmanager.Base.{ok, List, none, refl}
use vncmanager.Sessions.DisplayNumber.{decimal}
use vncmanager.Sessions.Manager.{XvncManager, create_session, get_session_by_display_number}
use vncmanager.Sessions.Created.{spawn_of, create_session-finds}
use vncmanager.Examples.Sessions.{two_sessions, two_sessions-IsConsistent}
use vncmanager.Sessions.Start.{
  StartedXvnc, numbered, auth_path, socket_path, arguments, xauth_script, xauth_cookie, Host,
  XvncOptions, Answers, sun_path_size,
}
use vncmanager.Sessions.Start
use vncmanager.Sessions.Start.Laws.{Leaves, construct-Leaves}
use vncmanager.Sessions.Start.Address.{construct-Fits}

-- gnutls that fails to make the Diffie-Hellman parameters.
abbrev without_parameters : Gnutls
without_parameters = record {
  succeeds = λ c. elim c [ dh_params_generate ↦ false | _ ↦ true ];
  shakes = not_fatal ∷ done ∷ [];
}

abbrev tls_options : TlsOptions
tls_options = record {
  tls_priority_anonymous = codes "NORMAL:+ANON-DH";
  tls_priority_certificate = codes "NORMAL";
  tls_cert = codes "/etc/vnc/tls.cert";
  tls_key = codes "/etc/vnc/tls.key";
}

-- The parameters were made, the priority set, and the generation of the prime failed.
initialize-destroy_example :
    let calls =
      (destroy (after (initialize without_parameters tls_options (construct 9 true)))).calls in
    (count (releases dh_params) calls ≡ count (allocates without_parameters dh_params) calls)
    × (count (releases dh_params) calls ≤ 1)
    × (count closes calls ≡ 1)
initialize-destroy_example = initialize-destroy without_parameters tls_options 9 true dh_params

-- A send of four bytes that is interrupted once.
send-SameDelivery_example :
    SameDelivery
      (send (1 ∷ 2 ∷ 3 ∷ 4 ∷ []) (takes 2 ∷ retry ∷ takes 0 ∷ takes 2 ∷ []))
      (FdStream.send (1 ∷ 2 ∷ 3 ∷ 4 ∷ []) (socket (takes 2 ∷ retry ∷ takes 0 ∷ takes 2 ∷ [])))
send-SameDelivery_example =
    send-SameDelivery (1 ∷ 2 ∷ 3 ∷ 4 ∷ []) (takes 2 ∷ retry ∷ takes 0 ∷ takes 2 ∷ [])

-- A manager with two descriptors and a session.
abbrev manager : Host
manager = record { descriptors = 5 ∷ 4 ∷ []; children = 100 ∷ []; sun_path = []; xauth_input = [] }

abbrev xvnc_options : XvncOptions
xvnc_options = record {
  rundir = codes "/run/vncmanager";
  geometry = codes "1024x768";
  query = codes "localhost";
  xvnc = codes "/usr/bin/Xvnc";
  xauth = codes "/usr/bin/xauth";
  xvnc_args = [];
}

-- A system where everything succeeds, and Xvnc reports display 7.
abbrev answers : Answers
answers = record {
  mkdir = λ path. true;
  unlink = true;
  socket = some 6;
  bind = true;
  listen = true;
  pipe = some (7, 8);
  fork = some 101;
  displayfd = codes "7\n";
  open_xauth = true;
  popen = λ command. true;
  draws = 1 ∷ 2 ∷ 3 ∷ [];
}

construct-Leaves_example :
    Post
      (λ x t.
        (some 101 ≡ some x.pid) × ((t.descriptors ≡ 5 ∷ 4 ∷ []) × (t.children ≡ x.pid ∷ 100 ∷ [])))
      (λ e t. Leaves answers manager t)
      (Start.construct xvnc_options answers 3 false manager)
construct-Leaves_example =
    construct-Leaves answers manager (omega arith, omega arith) xvnc_options 3 false

construct-Fits_example :
    length (after (Start.construct xvnc_options answers 3 false manager)).sun_path < sun_path_size
construct-Fits_example = construct-Fits xvnc_options answers 3 false manager (omega arith)

abbrev auth_file : List ℕ
auth_file = numbered (auth_path xvnc_options) 3

abbrev third_xvnc : StartedXvnc
third_xvnc = record {
  id = 3;
  pid = 101;
  display_number = 7;
  socket_filename = numbered (socket_path xvnc_options) 3;
  xauth_filename = auth_file;
  argv = arguments xvnc_options false 8 auth_file;
}

abbrev later_manager : Host
later_manager = record {
  descriptors = 5 ∷ 4 ∷ [];
  children = 101 ∷ 100 ∷ [];
  sun_path = numbered (socket_path xvnc_options) 3;
  xauth_input = xauth_script 7 (xauth_cookie (1 ∷ 2 ∷ 3 ∷ []));
}

third_xvnc_constructed :
    Start.construct xvnc_options answers 3 false manager ≡ ok third_xvnc later_manager
unfolding Start.construct decimal
third_xvnc_constructed = refl

seven_reported : codes "7\n" ≡ decimal 7 (10 ∷ [])
unfolding decimal
seven_reported = refl

seven_unknown : get_session_by_display_number 7 two_sessions ≡ none
unfolding get_session_by_display_number
seven_unknown = refl

create_session-finds_example :
    (m' : XvncManager) × (create_session
        (spawn_of (Start.construct xvnc_options answers 3 false manager))
        two_sessions
      ≡ ok 3 m')
    × (get_session_by_display_number 7 m' ≡ some 3)
create_session-finds_example =
    create_session-finds xvnc_options answers false manager later_manager two_sessions third_xvnc 7
      [] two_sessions-IsConsistent third_xvnc_constructed seven_reported (omega arith) seven_unknown
