-- ===== src/Examples/Runs.antt =====
-- A small run of a whole tunnel.
use vncmanager.Base.{◌≡◌, arith, refl, false, true, none, some, ◌==◌, [], ◌∷◌, ◌++◌, ok, after}
use vncmanager.Rfb.Values.{highest_version_string}
use vncmanager.Rfb.Values.SecurityType
use vncmanager.Rfb.Values.VencryptSubtype
use vncmanager.Formatter.{Peer}
use vncmanager.Sessions.Manager.{XvncManager, spawned, not_spawned}
use vncmanager.Connection.Initialize.{Cipher}
use vncmanager.Greeter.Connection.{no_command}
use vncmanager.Tunnel.State.{Tunnel}
use vncmanager.Tunnel.FromClient.{process_key_event}
use vncmanager.Tunnel.Run.{
  Options, Round, goes_on, breaks, begin_session, prepare, serve, started_tunnel,
}
use vncmanager.Tunnel.Idle.{IsIdle}
use vncmanager.Tunnel.Idle.Rounds.{serve-IsIdle}
use vncmanager.Tunnel.Idle.Ends.{AreDistinct, Lives, HasEnded, server_closed, serve-breaks}

-- A client that asks for None, shares the session and presses a key.
abbrev typing_client : Peer
typing_client = record {
  stream = record {
    input =
        highest_version_string
        ++ (SecurityType.no_security ∷ 1 ∷ (4 ∷ 1 ∷ 0 ∷ 0 ∷ 0 ∷ 0 ∷ 0 ∷ 65 ∷ []));
    output = [];
  };
  pushed = [];
}

-- An Xvnc with a picture of 2 by 2 pixels and no name.
abbrev small_server : Peer
small_server = record {
  stream = record {
    input =
        highest_version_string
        ++ (1
            ∷ SecurityType.no_security
            ∷ 0
            ∷ 0
            ∷ 0
            ∷ 0
            ∷ (0
                ∷ 2
                ∷ 0
                ∷ 2
                ∷ (32
                    ∷ 24
                    ∷ 0
                    ∷ 1
                    ∷ 0
                    ∷ 255
                    ∷ 0
                    ∷ 255
                    ∷ 0
                    ∷ 255
                    ∷ 16
                    ∷ 8
                    ∷ 0
                    ∷ 0
                    ∷ 0
                    ∷ 0
                    ∷ (0 ∷ 0 ∷ 0 ∷ 0 ∷ []))));
    output = [];
  };
  pushed = [];
}

abbrev open_options : Options
open_options = record {
  disable_manager = true;
  always_show_greeter = false;
  security = VencryptSubtype.no_security ∷ [];
}

abbrev no_sessions : XvncManager
no_sessions = record { objects = []; xvncs = []; next_id = 0; session_list_version = 0 }

-- The session list once the session is there and connected to.
abbrev one_connected : XvncManager
one_connected = after (
    begin_session open_options (λ a. true) (spawned 100 3) none typing_client (some small_server)
      no_sessions)

abbrev begun : Tunnel
begun = started_tunnel false none typing_client 0 small_server one_connected

begun_lem :
    begin_session open_options
      (λ a. true)
      (spawned 100 3)
      none
      typing_client
      (some small_server)
      no_sessions
    ≡ ok begun one_connected
unfolding begin_session
begun_lem = refl

abbrev prepared : Tunnel
prepared = after (prepare open_options (λ a. true) begun)

prepared_lem : prepare open_options (λ a. true) begun ≡ ok tt prepared
unfolding prepare begin_session
prepared_lem = refl

abbrev plain_cipher : Cipher
plain_cipher key block = some block

-- The client's key is ready.
abbrev pressing : Round
pressing = record {
  client_fd = 3;
  server_fd = 4;
  greeter_fd = 5;
  ready = λ n. n == 3;
  select_failed = false;
  command = no_command;
  spawn = not_spawned;
  opened = none;
}

abbrev pressed : Tunnel
pressed = after (serve plain_cipher (λ e. []) (pressing ∷ []) prepared)

pressed_lem : serve plain_cipher (λ e. []) (pressing ∷ []) prepared ≡ ok goes_on pressed
unfolding serve prepare begin_session process_key_event
pressed_lem = refl

-- The key went to the server.
pressed_key :
    pressed.current.peer.output
    ≡ prepared.current.peer.output ++ (4 ∷ 1 ∷ 0 ∷ 0 ∷ 0 ∷ 0 ∷ 0 ∷ 65 ∷ [])
unfolding serve prepare begin_session process_key_event
pressed_key = refl

serve-IsIdle_example : IsIdle pressed
serve-IsIdle_example =
    serve-IsIdle open_options (λ a. true) plain_cipher (λ e. []) (spawned 100 3) none typing_client
      (some small_server) no_sessions one_connected begun prepared pressed (pressing ∷ []) refl refl
      (tt, tt) begun_lem prepared_lem pressed_lem

-- The server has nothing more to say.
abbrev closing : Round
closing = record pressing { ready = λ n. n == 4 }

closing-AreDistinct : AreDistinct closing
closing-AreDistinct = record {
  client_server = λ h. absurd (omega arith);
  client_greeter = λ h. absurd (omega arith);
  server_greeter = λ h. absurd (omega arith);
}

prepared-IsIdle : IsIdle prepared
unfolding prepare begin_session
prepared-IsIdle = (refl, refl, tt)

prepared-Lives : Lives prepared.greeter
unfolding prepare begin_session
prepared-Lives = tt

prepared-HasEnded : HasEnded closing prepared
unfolding prepare begin_session
prepared-HasEnded = server_closed refl (λ k. refl)

serve-breaks_example :
    (u : Tunnel) × (serve plain_cipher (λ e. []) (closing ∷ pressing ∷ []) prepared ≡ ok breaks u)
serve-breaks_example =
    serve-breaks plain_cipher (λ e. []) closing (pressing ∷ []) prepared closing-AreDistinct refl
      prepared-IsIdle prepared-Lives prepared-HasEnded
