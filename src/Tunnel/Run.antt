-- ===== src/Tunnel/Run.antt =====
-- `VncTunnel::start`: the start of a session, and the loop with its exception handlers.
use vncmanager.Base.{
  ℕ, Bool, true, false, not, Option, none, some, List, [], ◌∷◌, ◌&&◌, ◌||◌, if◌then◌else◌, Action,
  ok, err, Error, errno, eof, modify, pure, throw, ◌>>◌, assertion, connection_version,
  connection_refused, connection_no_security, connection_vencrypt_version,
  connection_vencrypt_status, connection_no_subtype, connection_not_none, of_potential, check,
}
use vncmanager.Rfb.Values.SecurityType
use vncmanager.Formatter.{Peer}
use vncmanager.Sessions.Xvnc
use vncmanager.Sessions.Xvnc.{Xvnc}
use vncmanager.Sessions.Manager.{
  XvncManager, Spawn, create_session, has_visible_sessions, update_object,
}
use vncmanager.Connection.Initialize.{initialize_none, Cipher}
use vncmanager.Greeter.Connection.{GreeterConnection, spawned_greeter, update, show_error, Command}
use vncmanager.ReadSelector.{Handlers, add_fd, select}
use vncmanager.Tunnel.State.{Tunnel, plain, current_state, with_current_state}
use vncmanager.Tunnel.FromClient.{client_receive}
use vncmanager.Tunnel.FromServer.{server_receive}
use vncmanager.Tunnel.Security.{client_initialize}
use vncmanager.Tunnel.Switch.{
  delete_potential, delete_connection, greeter_command, on_greeter, opened_connection, no_format,
}

-- `catch (XvncConnection::ConnectionException &e)`
unfoldable pub is_connection_exception : Error → Bool
is_connection_exception connection_version = true
is_connection_exception connection_refused = true
is_connection_exception connection_no_security = true
is_connection_exception connection_vencrypt_version = true
is_connection_exception connection_vencrypt_status = true
is_connection_exception connection_no_subtype = true
is_connection_exception connection_not_none = true
is_connection_exception (of_potential e) = is_connection_exception e
is_connection_exception e = false

unfoldable pub is_eof : Error → Bool
is_eof eof = true
is_eof (of_potential e) = is_eof e
is_eof e = false

-- `e.faultyConnection() == m_potentialConnection`, where the exception is not the current one's.
abbrev pub from_potential : Error → Bool
from_potential (of_potential e) = true
from_potential e = false

-- What one round meets: the three descriptors, which of them are ready, what the greeter wrote, and
-- what a new session or connection would meet.
pub record Round : Type 0 where
  pub client_fd : ℕ
  pub server_fd : ℕ
  pub greeter_fd : ℕ
  pub ready : ℕ → Bool
  pub select_failed : Bool
  pub command : Command
  pub spawn : Spawn
  pub opened : Option Peer

abbrev pub or_assert :
    Option (Handlers Tunnel)
    → (Handlers Tunnel → Action Tunnel (Unit {0}))
    → Action Tunnel (Unit {0})
or_assert none k = throw assertion
or_assert (some hs) k = k hs

unfoldable pub update_greeter : Action Tunnel (Unit {0})
unfolding update
update_greeter t = elim t.greeter [
  | none ↦ ok tt t
  | some g ↦ elim (update t.manager g) [
    | ok u g' ↦ ok tt (record t { greeter = some g' })
    | err e g' ↦ err e (record t { greeter = some g' })
  ]
]

abbrev pub has_greeter : Option GreeterConnection → Bool
has_greeter none = false
has_greeter (some g) = true

module _ (encrypt : Cipher) where
  abbrev pub greeter_handlers : Round → Bool → Handlers Tunnel → Option (Handlers Tunnel)
  greeter_handlers r false hs = some hs
  greeter_handlers r true hs =
      add_fd r.greeter_fd (greeter_command encrypt r.spawn r.opened r.command) hs

  -- `VncTunnel::select`
  unfoldable pub tunnel_select : Round → Action Tunnel (Unit {0})
  unfolding add_fd select client_receive server_receive greeter_command
  tunnel_select r t =
      or_assert (add_fd r.client_fd client_receive [])
        (λ hs. or_assert (add_fd r.server_fd server_receive hs) (λ hs'.
          or_assert (greeter_handlers r (has_greeter t.greeter) hs') (
            select r.ready (λ s. s.pending_cancelation)
              (λ s. record s { pending_cancelation = false }) r.select_failed)))
        t

  unfoldable pub round : Round → Action Tunnel (Unit {0})
  unfolding update_greeter tunnel_select
  round r = do update_greeter; tunnel_select r

  -- Whether the loop goes on.
  pub data Next : Type 0 where
    goes_on : Next
    breaks : Next

  -- The `catch` clauses. `what` gives the exceptions' texts; a ConnectionException of the current
  -- connection is thrown again.
  unfoldable pub handle : (Error → List ℕ) → Error → Action Tunnel Next
  unfolding delete_potential show_error is_connection_exception is_eof
  handle what e t =
      if is_connection_exception e
      then ((do
        modify (on_greeter (show_error (what e)))
        check (from_potential e) e
        delete_potential
        modify (λ s. record s { potential = none })
        pure goes_on)
          t)
      else (if is_eof e then ok breaks t else err e t)

  unfoldable pub guarded_round : (Error → List ℕ) → Round → Action Tunnel Next
  unfolding round handle
  guarded_round what r t = elim (round r t) [
    | ok u t' ↦ ok goes_on t'
    | err e t' ↦ handle what e t'
  ]

  -- `while (true)` over the rounds to come.
  unfoldable pub serve : (Error → List ℕ) → List Round → Action Tunnel Next
  unfolding guarded_round
  serve what [] t = ok goes_on t
  serve what (r ∷ rs) t = elim (guarded_round what r t) [
    | ok next t' ↦ elim next [ goes_on ↦ serve what rs t' | breaks ↦ ok breaks t' ]
    | err e t' ↦ err e t'
  ]

-- The destructor.
unfoldable pub destroy : Action Tunnel (Unit {0})
unfolding delete_connection delete_potential
destroy t =
    ((do modify (λ s. record s { greeter = none }); delete_connection t.current; delete_potential)
      t)

-- What the options "disable-manager" and "always-show-greeter" and the list of "security" say.
pub record Options : Type 0 where
  pub disable_manager : Bool
  pub always_show_greeter : Bool
  pub security : List ℕ

unfoldable pub shows_greeter : Options → XvncManager → Bool
unfolding has_visible_sessions
shows_greeter o m = not o.disable_manager && (o.always_show_greeter || has_visible_sessions m)

-- The members as the constructor leaves them, with the connection to the new session.
abbrev pub started_tunnel : Bool → Option GreeterConnection → Peer → ℕ → Peer → XvncManager → Tunnel
started_tunnel show greeter client i server m = record {
  client = client;
  transport = plain;
  current = opened_connection i server;
  potential = none;
  greeter = greeter;
  manager = m;
  security_type = SecurityType.invalid;
  pixel_format = no_format;
  supported_encodings_client = [];
  supported_encodings_server = [];
  tight_zlib_reset_queued = false;
  desktop_name_change_queued = false;
  tight_encoding_disabled = show;
  pending_cancelation = false;
}

unfoldable pub initialize_current : Action Tunnel (Unit {0})
unfolding initialize_none
initialize_current t = elim (initialize_none (current_state t)) [
  | ok p s ↦ ok tt (record (with_current_state s t) { pixel_format = s.connection.pixel_format })
  | err e s ↦ err e (with_current_state s t)
]

-- The greeter, if one is shown; `none` is an exception of `createGreeter`.
abbrev pub created_greeter : Bool → Option ℕ → Option (Option GreeterConnection)
created_greeter false pid = some none
created_greeter true none = none
created_greeter true (some pid) = some (some (spawned_greeter pid))

-- `start` up to the loop: the session, the greeter with its process id, the connection, and the
-- client's handshake.
module _ (o : Options) (handshake : Bool → Bool) where
  unfoldable pub begin_session : Spawn → Option ℕ → Peer → Option Peer → Action XvncManager Tunnel
  unfolding shows_greeter create_session Xvnc.connected
  begin_session spawn greeter_pid client opened m =
      let show = shows_greeter o m in
      elim (create_session spawn m) [
        | ok i m' ↦ elim (created_greeter show greeter_pid) [
          | none ↦ err errno m'
          | some greeter ↦ elim opened [
            | none ↦ err errno m'
            | some server ↦
                let m'' = record m' { objects = update_object i Xvnc.connected m'.objects } in
                ok (started_tunnel show greeter client i server m'') m''
          ]
        ]
        | err e m' ↦ err e m'
      ]

  unfoldable pub prepare : Action Tunnel (Unit {0})
  unfolding initialize_current client_initialize
  prepare = do initialize_current; client_initialize o.security handshake
