-- ===== src/Tunnel/Switch.antt =====
-- Switching to another Xvnc: the greeter's handlers, `switchToConnection` and `connectionSwitched`.
pub mod Laws
use vncmanager.Base.{
  ℕ, Bool, true, false, Option, none, some, ◌∷◌, ltb, if◌then◌else◌, Action, ok, err, errno,
  of_potential, gets, modify, pure, check, when, ◌>>=◌, ◌>>◌, null_pointer, use_after_free,
  bad_function_call, assertion,
}
use vncmanager.Rfb.Values.EncodingType
use vncmanager.Rfb.Pixel.{PixelFormat, other_format}
use vncmanager.Formatter.{Peer}
use vncmanager.Sessions.Xvnc
use vncmanager.Sessions.Xvnc.{Xvnc}
use vncmanager.Sessions.Manager.{
  XvncManager, Spawn, create_session, get_session, object, update_object,
}
use vncmanager.Connection.State.{Connection, State}
use vncmanager.Connection.Initialize.{
  Progress, initialized, password_requested, credentials_requested, initialize, Cipher,
  handle_vnc_auth_security_with_password, handle_vencrypt_security_with_credentials,
}
use vncmanager.Connection.Requests.{
  send_set_pixel_format, send_set_encodings, send_non_incremental_framebuffer_update_request,
}
use vncmanager.Greeter.Connection.{
  GreeterConnection, ask_for_password, ask_for_credentials, Command, new_session, open_session,
  password_given, credentials_given, no_command,
}
use vncmanager.Tunnel.State.{Tunnel, on_current, client_supports_encoding}

-- `m_selector.cancel()`
abbrev pub cancel : Action Tunnel (Unit {0})
cancel = modify (λ t. record t { pending_cancelation = true })

abbrev pub count_down : Xvnc → Xvnc
count_down x = elim (Xvnc.disconnect x) [ none ↦ x | some y ↦ y ]

-- `delete` of a connection: `m_xvnc->disconnect()`, with its assertion.
abbrev pub has_connection : Option Xvnc → Bool
has_connection none = true
has_connection (some x) = ltb 0 x.connection_count

unfoldable pub delete_connection : Connection → Action Tunnel (Unit {0})
unfolding Xvnc.disconnect
delete_connection c t =
    if has_connection (object c.xvnc t.manager.objects)
    then ok tt (record t {
      manager = record t.manager { objects = update_object c.xvnc count_down t.manager.objects };
    })
    else err assertion t

unfoldable pub delete_potential : Action Tunnel (Unit {0})
unfolding delete_connection
delete_potential t = elim t.potential [ none ↦ ok tt t | some c ↦ delete_connection c t ]

-- A fresh connection: nothing is known of the server yet.
abbrev pub no_format : PixelFormat
no_format = record {
  bits_per_pixel = 0;
  depth = 0;
  big_endian_flag = 0;
  true_colour_flag = 0;
  red_max = 0;
  green_max = 0;
  blue_max = 0;
  red_shift = 0;
  green_shift = 0;
  blue_shift = 0;
  padding = 0;
}

abbrev pub opened_connection : ℕ → Peer → Connection
opened_connection i p = record {
  xvnc = i;
  peer = p;
  framebuffer_width = 0;
  framebuffer_height = 0;
  pixel_format = no_format;
}

-- `m_potentialConnection = new XvncConnection(xvnc)`. The pointer may be null, and the socket calls
-- of `Xvnc::connect` may fail; then the member keeps the pointer that was deleted before.
unfoldable pub new_potential : Option ℕ → Option Peer → Action Tunnel (Unit {0})
unfolding Xvnc.connected
new_potential none opened t = err null_pointer t
new_potential (some i) none t = err errno t
new_potential (some i) (some p) t = ok tt (record t {
  potential = some (opened_connection i p);
  manager = record t.manager { objects = update_object i Xvnc.connected t.manager.objects };
})

-- A method of `m_potentialConnection`, or of the connection that a handler was bound to.
abbrev pub on_potential : {A : Type 0} → Action State A → Action Tunnel A
on_potential m t = elim t.potential [
  | none ↦ err use_after_free t
  | some c ↦ elim (m (record { connection = c; manager = t.manager })) [
    | ok a s ↦ ok a (record t { potential = some s.connection; manager = s.manager })
    | err e s ↦
        err (of_potential e) (record t { potential = some s.connection; manager = s.manager })
  ]
]

-- `m_currentConnection = m_potentialConnection; m_potentialConnection = nullptr`
unfoldable pub promote : Action Tunnel (Unit {0})
promote t = elim t.potential [
  | none ↦ err assertion t
  | some c ↦ ok tt (record t { current = c; potential = none })
]

abbrev pub has_greeter : Option GreeterConnection → Bool
has_greeter none = false
has_greeter (some g) = true

abbrev pub has_potential : Option Connection → Bool
has_potential none = false
has_potential (some c) = true

unfoldable pub release_greeter : Action Tunnel (Unit {0})
release_greeter = do
  g ← gets (λ t. t.greeter)
  check (has_greeter g) assertion
  modify (λ t. record t { greeter = none })

unfoldable pub replace_current : Action Tunnel (Unit {0})
unfolding delete_connection promote
replace_current = do
  p ← gets (λ t. t.potential)
  check (has_potential p) assertion
  c ← gets (λ t. t.current)
  delete_connection c
  promote

-- What the new server is told before it sends anything.
unfoldable pub brief_server : Action Tunnel (Unit {0})
unfolding send_set_pixel_format send_set_encodings send_non_incremental_framebuffer_update_request
brief_server t =
    ((do
      when (other_format t.current.pixel_format t.pixel_format)
          (on_current (send_set_pixel_format t.pixel_format))
      on_current (send_set_encodings t.supported_encodings_server)
      on_current send_non_incremental_framebuffer_update_request)
      t)

unfoldable pub queue_changes : Action Tunnel (Unit {0})
queue_changes t =
    let t' = record t { tight_zlib_reset_queued = true } in
    ok tt (
      if client_supports_encoding EncodingType.desktop_name t'
      then record t' { desktop_name_change_queued = true }
      else t')

unfoldable pub connection_switched : Action Tunnel (Unit {0})
unfolding release_greeter replace_current brief_server queue_changes
connection_switched = do release_greeter; replace_current; cancel; brief_server; queue_changes

abbrev pub on_greeter : (GreeterConnection → GreeterConnection) → Tunnel → Tunnel
on_greeter f t = elim t.greeter [ none ↦ t | some g ↦ record t { greeter = some (f g) } ]

-- What the connection's handlers do when its handshake has come so far.
unfoldable pub proceed : Progress → Action Tunnel (Unit {0})
unfolding connection_switched ask_for_password ask_for_credentials
proceed initialized = connection_switched
proceed password_requested = modify (on_greeter ask_for_password)
proceed credentials_requested = modify (on_greeter ask_for_credentials)

unfoldable pub enable_tight : Action Tunnel (Unit {0})
enable_tight t =
    if t.tight_encoding_disabled
    then ok tt (
        if client_supports_encoding EncodingType.tight t
        then record t {
          tight_encoding_disabled = false;
          supported_encodings_server = EncodingType.tight ∷ t.supported_encodings_server;
        }
        else record t { tight_encoding_disabled = false })
    else ok tt t

unfoldable pub switch_to_connection : Option ℕ → Option Peer → Action Tunnel (Unit {0})
unfolding enable_tight delete_potential new_potential initialize proceed
switch_to_connection xvnc opened = do
  enable_tight
  delete_potential
  new_potential xvnc opened
  cancel
  g ← gets (λ t. t.greeter)
  check (has_greeter g) assertion
  progress ← on_potential initialize
  proceed progress

unfoldable pub open_session_handler : Option ℕ → Option Peer → Action Tunnel (Unit {0})
unfolding get_session switch_to_connection
open_session_handler none opened = switch_to_connection none opened
open_session_handler (some i) opened = do
  found ← gets (λ t. get_session i t.manager)
  switch_to_connection found opened

abbrev pub on_manager : {A : Type 0} → Action XvncManager A → Action Tunnel A
on_manager m t = elim (m t.manager) [
  | ok a s ↦ ok a (record t { manager = s })
  | err e s ↦ err e (record t { manager = s })
]

unfoldable pub new_session_handler : Spawn → Option Peer → Action Tunnel (Unit {0})
unfolding create_session switch_to_connection
new_session_handler spawn opened = do
  i ← on_manager (create_session spawn)
  switch_to_connection (some i) opened

abbrev pub has_password_handler : Option GreeterConnection → Bool
has_password_handler none = false
has_password_handler (some g) = g.password_handler

abbrev pub has_credentials_handler : Option GreeterConnection → Bool
has_credentials_handler none = false
has_credentials_handler (some g) = g.credentials_handler

-- `GreeterConnection::receive` once it has read its command; the processes and sockets that a command
-- may need are arguments.
unfoldable pub greeter_command : Cipher → Spawn → Option Peer → Command → Action Tunnel (Unit {0})
unfolding new_session_handler open_session_handler handle_vnc_auth_security_with_password
    handle_vencrypt_security_with_credentials proceed
greeter_command encrypt spawn opened new_session = new_session_handler spawn opened
greeter_command encrypt spawn opened (open_session i) = open_session_handler i opened
greeter_command encrypt spawn opened (password_given password) = do
  g ← gets (λ t. t.greeter)
  check (has_password_handler g) bad_function_call
  progress ← on_potential (handle_vnc_auth_security_with_password encrypt password)
  proceed progress
greeter_command encrypt spawn opened (credentials_given username password) = do
  g ← gets (λ t. t.greeter)
  check (has_credentials_handler g) bad_function_call
  progress ← on_potential (handle_vencrypt_security_with_credentials username password)
  proceed progress
greeter_command encrypt spawn opened no_command = pure tt
