-- ===== src/Connection/Initialize.antt =====
-- The handshake of XvncConnection. A step that waits for the greeter's user ends with what it waits
-- for, and the handler that goes on from there is a function of its own.
use vncmanager.Base.{
  ℕ, Bool, Option, none, some, List, [], ◌∷◌, ◌++◌, length, take, drop, contains, same_bytes, ◌==◌,
  ◌||◌, ◌&&◌, not, if◌then◌else◌, Action, ok, pure, throw, ◌>>=◌, ◌>>◌, modify, check,
  connection_version, connection_refused, connection_no_security, connection_vencrypt_version,
  connection_vencrypt_status, connection_no_subtype, connection_not_none, assertion, gnutls_failed,
}
use vncmanager.Rfb.Values.{highest_version_string}
use vncmanager.Rfb.Values.SecurityType
use vncmanager.Rfb.Values.VencryptSubtype
use vncmanager.Rfb.Wire.{u8, u32}
use vncmanager.Rfb.Messages.Client.{client_init_message}
use vncmanager.Rfb.Messages.Server.{ServerInitMessage, server_init_message}
use vncmanager.Rfb.Messages.Vencrypt.{vencrypt_version, vencrypt_plain_message}
use vncmanager.Formatter.{recv_raw, send_raw, recv, send, recv_vector, recv_string}
use vncmanager.Connection.Key.{key}
use vncmanager.Connection.State.{State, fmt, set_desktop_name}

-- What `initialize` has reached when it returns: the end, with the handler of it to be called, or a
-- request to the user.
pub data Progress : Type 0 where
  initialized : Progress
  password_requested : Progress
  credentials_requested : Progress

unfoldable pub receive_failure_reason : Action State (List ℕ)
unfolding recv recv_string
receive_failure_reason = do n ← fmt (recv u32); fmt (recv_string n)

-- The first type offered that is supported, or Invalid.
abbrev pub select_type : List ℕ → List ℕ → ℕ
select_type supported [] = SecurityType.invalid
select_type supported (t ∷ ts) = if contains supported t then t else select_type supported ts

-- The list of types was received.
unfoldable pub choose_type : List ℕ → List ℕ → Action State ℕ
unfolding send
choose_type supported types = do
  let selected = select_type supported types
  check (not (selected == SecurityType.invalid)) connection_no_security
  fmt (send u8 selected)
  pure selected

abbrev discard : {A B : Type 0} → Action State A → Action State B → Action State B
discard m k = m >>= λ _. k

unfoldable pub receive_types : List ℕ → ℕ → Action State ℕ
unfolding receive_failure_reason recv_vector choose_type
receive_types supported n =
    if n == 0
    then discard receive_failure_reason (throw connection_refused)
    else (fmt (recv_vector u8 n) >>= choose_type supported)

unfoldable pub start_initialization : List ℕ → Action State ℕ
unfolding recv_raw send_raw recv receive_types
start_initialization supported = do
  version ← fmt (recv_raw 12)
  check (same_bytes version highest_version_string) connection_version
  fmt (send_raw version)
  n ← fmt (recv u8)
  receive_types supported n

unfoldable pub receive_security_result : Action State (Unit {0})
unfolding recv receive_failure_reason
receive_security_result = do
  status ← fmt (recv u32)
  if status == 0 then pure tt else discard receive_failure_reason (throw connection_refused)

unfoldable pub take_server_init : ServerInitMessage → Action State (Unit {0})
take_server_init m s = ok tt (record s {
  connection = record s.connection {
    framebuffer_width = m.framebuffer_width;
    framebuffer_height = m.framebuffer_height;
    pixel_format = m.server_pixel_format;
  };
})

unfoldable pub complete_initialization : Action State Progress
unfolding send recv recv_string take_server_init set_desktop_name
complete_initialization = do
  fmt (send client_init_message (record { shared = 1 }))
  server_init ← fmt (recv server_init_message)
  take_server_init server_init
  name ← fmt (recv_string server_init.name_length)
  modify (set_desktop_name name)
  pure initialized

unfoldable pub handle_none_security : Action State Progress
unfolding receive_security_result complete_initialization
handle_none_security = do receive_security_result; complete_initialization

-- The requests go to the greeter.
unfoldable pub handle_vnc_auth_security : Action State Progress
handle_vnc_auth_security = pure password_requested

-- gnutls' DES: the key and a block to the block enciphered, or a failure.
abbrev pub Cipher : Type 0
Cipher = List ℕ → List ℕ → Option (List ℕ)

abbrev pub run_cipher : Option (List ℕ) → Action State (List ℕ)
run_cipher none = throw gnutls_failed
run_cipher (some bs) = pure bs

module _ (encrypt : Cipher) where
  unfoldable pub handle_vnc_auth_security_with_password : List ℕ → Action State Progress
  unfolding recv_raw send_raw key receive_security_result complete_initialization
  handle_vnc_auth_security_with_password password = do
    challenge ← fmt (recv_raw 16)
    first ← run_cipher (encrypt (key password) (take 8 challenge))
    second ← run_cipher (encrypt (key password) (take 8 (drop 8 challenge)))
    fmt (send_raw (first ++ second))
    receive_security_result
    complete_initialization

unfoldable pub handle_vencrypt_security_with_credentials : List ℕ → List ℕ → Action State Progress
unfolding send send_raw receive_security_result complete_initialization
handle_vencrypt_security_with_credentials username password = do
  fmt (
      send vencrypt_plain_message
        (record { username_length = length username; password_length = length password }))
  fmt (send_raw username)
  fmt (send_raw password)
  receive_security_result
  complete_initialization

abbrev pub is_usable_subtype : ℕ → Bool
is_usable_subtype t =
    t == VencryptSubtype.plain || t == VencryptSubtype.no_security || t == VencryptSubtype.vnc_auth

-- The first usable subtype, or Invalid.
abbrev pub select_subtype : List ℕ → ℕ
select_subtype [] = VencryptSubtype.invalid
select_subtype (t ∷ ts) = if is_usable_subtype t then t else select_subtype ts

unfoldable pub handle_subtype : ℕ → Action State Progress
unfolding handle_none_security handle_vnc_auth_security
handle_subtype t =
    if t == VencryptSubtype.no_security
    then handle_none_security
    else (if t == VencryptSubtype.vnc_auth
        then handle_vnc_auth_security
        else (if t == VencryptSubtype.plain then pure credentials_requested else throw assertion))

unfoldable pub handle_vencrypt_security : Action State Progress
unfolding recv send recv_vector handle_subtype
handle_vencrypt_security = do
  version ← fmt (recv vencrypt_version)
  check (version.major == 0 && version.minor == 2) connection_vencrypt_version
  fmt (send vencrypt_version version)
  status ← fmt (recv u8)
  check (status == 0) connection_vencrypt_status
  n ← fmt (recv u8)
  subtypes ← fmt (recv_vector u32 n)
  let selected = select_subtype subtypes
  check (not (selected == VencryptSubtype.invalid)) connection_no_subtype
  fmt (send u32 selected)
  handle_subtype selected

-- `initialize()`, which expects security None.
unfoldable pub initialize_none : Action State Progress
unfolding start_initialization handle_none_security
initialize_none = do
  selected ← start_initialization (SecurityType.no_security ∷ [])
  check (selected == SecurityType.no_security) connection_not_none
  handle_none_security

unfoldable pub handle_type : ℕ → Action State Progress
unfolding handle_none_security handle_vnc_auth_security handle_vencrypt_security
handle_type t =
    if t == SecurityType.no_security
    then handle_none_security
    else (if t == SecurityType.vnc_auth
        then handle_vnc_auth_security
        else (if t == SecurityType.vencrypt then handle_vencrypt_security else throw assertion))

abbrev pub supported_types : List ℕ
supported_types = SecurityType.no_security ∷ SecurityType.vnc_auth ∷ SecurityType.vencrypt ∷ []

-- `initialize` with handlers.
unfoldable pub initialize : Action State Progress
unfolding start_initialization handle_type
initialize = do selected ← start_initialization supported_types; handle_type selected
