-- ===== src/Tunnel/Security.antt =====
-- `VncTunnel::clientInitalize` and the security handshake with the client.
pub mod Encryption
use vncmanager.Base.{
  ℕ, ◌%◌, codes, Bool, true, false, not, List, [], ◌∷◌, length, contains, same_bytes, ◌==◌, ◌||◌,
  ◌&&◌, if◌then◌else◌, Action, ok, err, modify, throw, check, ◌>>=◌, ◌>>◌, unsupported_version,
  invalid_security_type, unsupported_vencrypt_version, invalid_vencrypt_subtype, tls_failed,
  assertion,
}
use vncmanager.Rfb.Values.{highest_version_string, security_ok, security_failed}
use vncmanager.Rfb.Values.SecurityType
use vncmanager.Rfb.Values.VencryptSubtype
use vncmanager.Rfb.Wire.{u8, u32}
use vncmanager.Rfb.Messages.Client.{client_init_message}
use vncmanager.Rfb.Messages.Server.{server_init_message}
use vncmanager.Rfb.Messages.Vencrypt.{VencryptVersion, vencrypt_version}
use vncmanager.Formatter.{recv_raw, send_raw, recv, send, send_vector}
use vncmanager.Tunnel.State.{Tunnel, tls, on_client, desktop_name}

abbrev pub is_tls_subtype : ℕ → Bool
is_tls_subtype t = t == VencryptSubtype.tls_none || t == VencryptSubtype.x509_none

-- The loop of `configuredSecurityTypes`; the flag is `venCryptIncluded`. The configuration holds no
-- other subtype; at one the code asserts, and without assertions it goes on as here.
unfoldable pub configured_types : Bool → List ℕ → List ℕ
configured_types included [] = []
configured_types included (t ∷ ts) =
    if t == VencryptSubtype.no_security
    then SecurityType.no_security ∷ configured_types included ts
    else (if is_tls_subtype t && not included
        then SecurityType.vencrypt ∷ configured_types true ts
        else configured_types included ts)

unfoldable pub configured_security_types : List ℕ → List ℕ
unfolding configured_types
configured_security_types subtypes = configured_types false subtypes

abbrev version_reason : List ℕ
version_reason = codes "Client version is not supported."

abbrev type_reason : List ℕ
type_reason = codes "Client chosen invalid security type."

abbrev subtype_reason : List ℕ
subtype_reason = codes "Client chosen invalid VeNCrypt security subtype."

unfoldable pub send_reason : List ℕ → Action Tunnel (Unit {0})
unfolding send send_raw
send_reason reason = do on_client (send u32 (length reason)); on_client (send_raw reason)

unfoldable pub finish_client_initialization : Action Tunnel (Unit {0})
unfolding recv send send_raw
finish_client_initialization = do
  on_client (recv client_init_message) >>= λ _. do
    t ← (λ s. ok s s)
    on_client (
        send server_init_message (record {
          framebuffer_width = t.current.framebuffer_width;
          framebuffer_height = t.current.framebuffer_height;
          server_pixel_format = t.current.pixel_format;
          name_length = length (desktop_name t);
        }))
    on_client (send_raw (desktop_name t))

unfoldable pub handle_none_security : Action Tunnel (Unit {0})
unfolding send finish_client_initialization
handle_none_security = do on_client (send u32 security_ok); finish_client_initialization

-- The configuration's list of subtypes, and whether gnutls' handshake, anonymous or not, succeeds.
module _ (subtypes : List ℕ) (handshake : Bool → Bool) where
  -- `takeFd`, the new TLSStream with a formatter of its own, and `initialize`.
  unfoldable pub start_tls : Bool → Action Tunnel (Unit {0})
  start_tls anonymous t =
      let t' = record t { transport = tls anonymous; client = record t.client { pushed = [] } } in
      if handshake anonymous then ok tt t' else err tls_failed t'

  unfoldable pub handle_subtype : ℕ → Action Tunnel (Unit {0})
  unfolding start_tls handle_none_security
  handle_subtype t =
      if is_tls_subtype t
      then (do start_tls (t == VencryptSubtype.tls_none); handle_none_security)
      else (if t == VencryptSubtype.no_security then handle_none_security else throw assertion)

  unfoldable pub refuse_subtype : Action Tunnel (Unit {0})
  unfolding send send_raw
  refuse_subtype = do
    on_client (send u8 0)
    on_client (send u32 security_failed)
    on_client (send u32 (length subtype_reason))
    on_client (send_raw subtype_reason)
    throw invalid_vencrypt_subtype

  unfoldable pub choose_subtype : ℕ → Action Tunnel (Unit {0})
  unfolding refuse_subtype send handle_subtype
  choose_subtype t =
      if contains subtypes t then (do on_client (send u8 1); handle_subtype t) else refuse_subtype

  abbrev pub bad_version : VencryptVersion → ℕ
  bad_version v = if v.major == 0 && v.minor == 2 then 0 else 1

  unfoldable pub handle_vencrypt_security : Action Tunnel (Unit {0})
  unfolding send recv send_vector choose_subtype
  handle_vencrypt_security = do
    on_client (send vencrypt_version (record { major = 0; minor = 2 }))
    version ← on_client (recv vencrypt_version)
    on_client (send u8 (bad_version version))
    check (bad_version version == 0) unsupported_vencrypt_version
    on_client (send u8 (length subtypes % 256))
    on_client (send_vector u32 subtypes)
    selected ← on_client (recv u32)
    choose_subtype selected

  unfoldable pub handle_type : ℕ → Action Tunnel (Unit {0})
  unfolding handle_none_security handle_vencrypt_security
  handle_type t =
      if t == SecurityType.no_security
      then handle_none_security
      else (if t == SecurityType.vencrypt then handle_vencrypt_security else throw assertion)

  unfoldable pub refuse_version : Action Tunnel (Unit {0})
  unfolding send send_reason
  refuse_version = do on_client (send u8 0); send_reason version_reason; throw unsupported_version

  unfoldable pub refuse_type : Action Tunnel (Unit {0})
  unfolding send send_reason
  refuse_type = do
    on_client (send u32 security_failed)
    send_reason type_reason
    throw invalid_security_type

  unfoldable pub choose_type : ℕ → Action Tunnel (Unit {0})
  unfolding refuse_type handle_type configured_security_types
  choose_type t =
      if contains (configured_security_types subtypes) t
      then (do handle_type t; modify (λ s. record s { security_type = t }))
      else refuse_type

  unfoldable pub negotiate : Action Tunnel (Unit {0})
  unfolding send send_vector recv choose_type configured_security_types
  negotiate = do
    on_client (send u8 (length (configured_security_types subtypes) % 256))
    on_client (send_vector u8 (configured_security_types subtypes))
    chosen ← on_client (recv u8)
    choose_type chosen

  -- `clientInitalize`
  unfoldable pub client_initialize : Action Tunnel (Unit {0})
  unfolding send_raw recv_raw refuse_version negotiate
  client_initialize = do
    on_client (send_raw highest_version_string)
    version ← on_client (recv_raw 12)
    if same_bytes version highest_version_string then negotiate else refuse_version
