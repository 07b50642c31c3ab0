-- ===== src/Tunnel/Idle/Handshake.antt =====
-- The handshake with an Xvnc pushes nothing back.
use vncmanager.Base.{
  ℕ, ◌*◌, ◌≡◌, ◌&&◌, ◌++◌, take, drop, not, arith, Bool, true, ◌==◌, same_bytes, List, length,
  Option, none, some, Result, Action, ok, err, modify, throw, check, Error, Keeps, Post,
  Leads-throw, Leads-modify, Leads-if, Leads-bind, Keeps-check, Keeps-pure, ◌>>=◌,
  connection_version, connection_refused, connection_no_security, connection_vencrypt_version, ◌∷◌,
  [], connection_vencrypt_status, connection_no_subtype, connection_not_none, assertion,
  gnutls_failed,
}
use vncmanager.Rfb.Values.{highest_version_string}
use vncmanager.Rfb.Values.SecurityType
use vncmanager.Rfb.Values.VencryptSubtype
use vncmanager.Rfb.Wire.{Wire, u8, u32}
use vncmanager.Rfb.Messages.Client.{client_init_message}
use vncmanager.Rfb.Messages.Server.{server_init_message}
use vncmanager.Rfb.Messages.Vencrypt.{vencrypt_version, vencrypt_plain_message}
use vncmanager.Formatter.{Peer, recv_raw, send_raw, recv, send, recv_vector, recv_string}
use vncmanager.Formatter.Buffer.{
  IsClear, IsEnd, Clears, recv_raw-Clears, recv-Clears, recv_vector-Clears, recv_string-Clears,
}
use vncmanager.Connection.Key.{key}
use vncmanager.Connection.State.{State, fmt, set_desktop_name}
use vncmanager.Connection.Initialize.{
  initialized, password_requested, credentials_requested, receive_failure_reason, select_type,
  choose_type, receive_types, start_initialization, receive_security_result, take_server_init,
  complete_initialization, handle_none_security, handle_vnc_auth_security, Cipher, run_cipher,
  handle_vnc_auth_security_with_password, handle_vencrypt_security_with_credentials, select_subtype,
  handle_subtype, handle_vencrypt_security, initialize_none, handle_type, initialize,
  supported_types,
}
use vncmanager.Tunnel.Run.{is_connection_exception}
use vncmanager.Tunnel.Idle.{not_caught}

abbrev pub IsQuiet : State → Type 0
IsQuiet s = IsClear s.connection.peer

abbrev pub QuietIf : Error → State → Type 0
QuietIf e s = is_connection_exception e ≡ true → IsQuiet s

-- A step of the handshake, whether it goes on or throws.
abbrev pub Quiets : {A : Type 0} → Action State A → Type 0
Quiets m = Keeps IsQuiet QuietIf m

module _ {A : Type 0} (m : Action Peer A) where
  fmt_rest :
      (s : State) (r : Result Peer A)
      → Post (λ _ q. IsClear q) (λ e _. IsEnd e) r
      → Post
          (λ _ u. IsQuiet u)
          QuietIf
          (elim r [
            | ok a p ↦ ok a (record s { connection = record s.connection { peer = p } })
            | err e p ↦ err e (record s { connection = record s.connection { peer = p } })
          ])
  fmt_rest s (ok a q) h = h
  fmt_rest s (err e q) h = not_caught e h

  reads : (n : ℕ) → Clears n m → Quiets (fmt m)
  reads n k = record {
    at =
        λ s h. fmt_rest s (m s.connection.peer) (k s.connection.peer (ground arith) (ground arith));
  }

raw : (n : ℕ) → Quiets (fmt (recv_raw n))
raw n = reads _ n (recv_raw-Clears n)

text : (n : ℕ) → Quiets (fmt (recv_string n))
text n = reads _ n (recv_string-Clears n)

sends_raw : (bs : List ℕ) → Quiets (fmt (send_raw bs))
unfolding send_raw
sends_raw bs = record { at = λ s h. h }

-- Whatever is thrown, the buffer is empty.
throws : {A : Type 0} (e : Error) → Quiets (throw {A = A} e)
throws e = Leads-throw e (λ s h k. h)

checks : (b : Bool) (e : Error) → Quiets (check b e)
checks b e = Keeps-check b e (λ s h k. h)

module _ {T : Type 0} (w : Wire T) where
  value : Quiets (fmt (recv w))
  value = reads _ w.size (recv-Clears w)

  values : (n : ℕ) → Quiets (fmt (recv_vector w n))
  values n = reads _ (n * w.size) (recv_vector-Clears w n)

  sends : (v : T) → Quiets (fmt (send w v))
  unfolding send
  sends v = record { at = λ s h. h }

reason-Quiets : Quiets receive_failure_reason
unfolding receive_failure_reason
reason-Quiets = Leads-bind (fmt (recv u32)) _ (value u32) text

refused-Quiets :
    {A : Type 0} → Quiets (receive_failure_reason >>= λ r. throw {A = A} connection_refused)
refused-Quiets = Leads-bind receive_failure_reason _ reason-Quiets (λ _. throws connection_refused)

choose_type-Quiets : (supported types : List ℕ) → Quiets (choose_type supported types)
unfolding choose_type
choose_type-Quiets supported types =
    Leads-bind
      (check (not (select_type supported types == SecurityType.invalid)) connection_no_security) _
      (checks _ _)
      (λ _.
        Leads-bind (fmt (send u8 (select_type supported types))) _ (sends u8 _)
          (λ _. Keeps-pure (select_type supported types)))

receive_types-Quiets : (supported : List ℕ) (n : ℕ) → Quiets (receive_types supported n)
unfolding receive_types
receive_types-Quiets supported n = Leads-if (n == 0) _ _ refused-Quiets (
    Leads-bind (fmt (recv_vector u8 n)) (choose_type supported) (values u8 n)
      (choose_type-Quiets supported))

start-Quiets : (supported : List ℕ) → Quiets (start_initialization supported)
unfolding start_initialization
start-Quiets supported = Leads-bind (fmt (recv_raw 12)) _ (raw 12) (λ version.
    Leads-bind (check (same_bytes version highest_version_string) connection_version) _ (checks _ _)
      (λ _. Leads-bind (fmt (send_raw version)) _ (sends_raw version) (λ _.
        Leads-bind (fmt (recv u8)) (receive_types supported) (value u8)
          (receive_types-Quiets supported))))

result-Quiets : Quiets receive_security_result
unfolding receive_security_result
result-Quiets =
    Leads-bind (fmt (recv u32)) _ (value u32)
      (λ status. Leads-if (status == 0) _ _ (Keeps-pure tt) refused-Quiets)

complete-Quiets : Quiets complete_initialization
unfolding complete_initialization take_server_init set_desktop_name
complete-Quiets =
    Leads-bind (fmt (send client_init_message (record { shared = 1 }))) _
      (sends client_init_message _)
      (λ _. Leads-bind (fmt (recv server_init_message)) _ (value server_init_message) (λ m.
        Leads-bind (take_server_init m) _ (record { at = λ s h. h })
          (λ _. Leads-bind (fmt (recv_string m.name_length)) _ (text _) (λ name.
            Leads-bind (modify (set_desktop_name name)) _
              (Leads-modify (set_desktop_name name) (λ s h. h)) (λ _. Keeps-pure initialized)))))

none-Quiets : Quiets handle_none_security
unfolding handle_none_security
none-Quiets = Leads-bind receive_security_result _ result-Quiets (λ _. complete-Quiets)

auth-Quiets : Quiets handle_vnc_auth_security
unfolding handle_vnc_auth_security
auth-Quiets = Keeps-pure password_requested

subtype-Quiets : (k : ℕ) → Quiets (handle_subtype k)
unfolding handle_subtype
subtype-Quiets k = Leads-if (k == VencryptSubtype.no_security) _ _ none-Quiets (
    Leads-if (k == VencryptSubtype.vnc_auth) _ _ auth-Quiets (
      Leads-if (k == VencryptSubtype.plain) _ _ (Keeps-pure credentials_requested)
        (throws assertion)))

vencrypt-Quiets : Quiets handle_vencrypt_security
unfolding handle_vencrypt_security
vencrypt-Quiets = Leads-bind (fmt (recv vencrypt_version)) _ (value vencrypt_version) (λ version.
    Leads-bind (check (version.major == 0 && version.minor == 2) connection_vencrypt_version) _
      (checks _ _)
      (λ _.
        Leads-bind (fmt (send vencrypt_version version)) _ (sends vencrypt_version version) (λ _.
          Leads-bind (fmt (recv u8)) _ (value u8) (λ status.
            Leads-bind (check (status == 0) connection_vencrypt_status) _ (checks _ _) (λ _.
              Leads-bind (fmt (recv u8)) _ (value u8) (λ n.
                Leads-bind (fmt (recv_vector u32 n)) _ (values u32 n) (λ types.
                  Leads-bind
                    (check (not (select_subtype types == VencryptSubtype.invalid))
                      connection_no_subtype)
                    _ (checks _ _)
                    (λ _.
                      Leads-bind (fmt (send u32 (select_subtype types))) _ (sends u32 _)
                        (λ _. subtype-Quiets (select_subtype types))))))))))

type-Quiets : (k : ℕ) → Quiets (handle_type k)
unfolding handle_type
type-Quiets k = Leads-if (k == SecurityType.no_security) _ _ none-Quiets (
    Leads-if (k == SecurityType.vnc_auth) _ _ auth-Quiets
      (Leads-if (k == SecurityType.vencrypt) _ _ vencrypt-Quiets (throws assertion)))

pub initialize-Quiets : Quiets initialize
unfolding initialize
initialize-Quiets =
    Leads-bind (start_initialization supported_types) handle_type (start-Quiets supported_types)
      type-Quiets

pub initialize_none-Quiets : Quiets initialize_none
unfolding initialize_none
initialize_none-Quiets =
    Leads-bind (start_initialization (SecurityType.no_security ∷ [])) _
      (start-Quiets (SecurityType.no_security ∷ []))
      (λ selected.
        Leads-bind (check (selected == SecurityType.no_security) connection_not_none) _ (checks _ _)
          (λ _. none-Quiets))

pub credentials-Quiets :
    (username password : List ℕ)
    → Quiets (handle_vencrypt_security_with_credentials username password)
unfolding handle_vencrypt_security_with_credentials
credentials-Quiets username password =
    Leads-bind
      (fmt (
        send vencrypt_plain_message
          (record { username_length = length username; password_length = length password })))
      _ (sends vencrypt_plain_message _)
      (λ _. Leads-bind (fmt (send_raw username)) _ (sends_raw username) (λ _.
        Leads-bind (fmt (send_raw password)) _ (sends_raw password)
          (λ _. Leads-bind receive_security_result _ result-Quiets (λ _. complete-Quiets))))

cipher-Quiets : (o : Option (List ℕ)) → Quiets (run_cipher o)
cipher-Quiets none = throws gnutls_failed
cipher-Quiets (some bs) = Keeps-pure bs

pub password-Quiets :
    (encrypt : Cipher) (password : List ℕ)
    → Quiets (handle_vnc_auth_security_with_password encrypt password)
unfolding handle_vnc_auth_security_with_password
password-Quiets encrypt password = Leads-bind (fmt (recv_raw 16)) _ (raw 16) (λ challenge.
    Leads-bind (run_cipher (encrypt (key password) (take 8 challenge))) _ (cipher-Quiets _)
      (λ first.
        Leads-bind (run_cipher (encrypt (key password) (take 8 (drop 8 challenge)))) _
          (cipher-Quiets _)
          (λ second.
            Leads-bind (fmt (send_raw (first ++ second))) _ (sends_raw _)
              (λ _. Leads-bind receive_security_result _ result-Quiets (λ _. complete-Quiets)))))
