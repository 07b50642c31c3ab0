-- ===== src/Tunnel/Idle/Client.antt =====
-- The start of a tunnel leaves the push-back buffers empty.
use vncmanager.Base.{
  ℕ, ◌%◌, refl, Bool, ◌==◌, contains, same_bytes, List, length, Result, ok, err, throw, check,
  Error, Post, Leads-throw, Leads-modify, Leads-if, Leads-bind, Keeps-check,
  unsupported_vencrypt_version, assertion, Bool-cases, inl, inr,
}
use vncmanager.Rfb.Values.{highest_version_string, security_ok}
use vncmanager.Rfb.Values.SecurityType
use vncmanager.Rfb.Values.VencryptSubtype
use vncmanager.Rfb.Wire.{u8, u32}
use vncmanager.Rfb.Messages.Client.{client_init_message}
use vncmanager.Rfb.Messages.Vencrypt.{vencrypt_version}
use vncmanager.Formatter.{recv_raw, send_raw, recv, send, send_vector}
use vncmanager.Formatter.Buffer.{recv_raw-Clears, recv-Clears}
use vncmanager.Connection.State.{State}
use vncmanager.Connection.Initialize.{Progress, initialize_none}
use vncmanager.Tunnel.State.{Tunnel, on_client, current_state, with_current_state}
use vncmanager.Tunnel.Security.{
  is_tls_subtype, configured_security_types, send_reason, finish_client_initialization,
  handle_none_security, start_tls, handle_subtype, refuse_subtype, choose_subtype, bad_version,
  handle_vencrypt_security, handle_type, refuse_version, refuse_type, choose_type, negotiate,
  client_initialize,
}
use vncmanager.Tunnel.Run.{Options, initialize_current, prepare}
use vncmanager.Tunnel.Idle.{
  IsIdle, IsSpared, on_client-Keeps, send-Keeps, send_raw-Keeps, send_vector-Keeps,
}
use vncmanager.Tunnel.Idle.Handshake.{IsQuiet, QuietIf, initialize_none-Quiets}
use vncmanager.Tunnel.Idle.Tight.{Idles}

throws : {A : Type 0} (e : Error) → Idles (throw {A = A} e)
throws e = Leads-throw e (λ t h k. h)

reason-Idles : (reason : List ℕ) → Idles (send_reason reason)
unfolding send_reason
reason-Idles reason =
    Leads-bind (on_client (send u32 (length reason))) _ (send-Keeps u32 _)
      (λ _. send_raw-Keeps reason)

finish-Idles : Idles finish_client_initialization
unfolding finish_client_initialization send send_raw
finish-Idles =
    Leads-bind (on_client (recv client_init_message)) _
      (on_client-Keeps _ 1 (recv-Clears client_init_message)) (λ _. record { at = λ t h. h })

none-Idles : Idles handle_none_security
unfolding handle_none_security
none-Idles =
    Leads-bind (on_client (send u32 security_ok)) _ (send-Keeps u32 security_ok) (λ _. finish-Idles)

module _ (subtypes : List ℕ) (handshake : Bool → Bool) where
  tls-Idles : (anonymous : Bool) → Idles (start_tls subtypes handshake anonymous)
  unfolding start_tls
  tls-Idles anonymous = record {
    at = λ t (c, s, p). elim (Bool-cases (handshake anonymous)) [
      | inl done ↦ rw done (refl, s, p)
      | inr failed ↦ rw failed (λ k. (refl, s, p))
    ];
  }

  subtype-Idles : (k : ℕ) → Idles (handle_subtype subtypes handshake k)
  unfolding handle_subtype
  subtype-Idles k =
      Leads-if (is_tls_subtype k) _ _
        (Leads-bind (start_tls subtypes handshake (k == VencryptSubtype.tls_none)) _ (tls-Idles _)
          (λ _. none-Idles))
        (Leads-if (k == VencryptSubtype.no_security) _ _ none-Idles (throws assertion))

  refuse_subtype-Idles : Idles (refuse_subtype subtypes handshake)
  unfolding refuse_subtype send send_raw
  refuse_subtype-Idles = record { at = λ t h k. h }

  choose_subtype-Idles : (k : ℕ) → Idles (choose_subtype subtypes handshake k)
  unfolding choose_subtype
  choose_subtype-Idles k =
      Leads-if (contains subtypes k) _ _
        (Leads-bind (on_client (send u8 1)) _ (send-Keeps u8 1) (λ _. subtype-Idles k))
        refuse_subtype-Idles

  vencrypt-Idles : Idles (handle_vencrypt_security subtypes handshake)
  unfolding handle_vencrypt_security
  vencrypt-Idles =
      Leads-bind (on_client (send vencrypt_version (record { major = 0; minor = 2 }))) _
        (send-Keeps vencrypt_version _)
        (λ _.
          Leads-bind (on_client (recv vencrypt_version)) _
            (on_client-Keeps _ 2 (recv-Clears vencrypt_version))
            (λ version.
              Leads-bind (on_client (send u8 (bad_version subtypes handshake version))) _
                (send-Keeps u8 _)
                (λ _.
                  Leads-bind
                    (check (bad_version subtypes handshake version == 0)
                      unsupported_vencrypt_version)
                    _ (Keeps-check _ _ (λ t h k. h))
                    (λ _.
                      Leads-bind (on_client (send u8 (length subtypes % 256))) _ (send-Keeps u8 _)
                        (λ _.
                          Leads-bind (on_client (send_vector u32 subtypes)) _
                            (send_vector-Keeps u32 subtypes)
                            (λ _.
                              Leads-bind (on_client (recv u32)) _
                                (on_client-Keeps _ 4 (recv-Clears u32)) choose_subtype-Idles))))))

  type-Idles : (k : ℕ) → Idles (handle_type subtypes handshake k)
  unfolding handle_type
  type-Idles k =
      Leads-if (k == SecurityType.no_security) _ _ none-Idles
        (Leads-if (k == SecurityType.vencrypt) _ _ vencrypt-Idles (throws assertion))

  refuse_version-Idles : Idles (refuse_version subtypes handshake)
  unfolding refuse_version send_reason
  refuse_version-Idles = record { at = λ t h k. h }

  refuse_type-Idles : Idles (refuse_type subtypes handshake)
  unfolding refuse_type send_reason
  refuse_type-Idles = record { at = λ t h k. h }

  choose_type-Idles : (k : ℕ) → Idles (choose_type subtypes handshake k)
  unfolding choose_type
  choose_type-Idles k =
      Leads-if (contains (configured_security_types subtypes) k) _ _
        (Leads-bind (handle_type subtypes handshake k) _ (type-Idles k)
          (λ _. Leads-modify (λ s. record s { security_type = k }) (λ t h. h)))
        refuse_type-Idles

  negotiate-Idles : Idles (negotiate subtypes handshake)
  unfolding negotiate
  negotiate-Idles =
      Leads-bind (on_client (send u8 (length (configured_security_types subtypes) % 256))) _
        (send-Keeps u8 _)
        (λ _.
          Leads-bind (on_client (send_vector u8 (configured_security_types subtypes))) _
            (send_vector-Keeps u8 _)
            (λ _.
              Leads-bind (on_client (recv u8)) _ (on_client-Keeps _ 1 (recv-Clears u8))
                choose_type-Idles))

  client_initialize-Idles : Idles (client_initialize subtypes handshake)
  unfolding client_initialize
  client_initialize-Idles =
      Leads-bind (on_client (send_raw highest_version_string)) _ (send_raw-Keeps _) (λ _.
        Leads-bind (on_client (recv_raw 12)) _ (on_client-Keeps _ 12 (recv_raw-Clears 12))
          (λ version.
            Leads-if (same_bytes version highest_version_string) _ _ negotiate-Idles
              refuse_version-Idles))

current_result :
    (t : Tunnel)
    → IsIdle t
    → (r : Result State Progress) → Post (λ _ s. IsQuiet s) QuietIf r
    → Post
        (λ _ u. IsIdle u)
        IsSpared
        (elim r [
          | ok p s ↦
              ok tt (record (with_current_state s t) { pixel_format = s.connection.pixel_format })
          | err e s ↦ err e (with_current_state s t)
        ])
current_result t (c, s, p) (ok a u) q = (c, q, p)
current_result t (c, s, p) (err e u) q = λ k. (c, q k, p)

pub prepare-Idles : (o : Options) (handshake : Bool → Bool) → Idles (prepare o handshake)
unfolding prepare initialize_current
prepare-Idles o handshake =
    Leads-bind initialize_current _
      (record {
        at = λ t h.
            current_result t h (initialize_none (current_state t))
              (initialize_none-Quiets.at (current_state t) h.1);
      })
      (λ _. client_initialize-Idles o.security handshake)
