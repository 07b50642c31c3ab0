-- ===== src/Tunnel/Security/Encryption.antt =====
-- Which clients the handshake of `VncTunnel::clientInitalize` serves in the clear.
use vncmanager.Base.{
  ℕ, ◌%◌, ◌≡◌, refl, sym, ap, ◌∙◌, arith, Bool, true, false, List, [], ◌∷◌, length, contains,
  same_bytes, ◌==◌, if◌then◌else◌, Bool-cases, ==_iff, inl, inr, bind-eq-ok, Result, Action, ok,
  err, check, modify, ◌>>=◌, ◌>>◌, unsupported_vencrypt_version,
}
use vncmanager.Rfb.Values.{highest_version_string, security_ok}
use vncmanager.Rfb.Values.SecurityType
use vncmanager.Rfb.Values.VencryptSubtype
use vncmanager.Rfb.Wire.{encode, encode_all, u8, u32}
use vncmanager.Rfb.Messages.Client.{client_init_message}
use vncmanager.Rfb.Messages.Vencrypt.{vencrypt_version}
use vncmanager.Formatter.{Peer, recv_raw, recv, send}
use vncmanager.Tunnel.State.{Tunnel, tls, on_client}
use vncmanager.Tunnel.Rectangles.Relay.{client_gets}
use vncmanager.Tunnel.Security.{
  bad_version, is_tls_subtype, configured_types, configured_security_types,
  finish_client_initialization, handle_none_security, start_tls, handle_subtype, choose_subtype,
  handle_vencrypt_security, handle_type, choose_type, negotiate, client_initialize,
}

ok-state : {A : Type 0} {a b : A} {s t : Tunnel} → ok a s ≡ ok b t → s ≡ t
ok-state e = cc

on_client-transport :
    {A : Type 0} (m : Action Peer A) (t : Tunnel) (a : A) (s : Tunnel)
    → on_client m t ≡ ok a s
    → s.transport ≡ t.transport
on_client-transport {A} m t a s h = kept (m t.client) h
  where
    kept :
        (r : Result Peer A)
        → elim r [
          | ok b p ↦ ok b (record t { client = p })
          | err x p ↦ err x (record t { client = p })
        ]
          ≡ ok a s
        → s.transport ≡ t.transport
    kept (ok b p) e = ap (λ (w : Tunnel). w.transport) (sym (ok-state e))
    kept (err x p) e = cc e

-- A step on the client's stream, and what follows where it ended well.
client_step :
    {A B : Type 0} (m : Action Peer A) (f : A → Action Tunnel B) (t : Tunnel) {b : B} {s : Tunnel}
    → (on_client m >>= f) t ≡ ok b s
    → (a : A) × (u : Tunnel) × (u.transport ≡ t.transport) × (f a u ≡ ok b s)
client_step m f t h =
    let (a, u, e, h') = bind-eq-ok (on_client m t) f h in (a, u, on_client-transport m t a u e, h')

finish_keeps : (t s : Tunnel) → finish_client_initialization t ≡ ok tt s → s.transport ≡ t.transport
unfolding finish_client_initialization
finish_keeps t s h =
    let (i, u, k, h') = client_step (recv client_init_message) _ t h in
    ap (λ (w : Tunnel). w.transport) (sym (ok-state h')) ∙ k

none_keeps : (t s : Tunnel) → handle_none_security t ≡ ok tt s → s.transport ≡ t.transport
unfolding handle_none_security
none_keeps t s h =
    let (u, v, k, h') =
      client_step (send u32 security_ok) (λ x. finish_client_initialization) t h in
    finish_keeps v s h' ∙ k

configured_none :
    (included : Bool) (subtypes : List ℕ)
    → contains (configured_types included subtypes) SecurityType.no_security ≡ true
    → contains subtypes VencryptSubtype.no_security ≡ true
unfolding configured_types
configured_none included [] h = h
configured_none included (t ∷ ts) h =
    ground (arith, configured_none included ts, configured_none true ts)

module _ (subtypes : List ℕ) (handshake : Bool → Bool) where
  -- A TLS session whose handshake succeeded, of a kind that the configuration allows.
  pub record IsEncrypted (t : Tunnel) : Type 0 where
    pub anonymous : Bool
    pub over_tls : t.transport ≡ tls anonymous
    pub allowed :
        contains subtypes
          (if anonymous then VencryptSubtype.tls_none else VencryptSubtype.x509_none)
        ≡ true
    pub succeeded : handshake anonymous ≡ true

  keeps : (t s : Tunnel) → s.transport ≡ t.transport → IsEncrypted t → IsEncrypted s
  keeps t s e h = record {
    anonymous = h.anonymous;
    over_tls = e ∙ h.over_tls;
    allowed = h.allowed;
    succeeded = h.succeeded;
  }

  tls_started :
      (a : Bool) (t s : Tunnel)
      → start_tls subtypes handshake a t ≡ ok tt s
      → (s.transport ≡ tls a) × (handshake a ≡ true)
  unfolding start_tls
  tls_started a t s h = ground arith

  switch_tls :
      (k : ℕ) (t : Tunnel)
      → is_tls_subtype k ≡ true
      → handle_subtype subtypes handshake k t
        ≡ (start_tls subtypes handshake (k == VencryptSubtype.tls_none) >> handle_none_security) t
  unfolding handle_subtype
  switch_tls k t e = rw e refl

  switch_none :
      (k : ℕ) (t s : Tunnel)
      → is_tls_subtype k ≡ false
      → handle_subtype subtypes handshake k t ≡ ok tt s
      → k ≡ VencryptSubtype.no_security
  unfolding handle_subtype
  switch_none k t s e h = elim (Bool-cases (k == VencryptSubtype.no_security)) [
    | inl same ↦ ground arith
    | inr other ↦ cc (rw (e, other) at h)
  ]

  module _ (only_tls : contains subtypes VencryptSubtype.no_security ≡ false) where
    subtype_lem :
        (k : ℕ) (t s : Tunnel)
        → contains subtypes k ≡ true
        → handle_subtype subtypes handshake k t ≡ ok tt s
        → IsEncrypted s
    subtype_lem k t s c h = elim (Bool-cases (is_tls_subtype k)) [
      | inl over ↦
          let anonymous : Bool = k == VencryptSubtype.tls_none in
          let h1 : (start_tls subtypes handshake anonymous >> handle_none_security) t ≡ ok tt s =
            sym (switch_tls k t over) ∙ h in
          let (_, u, e, h2) = bind-eq-ok (start_tls subtypes handshake anonymous t) _ h1 in
          let started = tls_started anonymous t u e in
          record {
            anonymous = anonymous;
            over_tls = none_keeps u s h2 ∙ started.0;
            allowed = ground arith;
            succeeded = started.1;
          }
      | inr clear ↦
          let same : k ≡ VencryptSubtype.no_security = switch_none k t s clear h in
          cc (sym (ap (contains subtypes) same ∙ only_tls) ∙ c)
    ]

    choose_subtype_lem :
        (k : ℕ) (t s : Tunnel) → choose_subtype subtypes handshake k t ≡ ok tt s → IsEncrypted s
    unfolding choose_subtype
    choose_subtype_lem k t s h = elim (Bool-cases (contains subtypes k)) [
      | inl offered ↦
          let (x, u, same, h') =
            client_step (send u8 1) (λ y. handle_subtype subtypes handshake k) t
              (rw offered at h) in
          subtype_lem k u s offered h'
      | inr other ↦ cc (rw other at h)
    ]

    vencrypt_lem :
        (t s : Tunnel) → handle_vencrypt_security subtypes handshake t ≡ ok tt s → IsEncrypted s
    unfolding handle_vencrypt_security
    vencrypt_lem t s h =
        let (version, u, k, h1) =
          client_step (recv vencrypt_version) _
            (client_gets (encode vencrypt_version (record { major = 0; minor = 2 })) t) h in
        let bad : ℕ = bad_version subtypes handshake version in
        let (x, v, e, h2) =
          bind-eq-ok (check (bad == 0) unsupported_vencrypt_version (client_gets (encode u8 bad) u))
            _ h1 in
        let (selected, w, k', h3) =
          client_step (recv u32) _
            (client_gets (encode_all u32 subtypes)
              (client_gets (encode u8 (length subtypes % 256)) v))
            h2 in
        choose_subtype_lem selected w s h3

    handle_type_lem :
        (k : ℕ) (t s : Tunnel)
        → contains (configured_security_types subtypes) k ≡ true
        → handle_type subtypes handshake k t ≡ ok tt s
        → IsEncrypted s
    unfolding handle_type configured_security_types
    handle_type_lem k t s c h = elim (Bool-cases (k == SecurityType.no_security)) [
      | inl none_chosen ↦
          let listed : contains subtypes VencryptSubtype.no_security ≡ true =
            configured_none false subtypes (
              ap (contains (configured_types false subtypes)) (sym ((==_iff k _).0 none_chosen))
              ∙ c) in
          cc (sym listed ∙ only_tls)
      | inr other ↦ elim (Bool-cases (k == SecurityType.vencrypt)) [
        | inl chosen ↦ vencrypt_lem t s (rw (other, chosen) at h)
        | inr unknown ↦ cc (rw (other, unknown) at h)
      ]
    ]

    choose_type_lem :
        (k : ℕ) (t s : Tunnel) → choose_type subtypes handshake k t ≡ ok tt s → IsEncrypted s
    unfolding choose_type
    choose_type_lem k t s h = elim (Bool-cases (contains (configured_security_types subtypes) k)) [
      | inl offered ↦
          let (x, u, e, h') =
            bind-eq-ok (handle_type subtypes handshake k t)
              (λ y. modify (λ w. record w { security_type = k })) (rw offered at h) in
          keeps u s (ap (λ (w : Tunnel). w.transport) (sym (ok-state h')))
            (handle_type_lem k t u offered e)
      | inr other ↦ cc (rw other at h)
    ]

    negotiate_lem : (t s : Tunnel) → negotiate subtypes handshake t ≡ ok tt s → IsEncrypted s
    unfolding negotiate
    negotiate_lem t s h =
        let types : List ℕ = configured_security_types subtypes in
        let (chosen, u, k, h') =
          client_step (recv u8) _
            (client_gets (encode_all u8 types) (client_gets (encode u8 (length types % 256)) t))
            h in
        choose_type_lem chosen u s h'

  -- Where the configuration does not list the subtype with neither security nor encryption, a client
  -- whose handshake succeeds is served over TLS, of a kind that the configuration lists, and gnutls'
  -- handshake succeeded.
  pub client_initialize-IsEncrypted :
      (t s : Tunnel)
      → contains subtypes VencryptSubtype.no_security ≡ false
      → client_initialize subtypes handshake t ≡ ok tt s
      → IsEncrypted s
  unfolding client_initialize
  client_initialize-IsEncrypted t s only_tls h =
      let (version, u, k, h') =
        client_step (recv_raw 12) _ (client_gets highest_version_string t) h in
      elim (Bool-cases (same_bytes version highest_version_string)) [
        | inl same ↦ negotiate_lem only_tls u s (rw same at h')
        | inr other ↦ cc (rw other at h')
      ]
