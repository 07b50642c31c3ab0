-- ===== src/Stream/TlsStream/Session.antt =====
-- class TLSStream as an owner of gnutls objects: its constructor, `initialize`, the destructor and
-- `takeFd`. What gnutls answers to a call is an argument; every call is written down.
use vncmanager.Base.{
  ℕ, Bool, true, false, List, [], ◌∷◌, ◌++◌, Action, ok, err, gnutls_failed, assertion, out_of_fuel,
  ◌>>◌, modify, throw, if◌then◌else◌,
}

-- The calls of gnutls, and `close`.
pub data Call : Type 0 where
  init set_default_priority : Call
  priority_set_direct : List ℕ → Call
  dh_params_init dh_params_generate : Call
  anon_allocate_credentials anon_set_dh_params anon_credentials_set : Call
  certificate_allocate_credentials certificate_set_dh_params : Call
  certificate_set_key_file : List ℕ → List ℕ → Call
  certificate_credentials_set : Call
  transport_set : ℕ → Call
  handshake : Call
  bye dh_params_deinit anon_free_credentials certificate_free_credentials deinit : Call
  close : ℕ → Call

-- The answers: whether each call but the handshake succeeds, and how the calls of the handshake end,
-- one after another.
pub data Shake : Type 0 where
  done : Shake
  not_fatal : Shake
  fatal_error : Shake

pub record Gnutls : Type 0 where
  pub succeeds : Call → Bool
  pub shakes : List Shake

-- The options of the configuration that are read.
pub record TlsOptions : Type 0 where
  pub tls_priority_anonymous : List ℕ
  pub tls_priority_certificate : List ℕ
  pub tls_cert : List ℕ
  pub tls_key : List ℕ

-- `m_tls` says which pointers are not null; `calls` is what was called, the first call first.
pub record TlsObject : Type 0 where
  pub fd : ℕ
  pub anonymous : Bool
  pub session : Bool
  pub dh_params : Bool
  pub anon_cred : Bool
  pub cert_cred : Bool
  pub calls : List Call

unfoldable pub construct : ℕ → Bool → TlsObject
construct fd anonymous = record {
  fd = fd;
  anonymous = anonymous;
  session = false;
  dh_params = false;
  anon_cred = false;
  cert_cred = false;
  calls = [];
}

-- A call whose answer is not looked at.
abbrev pub call : Call → Action TlsObject (Unit {0})
call c s = ok tt (record s { calls = s.calls ++ (c ∷ []) })

abbrev pub priority : TlsOptions → Bool → List ℕ
priority o true = o.tls_priority_anonymous
priority o false = o.tls_priority_certificate

module _ (g : Gnutls) where
  -- A call that throws GnuTlsException unless it succeeds. A constructor of gnutls that fails leaves
  -- its pointer null.
  abbrev pub try_call : Call → Action TlsObject (Unit {0})
  try_call c s =
      let s' = record s { calls = s.calls ++ (c ∷ []) } in
      if g.succeeds c then ok tt s' else err gnutls_failed s'

  unfoldable pub set_anonymous_credentials : Action TlsObject (Unit {0})
  set_anonymous_credentials = do
    try_call anon_allocate_credentials
    modify (λ s. record s { anon_cred = true })
    call anon_set_dh_params
    try_call anon_credentials_set

  unfoldable pub set_certificate_credentials : TlsOptions → Action TlsObject (Unit {0})
  set_certificate_credentials o = do
    try_call certificate_allocate_credentials
    modify (λ s. record s { cert_cred = true })
    call certificate_set_dh_params
    try_call (certificate_set_key_file o.tls_cert o.tls_key)
    try_call certificate_credentials_set

  -- `while (true)` over the handshake's answers; when they are used up, the peer is still silent.
  unfoldable pub shake : List Shake → Action TlsObject (Unit {0})
  shake [] s = err out_of_fuel s
  shake (done ∷ rest) s = call handshake s
  shake (not_fatal ∷ rest) s = shake rest (record s { calls = s.calls ++ (handshake ∷ []) })
  shake (fatal_error ∷ rest) s =
      err gnutls_failed (record s { calls = s.calls ++ (handshake ∷ []) })

  -- The session, its priority and the parameters, which both kinds of credentials need.
  unfoldable pub prepare_session : TlsOptions → Action TlsObject (Unit {0})
  prepare_session o = do
    try_call init
    modify (λ s. record s { session = true })
    try_call set_default_priority
    (λ s. try_call (priority_set_direct (priority o s.anonymous)) s)
    try_call dh_params_init
    modify (λ s. record s { dh_params = true })
    try_call dh_params_generate

  unfoldable pub set_credentials : TlsOptions → Action TlsObject (Unit {0})
  unfolding set_anonymous_credentials set_certificate_credentials
  set_credentials o s =
      if s.anonymous then set_anonymous_credentials s else set_certificate_credentials o s

  unfoldable pub initialize : TlsOptions → Action TlsObject (Unit {0})
  unfolding prepare_session set_credentials shake
  initialize o = do
    prepare_session o
    set_credentials o
    (λ s. call (transport_set s.fd) s)
    shake g.shakes

-- The destructor; `gnutls_bye` is not looked at.
unfoldable pub destroy : TlsObject → TlsObject
destroy s = record s {
  calls =
      s.calls
      ++ ((if s.session then bye ∷ [] else [])
          ++ ((if s.dh_params then dh_params_deinit ∷ [] else [])
              ++ ((if s.anon_cred then anon_free_credentials ∷ [] else [])
                  ++ ((if s.cert_cred then certificate_free_credentials ∷ [] else [])
                      ++ ((if s.session then deinit ∷ [] else []) ++ (close s.fd ∷ []))))));
}

-- `assert(!"Not supported.")`
unfoldable pub take_fd : Action TlsObject ℕ
take_fd = throw assertion
