-- ===== src/Stream/TlsStream/Handles.antt =====
-- What a TLSStream allocates it releases, wherever `initialize` stops.
use vncmanager.Base.{
  ℕ, ◌≤◌, ◌≡◌, refl, arith, Bool, true, false, List, [], ◌∷◌, ◌++◌, Result, ok, err, after, modify,
  Post, Leads-bind, Leads-modify, if◌then◌else◌,
}
use vncmanager.Stream.TlsStream.Session.{
  init, set_default_priority, priority_set_direct, dh_params_init, dh_params_generate,
  anon_allocate_credentials, anon_set_dh_params, anon_credentials_set,
  certificate_allocate_credentials, certificate_set_dh_params, certificate_set_key_file,
  certificate_credentials_set, transport_set, handshake, Shake, done, not_fatal, fatal_error,
  Gnutls, TlsOptions, TlsObject, construct, call, priority, try_call, set_anonymous_credentials,
  set_certificate_credentials, shake, prepare_session, set_credentials, initialize, destroy,
}
use vncmanager.Stream.TlsStream.Counts.{
  Handle, session, dh_params, anon_cred, cert_cred, allocates, closes, count, count-destroy, flag,
  flag-le, held, releases,
}
use vncmanager.Stream.TlsStream.Held.{
  IsHeld, Ready, Steps, credentials, does, kept, makes, neutral, tries,
}

module _ (g : Gnutls) where
  prepare-Ready :
      (o : TlsOptions)
      → Steps g
          (Ready g (session ∷ dh_params ∷ (credentials g)))
          (Ready g (credentials g))
          (prepare_session g o)
  unfolding prepare_session
  prepare-Ready o =
      Leads-bind (try_call g init) _ (makes g session (session ∷ dh_params ∷ (credentials g))) (λ _.
        Leads-bind {Q = Ready g (dh_params ∷ (credentials g))}
          (modify (λ s. record s { session = true })) _
          (Leads-modify _ (λ s (i, l). (kept g session s l.0 i, l.1)))
          (λ _.
            Leads-bind (try_call g set_default_priority) _
              (tries g set_default_priority (dh_params ∷ (credentials g)) refl)
              (λ _.
                Leads-bind (λ s. try_call g (priority_set_direct (priority o s.anonymous)) s) _
                  (set_priority o)
                  (λ _.
                    Leads-bind (try_call g dh_params_init) _
                      (makes g dh_params (dh_params ∷ (credentials g)))
                      (λ _.
                        Leads-bind {Q = Ready g (credentials g)}
                          (modify (λ s. record s { dh_params = true })) _
                          (Leads-modify _ (λ s (i, l). (kept g dh_params s l.0 i, l.1)))
                          (λ _. tries g dh_params_generate (credentials g) refl))))))
    where
      set_priority :
          (o : TlsOptions)
          → Steps g
              (Ready g (dh_params ∷ (credentials g)))
              (Ready g (dh_params ∷ (credentials g)))
              (λ s. try_call g (priority_set_direct (priority o s.anonymous)) s)
      set_priority o = record {
        at = λ s h.
            (tries g (priority_set_direct (priority o s.anonymous)) (dh_params ∷ (credentials g))
                refl).at
              s h;
      }

  anonymous-Ready : Steps g (Ready g (credentials g)) (Ready g []) (set_anonymous_credentials g)
  unfolding set_anonymous_credentials
  anonymous-Ready =
      Leads-bind (try_call g anon_allocate_credentials) _ (makes g anon_cred (credentials g)) (λ _.
        Leads-bind {Q = Ready g []} (modify (λ s. record s { anon_cred = true })) _
          (Leads-modify _ (λ s (i, l). (kept g anon_cred s l.0 i, tt)))
          (λ _.
            Leads-bind (call anon_set_dh_params) _ (does g anon_set_dh_params [] refl)
              (λ _. tries g anon_credentials_set [] refl)))

  certificate-Ready :
      (o : TlsOptions)
      → Steps g (Ready g (credentials g)) (Ready g []) (set_certificate_credentials g o)
  unfolding set_certificate_credentials
  certificate-Ready o =
      Leads-bind (try_call g certificate_allocate_credentials) _ (makes g cert_cred (credentials g))
        (λ _.
          Leads-bind {Q = Ready g []} (modify (λ s. record s { cert_cred = true })) _
            (Leads-modify _ (λ s (i, l). (kept g cert_cred s l.1.0 i, tt)))
            (λ _.
              Leads-bind (call certificate_set_dh_params) _
                (does g certificate_set_dh_params [] refl)
                (λ _.
                  Leads-bind (try_call g (certificate_set_key_file o.tls_cert o.tls_key)) _
                    (tries g _ [] refl) (λ _. tries g certificate_credentials_set [] refl))))

  set-Ready :
      (o : TlsOptions) → Steps g (Ready g (credentials g)) (Ready g []) (set_credentials g o)
  unfolding set_credentials
  set-Ready o = record { at = λ s h. go s h s.anonymous }
    where
      go :
          (s : TlsObject)
          → Ready g (credentials g) s
          → (b : Bool)
          → Post
              (λ _ t. Ready g [] t)
              (λ _ t. IsHeld g t)
              (if b then set_anonymous_credentials g s else set_certificate_credentials g o s)
      go s h true = anonymous-Ready.at s h
      go s h false = (certificate-Ready o).at s h

  shake-Ready : (shakes : List Shake) → Steps g (Ready g []) (Ready g []) (shake g shakes)
  unfolding shake
  shake-Ready [] = record { at = λ s (i, l). i }
  shake-Ready (done ∷ rest) = does g handshake [] refl
  shake-Ready (not_fatal ∷ rest) = record {
    at = λ s (i, l).
        (shake-Ready rest).at (record s { calls = s.calls ++ (handshake ∷ []) })
          (neutral g handshake s refl i, tt);
  }
  shake-Ready (fatal_error ∷ rest) = record { at = λ s (i, l). neutral g handshake s refl i }

  initialize-Ready :
      (o : TlsOptions)
      → Steps g (Ready g (session ∷ dh_params ∷ (credentials g))) (Ready g []) (initialize g o)
  unfolding initialize
  initialize-Ready o = Leads-bind (prepare_session g o) _ (prepare-Ready o) (λ _.
      Leads-bind (set_credentials g o) _ (set-Ready o) (λ _.
        Leads-bind {Q = Ready g []} (λ s. call (transport_set s.fd) s) _
          (record { at = λ s (i, l). (neutral g (transport_set s.fd) s refl i, tt) })
          (λ _. shake-Ready g.shakes)))

  construct-Ready :
      (fd : ℕ) (anonymous : Bool)
      → Ready g (session ∷ dh_params ∷ (credentials g)) (construct fd anonymous)
  unfolding construct count
  construct-Ready fd anonymous = (
    record {
      allocated = λ h. none_held h;
      is_open = record { unreleased = λ h. refl; unclosed = refl };
    },
    (refl, (refl, (refl, (refl, tt)))),
  )
    where
      none_held : (h : Handle) → 0 ≡ flag (held h (construct fd anonymous))
      none_held session = refl
      none_held dh_params = refl
      none_held anon_cred = refl
      none_held cert_cred = refl

  after-IsHeld :
      (r : Result TlsObject (Unit {0}))
      → Post (λ _ t. Ready g [] t) (λ _ t. IsHeld g t) r
      → IsHeld g (after r)
  after-IsHeld (ok a t) h = h.0
  after-IsHeld (err e t) h = h

destroyed :
    (g : Gnutls) (h : Handle) (s : TlsObject)
    → IsHeld g s
    → (count (releases h) (destroy s).calls ≡ count (allocates g h) (destroy s).calls)
      × (count (releases h) (destroy s).calls ≤ 1)
      × (count closes (destroy s).calls ≡ 1)
destroyed g session s i = omega (
  arith,
  flag-le s.session,
  count-destroy (allocates g session) s,
  count-destroy (releases session) s,
  count-destroy closes s,
  i.allocated session,
  i.is_open.unreleased session,
  i.is_open.unclosed,
)
destroyed g dh_params s i = omega (
  arith,
  flag-le s.dh_params,
  count-destroy (allocates g dh_params) s,
  count-destroy (releases dh_params) s,
  count-destroy closes s,
  i.allocated dh_params,
  i.is_open.unreleased dh_params,
  i.is_open.unclosed,
)
destroyed g anon_cred s i = omega (
  arith,
  flag-le s.anon_cred,
  count-destroy (allocates g anon_cred) s,
  count-destroy (releases anon_cred) s,
  count-destroy closes s,
  i.allocated anon_cred,
  i.is_open.unreleased anon_cred,
  i.is_open.unclosed,
)
destroyed g cert_cred s i = omega (
  arith,
  flag-le s.cert_cred,
  count-destroy (allocates g cert_cred) s,
  count-destroy (releases cert_cred) s,
  count-destroy closes s,
  i.allocated cert_cred,
  i.is_open.unreleased cert_cred,
  i.is_open.unclosed,
)

-- A TLSStream that is constructed, initialized and destroyed releases each gnutls object as often as
-- it allocated it, at most once, and closes one descriptor once, whether `initialize` returns or at
-- whichever of its calls it throws.
pub initialize-destroy :
    (g : Gnutls) (o : TlsOptions) (fd : ℕ) (anonymous : Bool) (h : Handle)
    → let calls = (destroy (after (initialize g o (construct fd anonymous)))).calls in
      (count (releases h) calls ≡ count (allocates g h) calls)
      × (count (releases h) calls ≤ 1)
      × (count closes calls ≡ 1)
initialize-destroy g o fd anonymous h =
    destroyed g h (after (initialize g o (construct fd anonymous))) (
      after-IsHeld g _
        ((initialize-Ready g o).at (construct fd anonymous) (construct-Ready g fd anonymous)))
