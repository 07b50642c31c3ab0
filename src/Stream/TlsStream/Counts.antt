-- ===== src/Stream/TlsStream/Counts.antt =====
-- How often a list of gnutls calls makes and releases each object of a TLSStream.
use vncmanager.Base.{
  ℕ, ◌+◌, ◌*◌, ◌≤◌, ◌≡◌, refl, arith, Bool, true, false, List, [], ◌∷◌, ◌++◌, if◌then◌else◌,
}
use vncmanager.Stream.TlsStream.Session.{
  Call, init, dh_params_init, anon_allocate_credentials, certificate_allocate_credentials, bye,
  dh_params_deinit, anon_free_credentials, certificate_free_credentials, deinit, close, Gnutls,
  TlsObject, destroy,
}

pub data Handle : Type 0 where
  session : Handle
  dh_params : Handle
  anon_cred : Handle
  cert_cred : Handle

abbrev pub flag : Bool → ℕ
flag true = 1
flag false = 0

-- Whether a call created the object, or released it.
abbrev pub allocates : Gnutls → Handle → Call → ℕ
allocates g session init = flag (g.succeeds init)
allocates g dh_params dh_params_init = flag (g.succeeds dh_params_init)
allocates g anon_cred anon_allocate_credentials = flag (g.succeeds anon_allocate_credentials)
allocates g cert_cred certificate_allocate_credentials =
    flag (g.succeeds certificate_allocate_credentials)
allocates g h c = 0

abbrev pub releases : Handle → Call → ℕ
releases session deinit = 1
releases dh_params dh_params_deinit = 1
releases anon_cred anon_free_credentials = 1
releases cert_cred certificate_free_credentials = 1
releases h c = 0

abbrev pub closes : Call → ℕ
closes (close fd) = 1
closes c = 0

unfoldable pub count : (Call → ℕ) → List Call → ℕ
count f [] = 0
count f (c ∷ cs) = f c + count f cs

pub count-append : (f : Call → ℕ) (xs ys : List Call) → count f (xs ++ ys) ≡ count f xs + count f ys
unfolding count
count-append f [] ys = omega arith
count-append f (x ∷ xs) ys = omega (arith, count-append f xs ys)

abbrev pub held : Handle → TlsObject → Bool
held session s = s.session
held dh_params s = s.dh_params
held anon_cred s = s.anon_cred
held cert_cred s = s.cert_cred

-- The call that makes an object, and the pointer that it is kept in.
abbrev pub creates : Handle → Call
creates session = init
creates dh_params = dh_params_init
creates anon_cred = anon_allocate_credentials
creates cert_cred = certificate_allocate_credentials

abbrev pub keep : Handle → TlsObject → TlsObject
keep session s = record s { session = true }
keep dh_params s = record s { dh_params = true }
keep anon_cred s = record s { anon_cred = true }
keep cert_cred s = record s { cert_cred = true }

abbrev pub same : Handle → Handle → ℕ
same session session = 1
same dh_params dh_params = 1
same anon_cred anon_cred = 1
same cert_cred cert_cred = 1
same h k = 0

pub held-called :
    (h : Handle) (s : TlsObject) (cs : List Call) → held h (record s { calls = cs }) ≡ held h s
held-called session s cs = refl
held-called _ s cs = refl

pub held-keep :
    (h k : Handle) (s : TlsObject)
    → held k s ≡ false
    → flag (held h (keep k s)) ≡ flag (held h s) + same h k
held-keep session session s e = ground arith
held-keep dh_params dh_params s e = ground arith
held-keep anon_cred anon_cred s e = ground arith
held-keep cert_cred cert_cred s e = ground arith
held-keep _ _ s e = omega arith

pub calls-keep : (k : Handle) (s : TlsObject) → (keep k s).calls ≡ s.calls
calls-keep session s = refl
calls-keep _ s = refl

pub creates-allocates :
    (g : Gnutls) (h k : Handle)
    → g.succeeds (creates k) ≡ true
    → allocates g h (creates k) ≡ same h k
creates-allocates g session session e = ground arith
creates-allocates g dh_params dh_params e = ground arith
creates-allocates g anon_cred anon_cred e = ground arith
creates-allocates g cert_cred cert_cred e = ground arith
creates-allocates g _ _ e = refl

pub creates_not :
    (g : Gnutls) (h k : Handle) → g.succeeds (creates k) ≡ false → allocates g h (creates k) ≡ 0
creates_not g session session e = ground arith
creates_not g dh_params dh_params e = ground arith
creates_not g anon_cred anon_cred e = ground arith
creates_not g cert_cred cert_cred e = ground arith
creates_not g _ _ e = refl

pub creates-releases : (h k : Handle) → releases h (creates k) ≡ 0
creates-releases session session = refl
creates-releases dh_params dh_params = refl
creates-releases anon_cred anon_cred = refl
creates-releases cert_cred cert_cred = refl
creates-releases _ _ = refl

pub creates-closes : (k : Handle) → closes (creates k) ≡ 0
creates-closes session = refl
creates-closes _ = refl

pub appended :
    (f : Call → ℕ) (cs : List Call) (c : Call) → count f (cs ++ (c ∷ [])) ≡ count f cs + f c
unfolding count
appended f cs c = omega (arith, count-append f cs (c ∷ []))

-- A call that neither allocates nor releases.
abbrev pub is_neutral : Call → Bool
is_neutral init = false
is_neutral dh_params_init = false
is_neutral anon_allocate_credentials = false
is_neutral certificate_allocate_credentials = false
is_neutral dh_params_deinit = false
is_neutral anon_free_credentials = false
is_neutral certificate_free_credentials = false
is_neutral deinit = false
is_neutral (close fd) = false
is_neutral c = true

pub neutral-allocates :
    (g : Gnutls) (h : Handle) (c : Call) → is_neutral c ≡ true → allocates g h c ≡ 0
neutral-allocates g session init e = cc e
neutral-allocates g dh_params dh_params_init e = cc e
neutral-allocates g anon_cred anon_allocate_credentials e = cc e
neutral-allocates g cert_cred certificate_allocate_credentials e = cc e
neutral-allocates g _ _ e = refl

pub neutral-releases : (h : Handle) (c : Call) → is_neutral c ≡ true → releases h c ≡ 0
neutral-releases session deinit e = cc e
neutral-releases dh_params dh_params_deinit e = cc e
neutral-releases anon_cred anon_free_credentials e = cc e
neutral-releases cert_cred certificate_free_credentials e = cc e
neutral-releases _ _ e = refl

pub neutral-closes : (c : Call) → is_neutral c ≡ true → closes c ≡ 0
neutral-closes (close fd) e = cc e
neutral-closes _ e = refl

pub count-if :
    (f : Call → ℕ) (b : Bool) (c : Call) → count f (if b then c ∷ [] else []) ≡ flag b * f c
unfolding count
count-if f true c = omega arith
count-if f false c = omega arith

pub count-close : (f : Call → ℕ) (c : Call) → count f (c ∷ []) ≡ f c
unfolding count
count-close f c = omega arith

-- What the destructor adds to a count.
pub count-destroy :
    (f : Call → ℕ) (s : TlsObject)
    → count f (destroy s).calls
      ≡ count f s.calls
        + (flag s.session * f bye
            + (flag s.dh_params * f dh_params_deinit
                + (flag s.anon_cred * f anon_free_credentials
                    + (flag s.cert_cred * f certificate_free_credentials
                        + (flag s.session * f deinit + f (close s.fd))))))
unfolding destroy
count-destroy f s = simp (count-append, count-if, count-close)

pub flag-le : (b : Bool) → flag b ≤ 1
flag-le true = omega arith
flag-le false = omega arith
