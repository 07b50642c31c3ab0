-- ===== src/Configuration/Laws.antt =====
-- What the checks of the configuration ask for, and how the list of security types reads back.
use vncmanager.Base.{
  ℕ, ◌≡◌, ◌≢◌, refl, sym, ap, ◌∙◌, arith, Bool, true, false, not, none, some, List, [], ◌∷◌, ◌++◌,
  append_assoc, append-nil, contains, All, if◌then◌else◌, Bool-cases, inl, inr, map,
}
use vncmanager.Rfb.Values.VencryptSubtype
use vncmanager.Configuration.{
  parsed, tls_name, x509_name, none_name, subtype_named, push_names, validate_security,
  ConfigurationOptions, Mode, executable, readable, Checked, checked, system_error, need, check_tls,
  check,
}

-- The files that a configuration needs, in the order in which they are looked at.
abbrev pub manager_files : ConfigurationOptions → List (List ℕ × Mode)
manager_files o =
    if o.disable_manager then [] else ((o.greeter, executable) ∷ (o.xauth, executable) ∷ [])

abbrev pub certificate_files : ConfigurationOptions → List (List ℕ × Mode)
certificate_files o =
    if contains o.security VencryptSubtype.x509_none
    then ((o.tls_cert, readable) ∷ (o.tls_key, readable) ∷ [])
    else []

abbrev pub required_files : ConfigurationOptions → List (List ℕ × Mode)
required_files o = (o.xvnc, executable) ∷ (manager_files o ++ certificate_files o)

module _ (access : List ℕ → Mode → Bool) where
  abbrev pub IsThere : List ℕ × Mode → Type 0
  IsThere f = access f.0 f.1 ≡ true

  -- How a check of files has to end.
  pub data Verdict : List (List ℕ × Mode) → Checked → Type 0 where
    all_there : (fs : List (List ℕ × Mode)) → All IsThere fs → Verdict fs checked
    one_missing :
        (before : List (List ℕ × Mode)) (path : List ℕ) (mode : Mode)
        (others : List (List ℕ × Mode))
        → All IsThere before
        → access path mode ≡ false
        → Verdict (before ++ ((path, mode) ∷ others)) (system_error path)

  preceded :
      (path : List ℕ) (mode : Mode) (fs : List (List ℕ × Mode)) (c : Checked)
      → access path mode ≡ true
      → Verdict fs c
      → Verdict ((path, mode) ∷ fs) c
  preceded path mode _ _ there (all_there gs a) = all_there ((path, mode) ∷ gs) (there, a)
  preceded path mode _ _ there (one_missing before p m others a e) =
      one_missing ((path, mode) ∷ before) p m others (there, a) e

  need-Verdict :
      (path : List ℕ) (mode : Mode) (fs : List (List ℕ × Mode)) (c : Checked)
      → Verdict fs c
      → Verdict ((path, mode) ∷ fs) (need access path mode c)
  need-Verdict path mode fs c v = elim (Bool-cases (access path mode)) [
    | inr gone ↦ rw gone (one_missing [] path mode fs tt gone)
    | inl there ↦ rw there (preceded path mode fs c there v)
  ]

  tls-Verdict : (o : ConfigurationOptions) → Verdict (certificate_files o) (check_tls access o)
  unfolding check_tls
  tls-Verdict o = elim (Bool-cases (contains o.security VencryptSubtype.x509_none)) [
    | inl listed ↦ rw listed (
        need-Verdict o.tls_cert readable _ _
          (need-Verdict o.tls_key readable [] checked (all_there [] tt)))
    | inr unlisted ↦ rw unlisted (all_there [] tt)
  ]

  managed :
      (o : ConfigurationOptions) (b : Bool)
      → Verdict
          ((if b then [] else ((o.greeter, executable) ∷ (o.xauth, executable) ∷ []))
            ++ certificate_files o)
          (if not b
            then need access o.greeter executable
                (need access o.xauth executable (check_tls access o))
            else check_tls access o)
  managed o true = tls-Verdict o
  managed o false =
      need-Verdict o.greeter executable _ _
        (need-Verdict o.xauth executable (certificate_files o) (check_tls access o) (tls-Verdict o))

  -- `check` passes when every file that the configuration needs is there: Xvnc, the greeter and xauth
  -- unless the manager is disabled, and the certificate and key if X509 is listed. Otherwise it
  -- throws the error of the first of them that is not, in this order.
  pub check-Verdict : (o : ConfigurationOptions) → Verdict (required_files o) (check access o)
  unfolding check
  check-Verdict o = need-Verdict o.xvnc executable _ _ (managed o o.disable_manager)

-- A word of an option's value: it is not empty, and holds no comma.
abbrev pub comma : ℕ
comma = 44

abbrev pub IsWord : List ℕ → Type 0
IsWord w = (w ≢ []) × (contains w comma ≡ false)

abbrev pub join : List (List ℕ) → List ℕ
join [] = []
join (w ∷ []) = w
join (w ∷ v ∷ ws) = w ++ (comma ∷ join (v ∷ ws))

-- The tokenizer with a separator of characters: words between commas come back as they are.
abbrev pub Splits : (List ℕ → List (List ℕ)) → Type 0
Splits split = (ws : List (List ℕ)) → All IsWord ws → split (join ws) ≡ ws

-- The types that a configuration can list, with their names.
pub data Subtype : Type 0 where
  tls : Subtype
  x509 : Subtype
  plain_none : Subtype

abbrev pub value : Subtype → ℕ
value tls = VencryptSubtype.tls_none
value x509 = VencryptSubtype.x509_none
value plain_none = VencryptSubtype.no_security

abbrev pub name : Subtype → List ℕ
name tls = tls_name
name x509 = x509_name
name plain_none = none_name

name-named : (t : Subtype) → subtype_named (name t) ≡ some (value t)
unfolding subtype_named
name-named tls = refl
name-named x509 = refl
name-named plain_none = refl

name-IsWord : (t : Subtype) → IsWord (name t)
name-IsWord tls = (λ h. cc h, refl)
name-IsWord x509 = (λ h. cc h, refl)
name-IsWord plain_none = (λ h. cc h, refl)

names-AreWords : (ts : List Subtype) → All IsWord (map name ts)
names-AreWords [] = tt
names-AreWords (t ∷ ts) = (name-IsWord t, names-AreWords ts)

push_names-names :
    (ts : List Subtype) (p : List ℕ) → push_names (map name ts) p ≡ parsed (p ++ map value ts)
unfolding push_names
push_names-names [] p = ap parsed (sym (append-nil p))
push_names-names (t ∷ ts) p =
    rw (name-named t, push_names)
      (push_names-names ts (p ++ (value t ∷ []))
        ∙ ap parsed (append_assoc p (value t ∷ []) (map value ts)))

one_token :
    (split : List ℕ → List (List ℕ)) (token : List ℕ) (t : ℕ) (ts : List ℕ)
    → push_names (split token) [] ≡ parsed (t ∷ ts)
    → validate_security split none (token ∷ []) ≡ parsed (t ∷ ts)
unfolding validate_security
one_token split token t ts e = ground (arith, e)

-- With a tokenizer that gives words between commas back, a list of one or more names of security
-- types, separated by commas, is read as their list, in the same order.
pub validate_security-join :
    (split : List ℕ → List (List ℕ)) (t : Subtype) (ts : List Subtype)
    → Splits split
    → validate_security split none (join (map name (t ∷ ts)) ∷ []) ≡ parsed (map value (t ∷ ts))
validate_security-join split t ts splits =
    one_token split (join (map name (t ∷ ts))) (value t) (map value ts) (
      ap (λ ws. push_names ws []) (splits (map name (t ∷ ts)) (names-AreWords (t ∷ ts)))
      ∙ push_names-names (t ∷ ts) [])
