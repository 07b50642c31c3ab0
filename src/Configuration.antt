-- ===== src/Configuration.antt =====
-- Configuration.cpp: the parsing of the options' own types, and the checks of the files. The rest of
-- `parse` is boost's. Text is a list of bytes, and the tokenizers of boost are arguments.
pub mod Laws
use vncmanager.Base.{
  ℕ, Bool, true, false, not, Option, none, some, List, [], ◌∷◌, ◌++◌, codes, contains, ◌==◌,
  same_bytes, if◌then◌else◌,
}
use vncmanager.Rfb.Values.VencryptSubtype

-- What `validate` throws: a name that it does not know, or an empty list.
pub data Invalid : Type 0 where
  unknown_security_type : List ℕ → Invalid
  no_security_type : Invalid

pub data Parsed (A : Type 0) : Type 0 where
  parsed : A → Parsed A
  invalid : Invalid → Parsed A

abbrev pub tls_name : List ℕ
tls_name = codes "TLS"

abbrev pub x509_name : List ℕ
x509_name = codes "X509"

abbrev pub none_name : List ℕ
none_name = codes "None"

unfoldable pub subtype_named : List ℕ → Option ℕ
subtype_named str =
    if same_bytes str tls_name
    then some VencryptSubtype.tls_none
    else (if same_bytes str x509_name
        then some VencryptSubtype.x509_none
        else (if same_bytes str none_name then some VencryptSubtype.no_security else none))

-- The inner loop of `validate`: `push_back` of each name's subtype. `p` is what the list holds.
unfoldable pub push_names : List (List ℕ) → List ℕ → Parsed (List ℕ)
unfolding subtype_named
push_names [] p = parsed p
push_names (str ∷ strs) p = elim (subtype_named str) [
  | none ↦ invalid (unknown_security_type str)
  | some t ↦ push_names strs (p ++ (t ∷ []))
]

-- `po::value<bool>`, `std::string` and the lists, once they are parsed.
pub record ConfigurationOptions : Type 0 where
  pub xvnc : List ℕ
  pub greeter : List ℕ
  pub xauth : List ℕ
  pub disable_manager : Bool
  pub security : List ℕ
  pub tls_cert : List ℕ
  pub tls_key : List ℕ

module _ (split : List ℕ → List (List ℕ)) where
  -- The outer loop, over the tokens of the command line or of a line of the file.
  unfoldable pub push_tokens : List (List ℕ) → List ℕ → Parsed (List ℕ)
  unfolding push_names
  push_tokens [] p = parsed p
  push_tokens (token ∷ tokens) p = elim (push_names (split token) p) [
    | parsed p' ↦ push_tokens tokens p'
    | invalid e ↦ invalid e
  ]

  abbrev pub not_empty : List ℕ → Parsed (List ℕ)
  not_empty [] = invalid no_security_type
  not_empty (t ∷ ts) = parsed (t ∷ ts)

  -- `validate` of a VeNCryptSubtypesList, with a tokenizer that splits at commas. `v` is the option's
  -- value so far, which may be empty.
  unfoldable pub validate_security : Option (List ℕ) → List (List ℕ) → Parsed (List ℕ)
  unfolding push_tokens
  validate_security v tokens = elim (push_tokens tokens (elim v [ none ↦ [] | some p ↦ p ])) [
    | parsed p ↦ not_empty p
    | invalid e ↦ invalid e
  ]

  -- `validate` of an XvncArgList, with a tokenizer that splits at spaces and knows quotes and escapes.
  unfoldable pub push_arguments : List (List ℕ) → List (List ℕ) → List (List ℕ)
  push_arguments [] p = p
  push_arguments (token ∷ tokens) p = push_arguments tokens (p ++ split token)

  unfoldable pub validate_xvnc_args : Option (List (List ℕ)) → List (List ℕ) → List (List ℕ)
  unfolding push_arguments
  validate_xvnc_args v tokens = push_arguments tokens (elim v [ none ↦ [] | some p ↦ p ])

-- The modes of `access`.
pub data Mode : Type 0 where
  executable : Mode
  readable : Mode

-- What `check` throws: the system's error for a path.
pub data Checked : Type 0 where
  checked : Checked
  system_error : List ℕ → Checked

module _ (access : List ℕ → Mode → Bool) where
  abbrev pub need : List ℕ → Mode → Checked → Checked
  need path mode rest = if access path mode then rest else system_error path

  unfoldable pub check_tls : ConfigurationOptions → Checked
  check_tls o =
      if contains o.security VencryptSubtype.x509_none
      then need o.tls_cert readable (need o.tls_key readable checked)
      else checked

  unfoldable pub check : ConfigurationOptions → Checked
  unfolding check_tls
  check o = need o.xvnc executable (
      if not o.disable_manager
      then need o.greeter executable (need o.xauth executable (check_tls o))
      else check_tls o)

-- What `parse` meets: the parsed options and whether "help" is among them, and whether the file of
-- "config" could be read and was named on the command line.
pub data Outcome : Type 0 where
  parse_ok : Outcome
  parse_false : Outcome
  parse_throws : List ℕ → Outcome

pub record ParsedFile : Type 0 where
  pub good : Bool
  pub config_defaulted : Bool
  pub help : Bool

abbrev pub checked_outcome : Checked → Outcome
checked_outcome checked = parse_ok
checked_outcome (system_error path) = parse_throws path

unfoldable pub parse : (List ℕ → Mode → Bool) → ParsedFile → ConfigurationOptions → Outcome
unfolding check
parse access f o =
    if (if f.good then false else not f.config_defaulted)
    then parse_false
    else (if f.help then parse_false else checked_outcome (check access o))
