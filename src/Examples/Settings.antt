-- ===== src/Examples/Settings.antt =====
-- Small configurations, and a tokenizer that splits at commas.
use vncmanager.Base.{
  ℕ, ◌≡◌, ◌≢◌, refl, sym, ap, ◌∙◌, Bool, true, false, none, List, [], ◌∷◌, ◌++◌, append-nil,
  append_assoc, codes, contains, ◌==◌, Bool-cases, inl, inr, map,
}
use vncmanager.Configuration.{
  parsed, validate_security, ConfigurationOptions, Mode, executable, readable, check,
}
use vncmanager.Configuration.Laws.{
  comma, join, Splits, tls, x509, name, value, required_files, Verdict, check-Verdict,
  validate_security-join,
}

flush : List ℕ → List (List ℕ) → List (List ℕ)
flush [] rest = rest
flush (x ∷ xs) rest = (x ∷ xs) ∷ rest

-- The word so far, and the text to come.
tokens : List ℕ → List ℕ → List (List ℕ)
unfolding flush
tokens word [] = flush word []
tokens word (c ∷ cs) = elim (c == comma) [
  | true ↦ flush word (tokens [] cs)
  | false ↦ tokens (word ++ (c ∷ [])) cs
]

tokens-append :
    (word w rest : List ℕ)
    → contains w comma ≡ false
    → tokens word (w ++ rest) ≡ tokens (word ++ w) rest
unfolding tokens
tokens-append word [] rest h = ap (λ v. tokens v rest) (sym (append-nil word))
tokens-append word (c ∷ cs) rest h = elim (Bool-cases (c == comma)) [
  | inl separator ↦ cc (rw separator at h)
  | inr letter ↦
      rw (letter, tokens)
        (tokens-append (word ++ (c ∷ [])) cs rest (rw letter at h)
          ∙ ap (λ v. tokens v rest) (append_assoc word (c ∷ []) cs))
]

flush_word : (w : List ℕ) (rest : List (List ℕ)) → w ≢ [] → flush w rest ≡ w ∷ rest
unfolding flush
flush_word [] rest h = absurd (h refl)
flush_word (x ∷ xs) rest h = refl

split_commas : List ℕ → List (List ℕ)
split_commas text = tokens [] text

split_commas-Splits : Splits split_commas
unfolding split_commas tokens
split_commas-Splits [] h = refl
split_commas-Splits (w ∷ []) h =
    ap (tokens []) (sym (append-nil w)) ∙ tokens-append [] w [] h.0.1 ∙ flush_word w [] h.0.0
split_commas-Splits (w ∷ v ∷ ws) h =
    tokens-append [] w (comma ∷ join (v ∷ ws)) h.0.1
    ∙ flush_word w (tokens [] (join (v ∷ ws))) h.0.0
    ∙ ap (◌∷◌ w) (split_commas-Splits (v ∷ ws) h.1)

validate_security-join_example :
    validate_security split_commas none (join (map name (x509 ∷ tls ∷ [])) ∷ [])
    ≡ parsed (map value (x509 ∷ tls ∷ []))
validate_security-join_example =
    validate_security-join split_commas x509 (tls ∷ []) split_commas-Splits

-- A manager with certificates, of which only the programs are there.
abbrev with_certificate : ConfigurationOptions
with_certificate = record {
  xvnc = codes "/usr/bin/Xvnc";
  greeter = codes "/usr/bin/vncmanager-greeter";
  xauth = codes "/usr/bin/xauth";
  disable_manager = false;
  security = 257 ∷ 260 ∷ [];
  tls_cert = codes "/etc/vnc/tls.cert";
  tls_key = codes "/etc/vnc/tls.key";
}

abbrev programs_only : List ℕ → Mode → Bool
programs_only path executable = true
programs_only path readable = false

check-Verdict_example :
    Verdict programs_only (required_files with_certificate) (check programs_only with_certificate)
check-Verdict_example = check-Verdict programs_only with_certificate
