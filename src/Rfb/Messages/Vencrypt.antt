-- ===== src/Rfb/Messages/Vencrypt.antt =====
-- The VeNCrypt structures (rfb.h).
use vncmanager.Base.{ℕ, ◌++◌, [], ◌∷◌}
use vncmanager.Rfb.Wire.{Wire, at, load32, mem32, swap32}

pub record VencryptVersion : Type 0 where
  pub major : ℕ
  pub minor : ℕ

abbrev pub vencrypt_version : Wire VencryptVersion
vencrypt_version = record {
  size = 2;
  hton = λ m. m;
  ntoh = λ m. m;
  to_mem = λ m. m.major ∷ [] ++ m.minor ∷ [];
  of_mem = λ bs. record { major = at bs 0; minor = at bs 1 };
}

pub record VencryptPlainMessage : Type 0 where
  pub username_length : ℕ
  pub password_length : ℕ

abbrev pub vencrypt_plain_message : Wire VencryptPlainMessage
vencrypt_plain_message = record {
  size = 8;
  hton = λ m. record m {
    username_length = swap32 m.username_length;
    password_length = swap32 m.password_length;
  };
  ntoh = λ m. record m {
    username_length = swap32 m.username_length;
    password_length = swap32 m.password_length;
  };
  to_mem = λ m. mem32 m.username_length ++ mem32 m.password_length;
  of_mem = λ bs. record { username_length = load32 bs 0; password_length = load32 bs 4 };
}
