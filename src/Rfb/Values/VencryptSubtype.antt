-- ===== src/Rfb/Values/VencryptSubtype.antt =====
-- enum class VeNCryptSubtype.
use vncmanager.Base.{ℕ}

abbrev pub invalid : ℕ
invalid = 0

abbrev pub no_security : ℕ
no_security = 1

abbrev pub vnc_auth : ℕ
vnc_auth = 2

abbrev pub plain : ℕ
plain = 256

abbrev pub tls_none : ℕ
tls_none = 257

abbrev pub x509_none : ℕ
x509_none = 260
