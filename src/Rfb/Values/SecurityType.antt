-- ===== src/Rfb/Values/SecurityType.antt =====
-- enum class SecurityType.
use vncmanager.Base.{ℕ}

abbrev pub invalid : ℕ
invalid = 0

abbrev pub no_security : ℕ
no_security = 1

abbrev pub vnc_auth : ℕ
vnc_auth = 2

abbrev pub vencrypt : ℕ
vencrypt = 19
