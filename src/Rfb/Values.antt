-- ===== src/Rfb/Values.antt =====
-- The enumerations of rfb.h. A scoped enumeration holds any value of its underlying type, so a
-- value is a number and a name is a constant; an `int32_t` is its 32-bit pattern.
pub mod ClientMessageType
pub mod ServerMessageType
pub mod SecurityType
pub mod EncodingType
pub mod VencryptSubtype
use vncmanager.Base.{ℕ, List, [], ◌∷◌}

abbrev pub highest_version_string : List ℕ
highest_version_string =
    b'R' ∷ b'F' ∷ b'B' ∷ b' ' ∷ b'0' ∷ b'0' ∷ b'3' ∷ b'.' ∷ b'0' ∷ b'0' ∷ b'8' ∷ 10 ∷ []

-- SecurityResult
abbrev pub security_ok : ℕ
security_ok = 0

abbrev pub security_failed : ℕ
security_failed = 1
