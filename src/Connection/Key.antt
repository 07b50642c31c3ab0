-- ===== src/Connection/Key.antt =====
-- The DES key of `XvncConnection::handleVncAuthSecurityWithPassword`, and its bytes.
use vncmanager.Base.{
  false, Bool-cases, inl, inr, ==_iff, ℕ, zero, suc, ◌+◌, ◌-◌, ◌*◌, ◌/◌, ◌%◌, ◌^◌, ◌<◌, ◌≤◌, ◌≡◌,
  ◌≢◌, refl, arith, Bool, true, List, [], ◌∷◌, bit_and, ltb, ◌==◌, if◌then◌else◌, not,
}

-- `password[i]` is a `char`, which is signed; in the product it becomes an `unsigned long long`.
abbrev pub widened : ℕ → ℕ
widened c = if ltb c 128 then c else c + (2 ^ 64 - 256)

-- `((password[i] * 0x0202020202ULL & 0x010884422010ULL) % 1023) & 0xfe`
unfoldable pub key_byte : ℕ → ℕ
key_byte c = bit_and (bit_and (widened c * 0x0202020202 % 2 ^ 64) 0x010884422010 % 1023) 0xfe

-- `i >= password.size()` gives a zero byte; a password is cut to eight bytes.
abbrev key_bytes : ℕ → List ℕ → List ℕ
key_bytes zero password = []
key_bytes (suc n) [] = 0 ∷ key_bytes n []
key_bytes (suc n) (c ∷ cs) = key_byte c ∷ key_bytes n cs

unfoldable pub key : List ℕ → List ℕ
unfolding key_byte
key password = key_bytes 8 password

-- The bits of a byte in reverse order, which is how VNC authentication uses a password.
abbrev pub reversed_bits : ℕ → ℕ
reversed_bits c =
    c % 2 * 128
    + c / 2 % 2 * 64
    + c / 4 % 2 * 32
    + c / 8 % 2 * 16
    + c / 16 % 2 * 8
    + c / 32 % 2 * 4
    + c / 64 % 2 * 2
    + c / 128 % 2

-- The test passes for the `count` characters from `first` on.
holds_from : ℕ → (count : ℕ) → (ℕ → Bool) → Bool
holds_from first zero test = true
holds_from first (suc count) test =
    let others = holds_from (suc first) count test in if test first then others else false

every_character :
    (first count c : ℕ) (test : ℕ → Bool)
    → first ≤ c
    → c < first + count
    → holds_from first count test ≡ true
    → test c ≡ true
unfolding holds_from
every_character first zero c test low high h = absurd (omega arith)
every_character first (suc count) c test low high h = elim (Bool-cases (c == first)) [
  | inl same ↦ ground (arith, (==_iff c first).0 same)
  | inr other ↦ ground (arith, every_character (suc first) count c test)
]

low_table : holds_from 0 128 (λ c. key_byte c == reversed_bits c) ≡ true
unfolding holds_from key_byte
low_table = refl

high_table : holds_from 128 128 (λ c. not (key_byte c == reversed_bits c / 2 * 2)) ≡ true
unfolding holds_from key_byte
high_table = refl

-- The key byte of an ASCII character has its bits in reverse order.
pub key_byte_ascii : (c : ℕ) → c < 128 → key_byte c ≡ reversed_bits c
key_byte_ascii c h =
    (==_iff _ _).0 (every_character 0 128 c _ (omega arith) (omega arith) low_table)

-- The key byte of any other character of eight bits is wrong, even where DES ignores the lowest bit.
pub key_byte_high : (c : ℕ) → 128 ≤ c → c < 256 → key_byte c ≢ reversed_bits c / 2 * 2
key_byte_high c low high e =
    let differs = every_character 128 128 c _ low (omega arith) high_table in ground arith
