-- ===== src/Rfb/Wire.antt =====
-- Structures in memory and on the wire (StreamFormatter.h, the hton and ntoh overloads).
-- The host is little-endian: the first byte of a number in memory is its lowest.
use vncmanager.Base.{ℕ, zero, suc, ◌+◌, ◌*◌, ◌/◌, ◌%◌, List, [], ◌∷◌, ◌++◌, get_or, drop}

abbrev pub at : List ℕ → ℕ → ℕ
at bs i = get_or bs i 0

abbrev pub load16 : List ℕ → ℕ → ℕ
load16 bs i = at bs i + 256 * at bs (i + 1)

abbrev pub load24 : List ℕ → ℕ → ℕ
load24 bs i = load16 bs i + 65536 * at bs (i + 2)

abbrev pub load32 : List ℕ → ℕ → ℕ
load32 bs i = load16 bs i + 65536 * load16 bs (i + 2)

abbrev pub mem16 : ℕ → List ℕ
mem16 v = v % 256 ∷ v / 256 % 256 ∷ []

abbrev pub mem24 : ℕ → List ℕ
mem24 v = v % 256 ∷ v / 256 % 256 ∷ v / 65536 % 256 ∷ []

abbrev pub mem32 : ℕ → List ℕ
mem32 v = v % 256 ∷ v / 256 % 256 ∷ v / 65536 % 256 ∷ v / 16777216 % 256 ∷ []

-- `htons` and `ntohs`, `htonl` and `ntohl` of a little-endian host: they reverse the bytes.
abbrev pub swap16 : ℕ → ℕ
swap16 v = v % 256 * 256 + v / 256 % 256

abbrev pub swap32 : ℕ → ℕ
swap32 v = v % 256 * 16777216 + v / 256 % 256 * 65536 + v / 65536 % 256 * 256 + v / 16777216 % 256

-- What the formatter's templates need of a type: its size, its byte order and its memory.
pub record Wire (T : Type 0) : Type 0 where
  pub size : ℕ
  pub hton : T → T
  pub ntoh : T → T
  pub to_mem : T → List ℕ
  pub of_mem : List ℕ → T

module _ {T : Type 0} (w : Wire T) where
  -- The bytes that `send` puts on the wire, and the value that `recv` reads from bytes.
  abbrev pub encode : T → List ℕ
  encode t = w.to_mem (w.hton t)

  abbrev pub decode : List ℕ → T
  decode bs = w.ntoh (w.of_mem bs)

  -- `send` of a vector.
  abbrev pub encode_all : List T → List ℕ
  encode_all [] = []
  encode_all (t ∷ ts) = encode t ++ encode_all ts

  -- `recv` into a vector of `n` elements.
  abbrev pub decode_all : ℕ → List ℕ → List T
  decode_all zero bs = []
  decode_all (suc n) bs = decode bs ∷ decode_all n (drop w.size bs)

abbrev pub u8 : Wire ℕ
u8 = record { size = 1; hton = λ v. v; ntoh = λ v. v; to_mem = λ v. v ∷ []; of_mem = λ bs. at bs 0 }

abbrev pub u16 : Wire ℕ
u16 = record { size = 2; hton = swap16; ntoh = swap16; to_mem = mem16; of_mem = λ bs. load16 bs 0 }

abbrev pub u32 : Wire ℕ
u32 = record { size = 4; hton = swap32; ntoh = swap32; to_mem = mem32; of_mem = λ bs. load32 bs 0 }

-- Big-endian, as the protocol writes numbers.
abbrev pub be16 : ℕ → List ℕ
be16 v = v / 256 ∷ v % 256 ∷ []

abbrev pub be32 : ℕ → List ℕ
be32 v = v / 16777216 ∷ v / 65536 % 256 ∷ v / 256 % 256 ∷ v % 256 ∷ []
