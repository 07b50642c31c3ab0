-- ===== src/Rfb/RoundTrip.antt =====
-- The structures of rfb.h on the wire, and read back from it.
use vncmanager.Base.{ℕ, ◌<◌, ◌≡◌, arith, List, [], ◌∷◌, ◌++◌, All, ◌==◌, if◌then◌else◌}
use vncmanager.Rfb.Wire.{u16, u32, encode, decode, be16, be32, mem16, mem32, swap16, swap32}
use vncmanager.Rfb.Pixel.{pixel_format}
use vncmanager.Rfb.Messages.Server.{FramebufferUpdateRectangle, framebuffer_update_rectangle}

abbrev pub IsByte : ℕ → Type 0
IsByte b = b < 256

-- The fields' ranges.
pub record IsRectangle (r : FramebufferUpdateRectangle) : Type 0 where
  pub x_fits : r.x_position < 65536
  pub y_fits : r.y_position < 65536
  pub width_fits : r.width < 65536
  pub height_fits : r.height < 65536
  pub encoding_fits : r.encoding_type < 4294967296

pub swap16-mem16 : (v : ℕ) → v < 65536 → mem16 (swap16 v) ≡ be16 v
swap16-mem16 v h = ground arith

pub swap32-mem32 : (v : ℕ) → v < 4294967296 → mem32 (swap32 v) ≡ be32 v
swap32-mem32 v h = ground arith

pub load16-be16 : (v : ℕ) → v < 65536 → decode u16 (be16 v) ≡ v
load16-be16 v h = omega arith

pub load32-be32 : (v : ℕ) → v < 4294967296 → decode u32 (be32 v) ≡ v
load32-be32 v h = omega arith

-- A rectangle header with its fields in their ranges goes out as four big-endian 16-bit numbers and the encoding, big-endian.
rectangle_wire :
    (r : FramebufferUpdateRectangle)
    → IsRectangle r
    → encode framebuffer_update_rectangle r
      ≡ be16 r.x_position
        ++ be16 r.y_position
        ++ be16 r.width
        ++ be16 r.height
        ++ be32 r.encoding_type
rectangle_wire r h = ground arith

-- A rectangle header with its fields in their ranges reads back as it was, whatever follows it.
pub rectangle_roundtrip :
    (r : FramebufferUpdateRectangle) (rest : List ℕ)
    → IsRectangle r
    → decode framebuffer_update_rectangle (encode framebuffer_update_rectangle r ++ rest) ≡ r
rectangle_roundtrip r rest h = ground arith

-- The sixteen bytes of a pixel format that a relayed SetPixelFormat ends in, once the client's
-- bytes went through `recv` and `send`.
abbrev pub relayed : List ℕ → List ℕ
relayed bs = encode pixel_format (decode pixel_format bs)

-- The sixteen bytes of a pixel format on the wire.
pub record FormatBytes : Type 0 where
  pub bpp : ℕ
  pub depth : ℕ
  pub big_endian : ℕ
  pub true_colour : ℕ
  pub red0 : ℕ
  pub red1 : ℕ
  pub green0 : ℕ
  pub green1 : ℕ
  pub blue0 : ℕ
  pub blue1 : ℕ
  pub red_shift : ℕ
  pub green_shift : ℕ
  pub blue_shift : ℕ
  pub pad0 : ℕ
  pub pad1 : ℕ
  pub pad2 : ℕ

abbrev pub bytes : FormatBytes → List ℕ
bytes f =
    f.bpp ∷ f.depth ∷ f.big_endian ∷ f.true_colour ∷ f.red0 ∷ f.red1 ∷ f.green0 ∷ f.green1 ∷ f.blue0
    ∷ f.blue1 ∷ f.red_shift ∷ f.green_shift ∷ f.blue_shift ∷ f.pad0 ∷ f.pad1 ∷ f.pad2 ∷ []

-- Every field a byte.
abbrev pub AreBytes : FormatBytes → Type 0
AreBytes f = All IsByte (bytes f)

-- The maxima with their two bytes exchanged, and the flag cleared.
abbrev pub turned : FormatBytes → FormatBytes
turned f = record f {
  big_endian = 0;
  red0 = f.red1;
  red1 = f.red0;
  green0 = f.green1;
  green1 = f.green0;
  blue0 = f.blue1;
  blue1 = f.blue0;
}

-- A format of sixteen bytes that a client sends is relayed byte for byte when its big-endian flag is 0. With any
-- other flag the flag is cleared, and the two bytes of each colour maximum change places.
pub relayed_format :
    (f : FormatBytes)
    → AreBytes f
    → relayed (bytes f) ≡ (if f.big_endian == 0 then bytes f else bytes (turned f))
relayed_format f h = ground arith
