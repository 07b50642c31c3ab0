-- ===== src/Rfb/Pixel.antt =====
-- struct PixelFormat, with its byte order functions as they are.
use vncmanager.Base.{ℕ, Bool, ◌++◌, List, ◌∷◌, ◌==◌, if◌then◌else◌, ◌&&◌, ◌||◌, not}
use vncmanager.Rfb.Wire.{Wire, at, load16, load24, mem16, mem24, swap16}

pub record PixelFormat : Type 0 where
  pub bits_per_pixel : ℕ
  pub depth : ℕ
  pub big_endian_flag : ℕ
  pub true_colour_flag : ℕ
  pub red_max : ℕ
  pub green_max : ℕ
  pub blue_max : ℕ
  pub red_shift : ℕ
  pub green_shift : ℕ
  pub blue_shift : ℕ
  pub padding : ℕ

abbrev pub ntoh : PixelFormat → PixelFormat
ntoh p = if p.big_endian_flag == 0 then p else (record p {
  red_max = swap16 p.red_max;
  green_max = swap16 p.green_max;
  blue_max = swap16 p.blue_max;
})

-- `__BYTE_ORDER == __BIG_ENDIAN` is false on the modelled host.
abbrev pub hton : PixelFormat → PixelFormat
hton p = record p { big_endian_flag = 0 }

abbrev pub to_mem : PixelFormat → List ℕ
to_mem p =
    p.bits_per_pixel ∷ p.depth ∷ p.big_endian_flag ∷ p.true_colour_flag ∷ mem16 p.red_max
    ++ mem16 p.green_max
    ++ mem16 p.blue_max
    ++ p.red_shift ∷ p.green_shift ∷ p.blue_shift ∷ mem24 p.padding

abbrev pub of_mem : List ℕ → PixelFormat
of_mem bs = record {
  bits_per_pixel = at bs 0;
  depth = at bs 1;
  big_endian_flag = at bs 2;
  true_colour_flag = at bs 3;
  red_max = load16 bs 4;
  green_max = load16 bs 6;
  blue_max = load16 bs 8;
  red_shift = at bs 10;
  green_shift = at bs 11;
  blue_shift = at bs 12;
  padding = load24 bs 13;
}

abbrev pub pixel_format : Wire PixelFormat
pixel_format = record { size = 16; hton = hton; ntoh = ntoh; to_mem = to_mem; of_mem = of_mem }

-- `operator==`, which leaves the padding out.
pub same_format : PixelFormat → PixelFormat → Bool
same_format p q =
    p.bits_per_pixel == q.bits_per_pixel
    && p.depth == q.depth
    && p.big_endian_flag == q.big_endian_flag
    && p.true_colour_flag == q.true_colour_flag
    && p.red_max == q.red_max
    && p.green_max == q.green_max
    && p.blue_max == q.blue_max
    && p.red_shift == q.red_shift
    && p.green_shift == q.green_shift
    && p.blue_shift == q.blue_shift

-- `operator!=`
pub other_format : PixelFormat → PixelFormat → Bool
other_format p q = not (same_format p q)

unfoldable pub valid : PixelFormat → Bool
valid p =
    p.bits_per_pixel == 8
    || p.bits_per_pixel == 16
    || p.bits_per_pixel == 24
    || p.bits_per_pixel == 32
