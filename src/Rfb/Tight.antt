-- ===== src/Rfb/Tight.antt =====
-- The Tight encoding's control byte, filters and pixels (rfb.h).
use vncmanager.Base.{ℕ, ◌+◌, ◌*◌, ◌/◌, ◌%◌, Bool, not, [], ◌∷◌, ◌==◌}
use vncmanager.Rfb.Wire.{Wire, at}

-- Four bits of one each, and the other four; the first is the lowest bit of the byte.
pub record TightCompressionControl : Type 0 where
  pub reset_stream0 : ℕ
  pub reset_stream1 : ℕ
  pub reset_stream2 : ℕ
  pub reset_stream3 : ℕ
  pub rest : ℕ

-- `rest & 0x3`
unfoldable pub use_stream : TightCompressionControl → ℕ
use_stream c = c.rest % 4

-- `!(rest & 0x8)`
unfoldable pub is_basic_compression : TightCompressionControl → Bool
is_basic_compression c = c.rest / 8 % 2 == 0

unfoldable pub is_fill_compression : TightCompressionControl → Bool
is_fill_compression c = c.rest == 8

unfoldable pub is_jpeg_compression : TightCompressionControl → Bool
is_jpeg_compression c = c.rest == 9

-- `rest & 0x4`
unfoldable pub read_filter_id : TightCompressionControl → Bool
read_filter_id c = not (c.rest / 4 % 2 == 0)

abbrev pub tight_compression_control : Wire TightCompressionControl
tight_compression_control = record {
  size = 1;
  hton = λ c. c;
  ntoh = λ c. c;
  to_mem = λ c.
      (c.reset_stream0
        + 2 * c.reset_stream1
        + 4 * c.reset_stream2
        + 8 * c.reset_stream3
        + 16 * c.rest)
      ∷ [];
  of_mem = λ bs. record {
    reset_stream0 = at bs 0 % 2;
    reset_stream1 = at bs 0 / 2 % 2;
    reset_stream2 = at bs 0 / 4 % 2;
    reset_stream3 = at bs 0 / 8 % 2;
    rest = at bs 0 / 16 % 16;
  };
}

-- sizeof(TightPixel)
abbrev pub tight_pixel_size : ℕ
tight_pixel_size = 3

abbrev pub copy_filter : ℕ
copy_filter = 0

abbrev pub palette_filter : ℕ
palette_filter = 1

abbrev pub tight_min_size_to_compress : ℕ
tight_min_size_to_compress = 12
