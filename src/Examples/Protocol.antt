-- ===== src/Examples/Protocol.antt =====
-- Small inputs for the structures of the protocol and the key of VNC authentication.
use vncmanager.Base.{◌/◌, ◌*◌, ◌≡◌, ◌≢◌, arith, [], ◌∷◌, ◌++◌}
use vncmanager.Rfb.Wire.{encode, decode}
use vncmanager.Rfb.Messages.Server.{FramebufferUpdateRectangle, framebuffer_update_rectangle}
use vncmanager.Rfb.RoundTrip.{
  IsRectangle, FormatBytes, bytes, turned, relayed, rectangle_roundtrip, relayed_format,
}
use vncmanager.Connection.Key.{key_byte, reversed_bits, key_byte_ascii, key_byte_high}

abbrev cursor_rectangle : FramebufferUpdateRectangle
cursor_rectangle = record {
  x_position = 300;
  y_position = 2;
  width = 16;
  height = 24;
  encoding_type = 4294967057;
}

cursor_rectangle-IsRectangle : IsRectangle cursor_rectangle
cursor_rectangle-IsRectangle = record {
  x_fits = omega arith;
  y_fits = omega arith;
  width_fits = omega arith;
  height_fits = omega arith;
  encoding_fits = omega arith;
}

rectangle_roundtrip_example :
    decode framebuffer_update_rectangle
      (encode framebuffer_update_rectangle cursor_rectangle ++ (1 ∷ []))
    ≡ cursor_rectangle
rectangle_roundtrip_example =
    rectangle_roundtrip cursor_rectangle (1 ∷ []) cursor_rectangle-IsRectangle

-- 16 bits per pixel, big-endian, with maxima 31, 63 and 31.
abbrev big_endian_format : FormatBytes
big_endian_format = record {
  bpp = 16;
  depth = 16;
  big_endian = 1;
  true_colour = 1;
  red0 = 0;
  red1 = 31;
  green0 = 0;
  green1 = 63;
  blue0 = 0;
  blue1 = 31;
  red_shift = 11;
  green_shift = 5;
  blue_shift = 0;
  pad0 = 0;
  pad1 = 0;
  pad2 = 0;
}

relayed_format_example : relayed (bytes big_endian_format) ≡ bytes (turned big_endian_format)
relayed_format_example = relayed_format big_endian_format (omega arith)

key_byte_ascii_example : key_byte 112 ≡ reversed_bits 112
key_byte_ascii_example = key_byte_ascii 112 (omega arith)

key_byte_high_example : key_byte 233 ≢ reversed_bits 233 / 2 * 2
key_byte_high_example = key_byte_high 233 (omega arith) (omega arith)
