-- ===== src/Tunnel/Tight.antt =====
-- The Tight rectangles of `VncTunnel::processFramebufferUpdate`.
pub mod Length
pub mod Basic
pub mod Relay
pub mod Steps
use vncmanager.Base.{
  ℕ, ◌+◌, ◌*◌, ◌/◌, ◌%◌, ◌^◌, false, leb, ltb, ◌==◌, if◌then◌else◌, Action, ok, gets, pure, check,
  ◌>>=◌, ◌>>◌, overflow,
}
use vncmanager.Rfb.Wire.{u8}
use vncmanager.Rfb.Messages.Server.{FramebufferUpdateRectangle}
use vncmanager.Rfb.Tight.{
  TightCompressionControl, tight_compression_control, is_fill_compression, is_jpeg_compression,
  read_filter_id, tight_pixel_size, copy_filter, palette_filter, tight_min_size_to_compress,
}
use vncmanager.Formatter.{recv, send, forward, forward_directly}
use vncmanager.Tunnel.State.{Tunnel, on_client, on_server, to_client}

-- Values of type `int` are below this; a product that is not has overflowed.
abbrev pub int_limit : ℕ
int_limit = 2 ^ 31

-- `byte & 0x80` asks whether the byte is at least 128, and `byte & 0x7f` is what is left of it.
unfoldable pub tight_length : Action Tunnel ℕ
unfolding forward
tight_length = do
  first ← to_client (forward u8)
  let length1 = first % 128
  if leb 128 first
      then (do
        second ← to_client (forward u8)
        let length2 = length1 + second % 128 * 2 ^ 7
        if leb 128 second
            then (do third ← to_client (forward u8); pure (length2 + third * 2 ^ 14))
            else pure length2)
      else pure length1

-- The lambda `forwardTightVariableLengthData`.
unfoldable pub forward_tight_variable_length_data : Action Tunnel (Unit {0})
unfolding tight_length forward_directly
forward_tight_variable_length_data = do n ← tight_length; to_client (forward_directly n)

-- `m_tightZlibResetQueued`
unfoldable pub reset_streams : TightCompressionControl → Action Tunnel TightCompressionControl
reset_streams c t =
    if t.tight_zlib_reset_queued
    then ok
        (record c { reset_stream0 = 1; reset_stream1 = 1; reset_stream2 = 1; reset_stream3 = 1 })
        (record t { tight_zlib_reset_queued = false })
    else ok c t

unfoldable pub read_filter : TightCompressionControl → Action Tunnel ℕ
unfolding forward read_filter_id
read_filter c = if read_filter_id c then to_client (forward u8) else pure copy_filter

-- The bits of a pixel, once the filter is known.
unfoldable pub filtered_bpp : ℕ → ℕ → Action Tunnel ℕ
unfolding forward forward_directly
filtered_bpp bpp filter =
    if filter == palette_filter
    then (do
      palette_length ← to_client (forward u8)
      to_client (forward_directly (tight_pixel_size * (palette_length + 1)))
      pure (if leb (palette_length + 1) 2 then 1 else 8))
    else pure bpp

abbrev pub tight_data_size : ℕ → FramebufferUpdateRectangle → ℕ
tight_data_size bpp r = (r.width * bpp + 7) / 8 * r.height

unfoldable pub basic_compression :
    FramebufferUpdateRectangle → TightCompressionControl → Action Tunnel (Unit {0})
unfolding read_filter filtered_bpp forward_directly forward_tight_variable_length_data
basic_compression r c = do
  filter ← read_filter c
  pixel_bits ← gets (λ t. t.pixel_format.bits_per_pixel)
  bpp ← filtered_bpp pixel_bits filter
  check (ltb (tight_data_size bpp r) int_limit) overflow
  if ltb (tight_data_size bpp r) tight_min_size_to_compress
      then to_client (forward_directly (tight_data_size bpp r))
      else forward_tight_variable_length_data

unfoldable pub tight_body :
    FramebufferUpdateRectangle → TightCompressionControl → Action Tunnel (Unit {0})
unfolding is_fill_compression is_jpeg_compression forward_directly
    forward_tight_variable_length_data basic_compression
tight_body r c =
    if is_fill_compression c
    then to_client (forward_directly tight_pixel_size)
    else (if is_jpeg_compression c
        then forward_tight_variable_length_data
        else basic_compression r c)

-- What follows the rectangle's header.
unfoldable pub process_tight : FramebufferUpdateRectangle → Action Tunnel (Unit {0})
unfolding recv reset_streams send tight_body
process_tight r = do
  c ← on_server (recv tight_compression_control)
  c' ← reset_streams c
  on_client (send tight_compression_control c')
  tight_body r c'
