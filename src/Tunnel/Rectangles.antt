-- ===== src/Tunnel/Rectangles.antt =====
-- One round of the loop in `VncTunnel::processFramebufferUpdate`, but for Tight.
pub mod Relay
pub mod Written
pub mod Fates
pub mod Sizes
use vncmanager.Base.{
  ℕ, ◌+◌, ◌*◌, ◌/◌, ◌%◌, ◌^◌, Bool, false, List, [], ◌∷◌, length, take, leb, ltb, ◌==◌, ◌||◌,
  if◌then◌else◌, Action, ok, err, gets, modify, pure, throw, check, when, ◌>>=◌, ◌>>◌, overflow,
  no_dummy_encoding, unknown_encoding, assertion,
}
use vncmanager.Rfb.Values.EncodingType
use vncmanager.Rfb.Wire.{u16, u32}
use vncmanager.Rfb.Messages.Server.{
  FramebufferUpdateRectangle, framebuffer_update_rectangle, extended_desktop_size_rectangle_data,
}
use vncmanager.Rfb.Messages.Client.{set_desktop_size_screen}
use vncmanager.Formatter.{recv, send, send_raw, recv_string, forward, forward_directly}
use vncmanager.Connection.State.{set_framebuffer_size, set_desktop_name}
use vncmanager.Tunnel.State.{
  Tunnel, on_client, on_server, to_client, client_supports_encoding, desktop_name, current_state,
  with_current_state,
}
use vncmanager.Tunnel.Tight.{int_limit, process_tight}

-- What became of a rectangle of the server: a rectangle was sent to the client, or none was, or
-- LastRect was.
pub data Fate : Type 0 where
  passed : Fate
  skipped : Fate
  last : Fate

-- The products are of type `int`; the test is false where one overflows.
abbrev pub pixel_bytes : ℕ → FramebufferUpdateRectangle → ℕ
pixel_bytes bpp r = r.width * r.height * bpp / 8

abbrev pub fits_int : ℕ → FramebufferUpdateRectangle → Bool
fits_int bpp r =
    if ltb (r.width * r.height) int_limit then ltb (r.width * r.height * bpp) int_limit else false

abbrev pub mask_bytes : FramebufferUpdateRectangle → ℕ
mask_bytes r = (r.width + 7) / 8 * r.height

-- The inner switch.
unfoldable pub buffer_size : ℕ → FramebufferUpdateRectangle → Action Tunnel ℕ
buffer_size bpp r =
    if r.encoding_type == EncodingType.raw
    then (do check (fits_int bpp r) overflow; pure (pixel_bytes bpp r))
    else (if r.encoding_type == EncodingType.copy_rect
        then pure 4
        else (if r.encoding_type == EncodingType.cursor
            then (do check (fits_int bpp r) overflow; pure (pixel_bytes bpp r + mask_bytes r))
            else (if r.encoding_type == EncodingType.x_cursor
                then pure (6 + mask_bytes r * 2)
                else throw assertion)))

unfoldable pub process_pass_through : FramebufferUpdateRectangle → Action Tunnel Fate
unfolding buffer_size send forward_directly
process_pass_through r = do
  bpp ← gets (λ t. t.pixel_format.bits_per_pixel)
  size ← buffer_size bpp r
  on_client (send framebuffer_update_rectangle r)
  to_client (forward_directly size)
  pure passed

-- The sum is a `uint32_t`, and wraps.
abbrev pub rre_size : ℕ → ℕ → ℕ
rre_size bpp n = (bpp / 8 + n * (bpp / 8 + 8)) % 2 ^ 32

unfoldable pub process_rre : FramebufferUpdateRectangle → Action Tunnel Fate
unfolding send forward forward_directly
process_rre r = do
  on_client (send framebuffer_update_rectangle r)
  n ← to_client (forward u32)
  bpp ← gets (λ t. t.pixel_format.bits_per_pixel)
  to_client (forward_directly (rre_size bpp n))
  pure passed

unfoldable pub resize : FramebufferUpdateRectangle → Action Tunnel (Unit {0})
unfolding set_framebuffer_size
resize r = modify (λ t. record t { current = set_framebuffer_size r.width r.height t.current })

unfoldable pub process_desktop_size : FramebufferUpdateRectangle → Action Tunnel Fate
unfolding send resize
process_desktop_size r = do on_client (send framebuffer_update_rectangle r); resize r; pure passed

unfoldable pub process_last_rect : FramebufferUpdateRectangle → Action Tunnel Fate
unfolding send
process_last_rect r = do on_client (send framebuffer_update_rectangle r); pure last

abbrev pub one_pixel : ℕ → FramebufferUpdateRectangle
one_pixel encoding = record {
  x_position = 0;
  y_position = 0;
  width = 1;
  height = 1;
  encoding_type = encoding;
}

-- `send_raw(&black, bitsPerPixel / 8)` reads a `uint32_t`, and no more than its four bytes.
unfoldable pub send_dummy_rectangle : Action Tunnel (Unit {0})
unfolding send send_raw
send_dummy_rectangle t =
    if client_supports_encoding EncodingType.raw t
    then ((do
      on_client (send framebuffer_update_rectangle (one_pixel EncodingType.raw))
      check (leb (t.pixel_format.bits_per_pixel / 8) 4) overflow
      on_client (send_raw (take (t.pixel_format.bits_per_pixel / 8) (0 ∷ 0 ∷ 0 ∷ 0 ∷ []))))
        t)
    else (if client_supports_encoding EncodingType.copy_rect t
        then ((do
          on_client (send framebuffer_update_rectangle (one_pixel EncodingType.copy_rect))
          on_client (send u16 1)
          on_client (send u16 0))
            t)
        else err no_dummy_encoding t)

-- `m_currentConnection->setDesktopName`
unfoldable pub rename : List ℕ → Action Tunnel (Unit {0})
unfolding set_desktop_name
rename name = modify (λ t. with_current_state (set_desktop_name name (current_state t)) t)

-- The name that is sent is the session's, which may be another than the one received.
unfoldable pub send_desktop_name : FramebufferUpdateRectangle → Action Tunnel (Unit {0})
unfolding send send_raw
send_desktop_name r = do
  on_client (send framebuffer_update_rectangle r)
  name ← gets desktop_name
  on_client (send u32 (length name))
  on_client (send_raw name)

unfoldable pub forward_desktop_name : FramebufferUpdateRectangle → Action Tunnel Fate
unfolding send_desktop_name send_dummy_rectangle
forward_desktop_name r t =
    if client_supports_encoding EncodingType.desktop_name t
    then ((do send_desktop_name r; pure passed) t)
    else (if client_supports_encoding EncodingType.last_rect t
        then ok skipped t
        else ((do send_dummy_rectangle; pure passed) t))

unfoldable pub process_desktop_name : FramebufferUpdateRectangle → Action Tunnel Fate
unfolding recv recv_string rename forward_desktop_name
process_desktop_name r = do
  n ← on_server (recv u32)
  name ← on_server (recv_string n)
  rename name
  forward_desktop_name r

-- ExtendedDesktopSizeStatus::NoError is 0.
unfoldable pub process_extended_desktop_size : FramebufferUpdateRectangle → Action Tunnel Fate
unfolding resize send forward forward_directly
process_extended_desktop_size r = do
  when (r.y_position == 0) (resize r)
  on_client (send framebuffer_update_rectangle r)
  d ← to_client (forward extended_desktop_size_rectangle_data)
  to_client (forward_directly (set_desktop_size_screen.size * d.number_of_screens))
  pure passed

abbrev pub is_pass_through : ℕ → Bool
is_pass_through e =
    e == EncodingType.raw
    || e == EncodingType.copy_rect
    || e == EncodingType.cursor
    || e == EncodingType.x_cursor

unfoldable pub process_tight_rectangle : FramebufferUpdateRectangle → Action Tunnel Fate
unfolding send process_tight
process_tight_rectangle r = do
  on_client (send framebuffer_update_rectangle r)
  process_tight r
  pure passed

-- The outer switch.
unfoldable pub process_rectangle : FramebufferUpdateRectangle → Action Tunnel Fate
process_rectangle r =
    if is_pass_through r.encoding_type
    then process_pass_through r
    else (if r.encoding_type == EncodingType.rre
        then process_rre r
        else (if r.encoding_type == EncodingType.desktop_size
            then process_desktop_size r
            else (if r.encoding_type == EncodingType.last_rect
                then process_last_rect r
                else (if r.encoding_type == EncodingType.desktop_name
                    then process_desktop_name r
                    else (if r.encoding_type == EncodingType.extended_desktop_size
                        then process_extended_desktop_size r
                        else (if r.encoding_type == EncodingType.tight
                            then process_tight_rectangle r
                            else throw unknown_encoding))))))
