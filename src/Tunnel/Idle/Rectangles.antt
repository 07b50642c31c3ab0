-- ===== src/Tunnel/Idle/Rectangles.antt =====
-- The rectangles of an update leave the push-back buffers empty.
use vncmanager.Base.{
  ℕ, ◌+◌, ◌*◌, ◌/◌, leb, ◌==◌, gets, check, pure, when, Leads-throw, Leads-if, Leads-bind,
  Keeps-gets, Keeps-pure, Keeps-when, ◌>>=◌, ◌>>◌, overflow, assertion, unknown_encoding, length,
  take, List, Bool-cases, inl, inr, ◌∷◌, [],
}
use vncmanager.Rfb.Values.EncodingType
use vncmanager.Rfb.Wire.{u16, u32}
use vncmanager.Rfb.Messages.Server.{
  FramebufferUpdateRectangle, framebuffer_update_rectangle, extended_desktop_size_rectangle_data,
}
use vncmanager.Rfb.Messages.Client.{set_desktop_size_screen}
use vncmanager.Formatter.{recv, send, send_raw, recv_string, forward, forward_directly}
use vncmanager.Formatter.Buffer.{recv-Clears, recv_string-Clears, forward-Hands}
use vncmanager.Connection.State.{set_framebuffer_size, set_desktop_name}
use vncmanager.Tunnel.State.{
  on_client, on_server, to_client, client_supports_encoding, desktop_name,
}
use vncmanager.Tunnel.Tight.{process_tight}
use vncmanager.Tunnel.Rectangles.{
  buffer_size, fits_int, pixel_bytes, mask_bytes, process_pass_through, process_rre, rre_size,
  resize, process_desktop_size, process_last_rect, one_pixel, passed, last, is_pass_through,
  send_dummy_rectangle, rename, send_desktop_name, forward_desktop_name, process_desktop_name,
  process_extended_desktop_size, process_tight_rectangle, process_rectangle,
}
use vncmanager.Tunnel.Run.{is_connection_exception}
use vncmanager.Tunnel.Idle.{on_server-Keeps, to_client-Keeps, send-Keeps, send_raw-Keeps}
use vncmanager.Tunnel.Idle.Tight.{Idles, forwards, header, overflow_check, process_tight-Idles}

-- Reads of the server and raw bytes to the client.
text : (n : ℕ) → Idles (on_server (recv_string n))
text n = on_server-Keeps _ n (recv_string-Clears n)

resize-Idles : (r : FramebufferUpdateRectangle) → Idles (resize r)
unfolding resize set_framebuffer_size
resize-Idles r = record { at = λ t h. h }

buffer_size-Idles : (bpp : ℕ) (r : FramebufferUpdateRectangle) → Idles (buffer_size bpp r)
unfolding buffer_size is_connection_exception
buffer_size-Idles bpp r =
    Leads-if (r.encoding_type == EncodingType.raw) _ _ (checked (pixel_bytes bpp r)) (
      Leads-if (r.encoding_type == EncodingType.copy_rect) _ _ (Keeps-pure 4) (
        Leads-if (r.encoding_type == EncodingType.cursor) _ _
          (checked (pixel_bytes bpp r + mask_bytes r))
          (Leads-if (r.encoding_type == EncodingType.x_cursor) _ _
            (Keeps-pure (6 + mask_bytes r * 2)) (Leads-throw assertion (λ t h k. cc k)))))
  where
    checked : (n : ℕ) → Idles (check (fits_int bpp r) overflow >>= λ _. pure n)
    checked n =
        Leads-bind (check (fits_int bpp r) overflow) _ (overflow_check _) (λ _. Keeps-pure n)

pass_through-Idles : (r : FramebufferUpdateRectangle) → Idles (process_pass_through r)
unfolding process_pass_through
pass_through-Idles r =
    Leads-bind (gets (λ t. t.pixel_format.bits_per_pixel)) _ (Keeps-gets _) (λ bpp.
      Leads-bind (buffer_size bpp r) _ (buffer_size-Idles bpp r) (λ size.
        Leads-bind (on_client (send framebuffer_update_rectangle r)) _ (header r) (λ _.
          Leads-bind (to_client (forward_directly size)) _ (forwards size)
            (λ _. Keeps-pure passed))))

rre-Idles : (r : FramebufferUpdateRectangle) → Idles (process_rre r)
unfolding process_rre
rre-Idles r = Leads-bind (on_client (send framebuffer_update_rectangle r)) _ (header r) (λ _.
    Leads-bind (to_client (forward u32)) _ (to_client-Keeps _ 4 (forward-Hands u32)) (λ n.
      Leads-bind (gets (λ t. t.pixel_format.bits_per_pixel)) _ (Keeps-gets _) (λ bpp.
        Leads-bind (to_client (forward_directly (rre_size bpp n))) _ (forwards _)
          (λ _. Keeps-pure passed))))

desktop_size-Idles : (r : FramebufferUpdateRectangle) → Idles (process_desktop_size r)
unfolding process_desktop_size
desktop_size-Idles r =
    Leads-bind (on_client (send framebuffer_update_rectangle r)) _ (header r)
      (λ _. Leads-bind (resize r) _ (resize-Idles r) (λ _. Keeps-pure passed))

last_rect-Idles : (r : FramebufferUpdateRectangle) → Idles (process_last_rect r)
unfolding process_last_rect
last_rect-Idles r =
    Leads-bind (on_client (send framebuffer_update_rectangle r)) _ (header r) (λ _. Keeps-pure last)

rename-Idles : (name : List ℕ) → Idles (rename name)
unfolding rename set_desktop_name
rename-Idles name = record { at = λ t h. h }

pub send_desktop_name-Idles : (r : FramebufferUpdateRectangle) → Idles (send_desktop_name r)
unfolding send_desktop_name
send_desktop_name-Idles r =
    Leads-bind (on_client (send framebuffer_update_rectangle r)) _ (header r) (λ _.
      Leads-bind (gets desktop_name) _ (Keeps-gets _) (λ name.
        Leads-bind (on_client (send u32 (length name))) _ (send-Keeps u32 _)
          (λ _. send_raw-Keeps name)))

-- Each branch of the stand-in for a rectangle that was left out.
dummy_raw :
    (bits : ℕ)
    → Idles (do
      on_client (send framebuffer_update_rectangle (one_pixel EncodingType.raw))
      check (leb (bits / 8) 4) overflow
      on_client (send_raw (take (bits / 8) (0 ∷ 0 ∷ 0 ∷ 0 ∷ []))))
dummy_raw bits =
    Leads-bind (on_client (send framebuffer_update_rectangle (one_pixel EncodingType.raw))) _
      (header _)
      (λ _.
        Leads-bind (check (leb (bits / 8) 4) overflow) _ (overflow_check _) (λ _. send_raw-Keeps _))

dummy_copy : Idles (do
  on_client (send framebuffer_update_rectangle (one_pixel EncodingType.copy_rect))
  on_client (send u16 1)
  on_client (send u16 0))
dummy_copy =
    Leads-bind (on_client (send framebuffer_update_rectangle (one_pixel EncodingType.copy_rect))) _
      (header _)
      (λ _. Leads-bind (on_client (send u16 1)) _ (send-Keeps u16 1) (λ _. send-Keeps u16 0))

send_dummy-Idles : Idles send_dummy_rectangle
unfolding send_dummy_rectangle is_connection_exception
send_dummy-Idles = record {
  at = λ t h. elim (Bool-cases (client_supports_encoding EncodingType.raw t)) [
    | inl raw ↦ rw raw ((dummy_raw t.pixel_format.bits_per_pixel).at t h)
    | inr no_raw ↦ elim (Bool-cases (client_supports_encoding EncodingType.copy_rect t)) [
      | inl copy ↦ rw (no_raw, copy) (dummy_copy.at t h)
      | inr no_copy ↦ rw (no_raw, no_copy) (λ k. cc k)
    ]
  ];
}

forward_desktop_name-Idles : (r : FramebufferUpdateRectangle) → Idles (forward_desktop_name r)
unfolding forward_desktop_name
forward_desktop_name-Idles r = record {
  at = λ t h. elim (Bool-cases (client_supports_encoding EncodingType.desktop_name t)) [
    | inl named ↦ rw named (
        (Leads-bind (send_desktop_name r) _ (send_desktop_name-Idles r) (λ _. Keeps-pure passed)).at
          t h)
    | inr unnamed ↦ elim (Bool-cases (client_supports_encoding EncodingType.last_rect t)) [
      | inl left_out ↦ rw (unnamed, left_out) h
      | inr filled ↦
          rw (unnamed, filled)
            ((Leads-bind send_dummy_rectangle _ send_dummy-Idles (λ _. Keeps-pure passed)).at t h)
    ]
  ];
}

desktop_name-Idles : (r : FramebufferUpdateRectangle) → Idles (process_desktop_name r)
unfolding process_desktop_name
desktop_name-Idles r =
    Leads-bind (on_server (recv u32)) _ (on_server-Keeps _ 4 (recv-Clears u32)) (λ n.
      Leads-bind (on_server (recv_string n)) _ (text n) (λ name.
        Leads-bind (rename name) _ (rename-Idles name) (λ _. forward_desktop_name-Idles r)))

extended-Idles : (r : FramebufferUpdateRectangle) → Idles (process_extended_desktop_size r)
unfolding process_extended_desktop_size
extended-Idles r =
    Leads-bind (when (r.y_position == 0) (resize r)) _ (Keeps-when _ (resize r) (resize-Idles r))
      (λ _. Leads-bind (on_client (send framebuffer_update_rectangle r)) _ (header r) (λ _.
        Leads-bind (to_client (forward extended_desktop_size_rectangle_data)) _
          (to_client-Keeps _ 4 (forward-Hands extended_desktop_size_rectangle_data))
          (λ d.
            Leads-bind
              (to_client (forward_directly (set_desktop_size_screen.size * d.number_of_screens))) _
              (forwards _) (λ _. Keeps-pure passed))))

tight-Idles : (r : FramebufferUpdateRectangle) → Idles (process_tight_rectangle r)
unfolding process_tight_rectangle
tight-Idles r =
    Leads-bind (on_client (send framebuffer_update_rectangle r)) _ (header r)
      (λ _. Leads-bind (process_tight r) _ (process_tight-Idles r) (λ _. Keeps-pure passed))

pub process_rectangle-Idles : (r : FramebufferUpdateRectangle) → Idles (process_rectangle r)
unfolding process_rectangle is_connection_exception
process_rectangle-Idles r = Leads-if (is_pass_through r.encoding_type) _ _ (pass_through-Idles r) (
    Leads-if (r.encoding_type == EncodingType.rre) _ _ (rre-Idles r) (
      Leads-if (r.encoding_type == EncodingType.desktop_size) _ _ (desktop_size-Idles r) (
        Leads-if (r.encoding_type == EncodingType.last_rect) _ _ (last_rect-Idles r) (
          Leads-if (r.encoding_type == EncodingType.desktop_name) _ _ (desktop_name-Idles r) (
            Leads-if (r.encoding_type == EncodingType.extended_desktop_size) _ _ (extended-Idles r)
              (Leads-if (r.encoding_type == EncodingType.tight) _ _ (tight-Idles r)
                (Leads-throw unknown_encoding (λ t h k. cc k))))))))
