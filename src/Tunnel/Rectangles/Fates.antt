-- ===== src/Tunnel/Rectangles/Fates.antt =====
-- What became of each rectangle of the server, against what it wrote to the client.
use vncmanager.Base.{
  ℕ, ◌+◌, ◌*◌, ◌/◌, ◌≡◌, ◌≢◌, arith, List, [], ◌∷◌, length, take, leb, ◌==◌, Action, gets, check,
  pure, when, overflow, assertion, Grants, Yields, Yields-bind, Yields-if, Yields-pure, Leads-bind,
  Leads-if, Leads-throw, Keeps-pure, Keeps-gets, Keeps-when, Bool-cases, inl, inr, ◌>>=◌, ◌>>◌,
}
use vncmanager.Rfb.Values.EncodingType
use vncmanager.Rfb.Wire.{u16, u32}
use vncmanager.Rfb.Messages.Server.{
  FramebufferUpdateRectangle, framebuffer_update_rectangle, extended_desktop_size_rectangle_data,
}
use vncmanager.Rfb.Messages.Client.{set_desktop_size_screen}
use vncmanager.Formatter.{send, send_raw, recv, recv_string, forward, forward_directly}
use vncmanager.Formatter.Output.{Extends}
use vncmanager.Tunnel.State.{
  Tunnel, on_client, on_server, to_client, client_supports_encoding, desktop_name,
}
use vncmanager.Tunnel.Tight.{process_tight}
use vncmanager.Tunnel.Tight.Steps.{process_tight-Kept}
use vncmanager.Tunnel.Rectangles.{
  Fate, buffer_size, fits_int, pixel_bytes, mask_bytes, process_pass_through, process_rre, rre_size,
  resize, process_desktop_size, process_last_rect, one_pixel, passed, last, is_pass_through,
  send_dummy_rectangle, rename, send_desktop_name, forward_desktop_name, process_desktop_name,
  process_extended_desktop_size, process_tight_rectangle, process_rectangle,
}
use vncmanager.Tunnel.Rectangles.Written.{
  Has, headed, HasRectangle, Became, on_server-Silent, checks-Silent, resize-Silent, rename-Silent,
  raw-Appends, send-Appends, forwards, forwards_value, Grown-steps, header-Grants, passes,
  with_header, writes,
}

-- The encoding of a rectangle that is not LastRect.
abbrev IsOther : FramebufferUpdateRectangle → Type 0
IsOther r = r.encoding_type ≢ EncodingType.last_rect

module _ (o : List ℕ) where
  abbrev Fated : Action Tunnel Fate → Type 0
  Fated m = Yields (Has o) (Became o) m

  buffer_size-Silent :
      (bpp : ℕ) (r : FramebufferUpdateRectangle) → Grants (Has o) (Has o) (buffer_size bpp r)
  unfolding buffer_size
  buffer_size-Silent bpp r =
      Leads-if (r.encoding_type == EncodingType.raw) _ _ (checked (pixel_bytes bpp r)) (
        Leads-if (r.encoding_type == EncodingType.copy_rect) _ _ (Keeps-pure 4) (
          Leads-if (r.encoding_type == EncodingType.cursor) _ _
            (checked (pixel_bytes bpp r + mask_bytes r))
            (Leads-if (r.encoding_type == EncodingType.x_cursor) _ _
              (Keeps-pure (6 + mask_bytes r * 2)) (Leads-throw assertion (λ t h. tt)))))
    where
      checked : (n : ℕ) → Grants (Has o) (Has o) (check (fits_int bpp r) overflow >>= λ _. pure n)
      checked n =
          Leads-bind (check (fits_int bpp r) overflow) _ (checks-Silent (λ l. l ≡ o) _)
            (λ _. Keeps-pure n)

  pass_through-Fated : (r : FramebufferUpdateRectangle) → IsOther r → Fated (process_pass_through r)
  unfolding process_pass_through
  pass_through-Fated r n =
      Yields-bind (gets (λ t. t.pixel_format.bits_per_pixel)) _ (Keeps-gets _) (λ bpp.
        Yields-bind (buffer_size bpp r) _ (buffer_size-Silent bpp r) (λ size. with_header o r _ (
          Yields-bind (to_client (forward_directly size)) _ (forwards (headed o r) size)
            (λ _. passes o r n))))

  rre-Fated : (r : FramebufferUpdateRectangle) → IsOther r → Fated (process_rre r)
  unfolding process_rre
  rre-Fated r n = with_header o r _ (
      Yields-bind (to_client (forward u32)) _ (forwards_value (headed o r) u32) (λ k.
        Yields-bind (gets (λ t. t.pixel_format.bits_per_pixel)) _ (Keeps-gets _) (λ bpp.
          Yields-bind (to_client (forward_directly (rre_size bpp k))) _
            (forwards (headed o r) (rre_size bpp k)) (λ _. passes o r n))))

  desktop_size-Fated : (r : FramebufferUpdateRectangle) → IsOther r → Fated (process_desktop_size r)
  unfolding process_desktop_size
  desktop_size-Fated r n =
      with_header o r _
        (Yields-bind (resize r) _ (resize-Silent (Extends (headed o r)) r) (λ _. passes o r n))

  last_rect-Fated :
      (r : FramebufferUpdateRectangle)
      → r.encoding_type ≡ EncodingType.last_rect
      → Fated (process_last_rect r)
  unfolding process_last_rect
  last_rect-Fated r e =
      Yields-bind (on_client (send framebuffer_update_rectangle r)) _ (header-Grants o r)
        (λ _. Yields-pure last (λ t h. (r, e, h)))

  extended-Fated :
      (r : FramebufferUpdateRectangle) → IsOther r → Fated (process_extended_desktop_size r)
  unfolding process_extended_desktop_size
  extended-Fated r n =
      Yields-bind (when (r.y_position == 0) (resize r)) _
        (Keeps-when _ (resize r) (resize-Silent (λ l. l ≡ o) r))
        (λ _. with_header o r _ (
          Yields-bind (to_client (forward extended_desktop_size_rectangle_data)) _
            (forwards_value (headed o r) extended_desktop_size_rectangle_data)
            (λ d.
              Yields-bind
                (to_client (forward_directly (set_desktop_size_screen.size * d.number_of_screens)))
                _ (forwards (headed o r) _) (λ _. passes o r n))))

  tight-Fated : (r : FramebufferUpdateRectangle) → IsOther r → Fated (process_tight_rectangle r)
  unfolding process_tight_rectangle
  tight-Fated r n = with_header o r _ (
      Yields-bind (process_tight r) _ (process_tight-Kept (Grown-steps (headed o r)) r)
        (λ _. passes o r n))

  pub send_desktop_name-Writes :
      (r : FramebufferUpdateRectangle)
      → IsOther r
      → Grants (Has o) (HasRectangle o) (send_desktop_name r)
  unfolding send_desktop_name
  send_desktop_name-Writes r n = writes o r _ n (
      Leads-bind (gets desktop_name) _ (Keeps-gets _) (λ name.
        Leads-bind (on_client (send u32 (length name))) _ (send-Appends (headed o r) u32 _)
          (λ _. raw-Appends (headed o r) name)))

  -- Each branch of the stand-in.
  dummy_raw :
      (bits : ℕ)
      → Grants (Has o) (HasRectangle o) (do
        on_client (send framebuffer_update_rectangle (one_pixel EncodingType.raw))
        check (leb (bits / 8) 4) overflow
        on_client (send_raw (take (bits / 8) (0 ∷ 0 ∷ 0 ∷ 0 ∷ []))))
  dummy_raw bits = writes o (one_pixel EncodingType.raw) _ (ground arith) (
      Leads-bind (check (leb (bits / 8) 4) overflow) _
        (checks-Silent (Extends (headed o (one_pixel EncodingType.raw))) _)
        (λ _. raw-Appends (headed o (one_pixel EncodingType.raw)) _))

  dummy_copy : Grants (Has o) (HasRectangle o) (do
    on_client (send framebuffer_update_rectangle (one_pixel EncodingType.copy_rect))
    on_client (send u16 1)
    on_client (send u16 0))
  dummy_copy = writes o (one_pixel EncodingType.copy_rect) _ (ground arith) (
      Leads-bind (on_client (send u16 1)) _
        (send-Appends (headed o (one_pixel EncodingType.copy_rect)) u16 1)
        (λ _. send-Appends (headed o (one_pixel EncodingType.copy_rect)) u16 0))

  dummy-Writes : Grants (Has o) (HasRectangle o) send_dummy_rectangle
  unfolding send_dummy_rectangle
  dummy-Writes = record {
    at = λ t h. elim (Bool-cases (client_supports_encoding EncodingType.raw t)) [
      | inl raw ↦ rw raw ((dummy_raw t.pixel_format.bits_per_pixel).at t h)
      | inr no_raw ↦ elim (Bool-cases (client_supports_encoding EncodingType.copy_rect t)) [
        | inl copy ↦ rw (no_raw, copy) (dummy_copy.at t h)
        | inr no_copy ↦ rw (no_raw, no_copy) tt
      ]
    ];
  }

  written :
      (m : Action Tunnel (Unit {0})) → Grants (Has o) (HasRectangle o) m → Fated (do m; pure passed)
  written m k = Yields-bind m _ k (λ _. Yields-pure passed (λ t h. h))

  forward_name-Fated : (r : FramebufferUpdateRectangle) → IsOther r → Fated (forward_desktop_name r)
  unfolding forward_desktop_name
  forward_name-Fated r n = record {
    at = λ t h. elim (Bool-cases (client_supports_encoding EncodingType.desktop_name t)) [
      | inl named ↦ rw named ((written (send_desktop_name r) (send_desktop_name-Writes r n)).at t h)
      | inr unnamed ↦ elim (Bool-cases (client_supports_encoding EncodingType.last_rect t)) [
        | inl left_out ↦ rw (unnamed, left_out) h
        | inr filled ↦ rw (unnamed, filled) ((written send_dummy_rectangle dummy-Writes).at t h)
      ]
    ];
  }

  desktop_name-Fated : (r : FramebufferUpdateRectangle) → IsOther r → Fated (process_desktop_name r)
  unfolding process_desktop_name
  desktop_name-Fated r n =
      Yields-bind (on_server (recv u32)) _ (on_server-Silent (λ l. l ≡ o) (recv u32)) (λ k.
        Yields-bind (on_server (recv_string k)) _ (on_server-Silent (λ l. l ≡ o) (recv_string k))
          (λ name.
            Yields-bind (rename name) _ (rename-Silent (λ l. l ≡ o) name)
              (λ _. forward_name-Fated r n)))

  pub process_rectangle-Fated : (r : FramebufferUpdateRectangle) → Fated (process_rectangle r)
  unfolding process_rectangle
  process_rectangle-Fated r =
      Yields-if (is_pass_through r.encoding_type) _ _ (λ b. pass_through-Fated r (ground arith))
        (λ _.
          Yields-if (r.encoding_type == EncodingType.rre) _ _ (λ b. rre-Fated r (ground arith))
            (λ _.
              Yields-if (r.encoding_type == EncodingType.desktop_size) _ _
                (λ b. desktop_size-Fated r (ground arith))
                (λ _.
                  Yields-if (r.encoding_type == EncodingType.last_rect) _ _
                    (λ b. last_rect-Fated r (ground arith))
                    (λ other.
                      Yields-if (r.encoding_type == EncodingType.desktop_name) _ _
                        (λ b. desktop_name-Fated r (ground arith))
                        (λ _.
                          Yields-if (r.encoding_type == EncodingType.extended_desktop_size) _ _
                            (λ b. extended-Fated r (ground arith))
                            (λ _.
                              Yields-if (r.encoding_type == EncodingType.tight) _ _
                                (λ b. tight-Fated r (ground arith))
                                (λ _. record { at = λ t h. tt })))))))
