-- ===== src/Tunnel/Rectangles/Sizes.antt =====
-- Rectangles that change the size of the framebuffer, which the tunnel hands on as well.
use vncmanager.Base.{
  ℕ, ◌*◌, ◌<◌, ◌≡◌, refl, sym, ap, ◌∙◌, arith, Bool, true, false, List, [], ◌∷◌, ◌++◌, append_assoc,
  append-nil, length, bind_ok, ◌==◌, if◌then◌else◌, Action, ok, pure, when, ◌>>=◌, ◌>>◌,
}
use vncmanager.Rfb.Values.EncodingType
use vncmanager.Rfb.Wire.{encode}
use vncmanager.Rfb.Messages.Server.{
  FramebufferUpdateRectangle, framebuffer_update_rectangle, ExtendedDesktopSizeRectangleData,
  extended_desktop_size_rectangle_data,
}
use vncmanager.Rfb.Messages.Client.{set_desktop_size_screen}
use vncmanager.Formatter.{send, forward, forward_directly}
use vncmanager.Formatter.Laws.{forward_lem}
use vncmanager.Connection.State.{set_framebuffer_size}
use vncmanager.Tunnel.State.{Tunnel, on_client, to_client}
use vncmanager.Tunnel.Lift.{to_client_ok}
use vncmanager.Tunnel.Rectangles.{
  Fate, passed, resize, process_desktop_size, process_extended_desktop_size, process_rectangle,
  process_tight_rectangle,
}
use vncmanager.Tunnel.Rectangles.Relay.{
  IsBody, raw_body, copy_body, cursor_body, x_cursor_body, rre_body, server_sends, client_gets,
  client_gets-append, relay_body, send_header, relay_rectangle,
}
use vncmanager.Tunnel.Tight.{process_tight}
use vncmanager.Tunnel.Tight.Relay.{sent_control, IsPicture, reset_done, process_tight_lem}

-- Whether a rectangle says that the framebuffer has a new size. ExtendedDesktopSize has its status in
-- the field `y_position`.
abbrev pub resizes : FramebufferUpdateRectangle → Bool
resizes r =
    if r.encoding_type == EncodingType.desktop_size
    then true
    else (if r.encoding_type == EncodingType.extended_desktop_size
        then r.y_position == 0
        else false)

-- The tunnel after the rectangle, which may have set the size.
abbrev sized : Bool → FramebufferUpdateRectangle → Tunnel → Tunnel
sized b r t = record t {
  current = record t.current {
    framebuffer_width = if b then r.width else t.current.framebuffer_width;
    framebuffer_height = if b then r.height else t.current.framebuffer_height;
  };
}

abbrev pub resized : FramebufferUpdateRectangle → Tunnel → Tunnel
resized r t = sized (resizes r) r t

-- The bodies of the rectangles that are handed on as they are; `queued` says whether a reset of the
-- Tight streams is.
pub data IsRelayed (bpp : ℕ) (queued : Bool) (r : FramebufferUpdateRectangle)
    : List ℕ → Type 0 where
  plain_body : (body : List ℕ) → IsBody bpp r body → IsRelayed bpp queued r body
  desktop_size_body : r.encoding_type ≡ EncodingType.desktop_size → IsRelayed bpp queued r []
  extended_desktop_size_body :
      (n p q s : ℕ) (screens : List ℕ)
      → r.encoding_type ≡ EncodingType.extended_desktop_size
      → length screens ≡ 16 * n
      → IsRelayed bpp queued r (n ∷ p ∷ q ∷ s ∷ screens)
  tight_picture_body :
      (b : ℕ) (tail : List ℕ)
      → r.encoding_type ≡ EncodingType.tight
      → queued ≡ false
      → b < 256
      → IsPicture bpp r b tail
      → IsRelayed bpp queued r (b ∷ tail)

keeps_size :
    (bpp : ℕ) (r : FramebufferUpdateRectangle) (body : List ℕ)
    → IsBody bpp r body
    → resizes r ≡ false
keeps_size bpp r _ (raw_body body e small fits h) = ground arith
keeps_size bpp r _ (copy_body body e h) = ground arith
keeps_size bpp r _ (cursor_body body e small fits h) = ground arith
keeps_size bpp r _ (x_cursor_body body e h) = ground arith
keeps_size bpp r _ (rre_body n body e fits h small) = ground arith

resized-same : (r : FramebufferUpdateRectangle) (t : Tunnel) → resizes r ≡ false → resized r t ≡ t
resized-same r t h = ap (λ b. sized b r t) h

resize_lem :
    (b : Bool) (r : FramebufferUpdateRectangle) (t : Tunnel)
    → resizes r ≡ b
    → when b (resize r) t ≡ ok tt (resized r t)
unfolding resize set_framebuffer_size
resize_lem true r t h = ap (λ b. ok tt (sized b r t)) (sym h)
resize_lem false r t h = ap (λ b. ok tt (sized b r t)) (sym h)

desktop_size-resizes :
    (r : FramebufferUpdateRectangle)
    → r.encoding_type ≡ EncodingType.desktop_size
    → resizes r ≡ true
desktop_size-resizes r e = ground arith

extended_resizes :
    (r : FramebufferUpdateRectangle)
    → r.encoding_type ≡ EncodingType.extended_desktop_size
    → resizes r ≡ (r.y_position == 0)
extended_resizes r e = rw e refl

switch_desktop_size :
    (r : FramebufferUpdateRectangle) (s : Tunnel)
    → r.encoding_type ≡ EncodingType.desktop_size
    → process_rectangle r s ≡ process_desktop_size r s
unfolding process_rectangle
switch_desktop_size r s h = ground arith

switch_extended :
    (r : FramebufferUpdateRectangle) (s : Tunnel)
    → r.encoding_type ≡ EncodingType.extended_desktop_size
    → process_rectangle r s ≡ process_extended_desktop_size r s
unfolding process_rectangle
switch_extended r s h = ground arith

desktop_size_rectangle :
    (r : FramebufferUpdateRectangle) (rest : List ℕ) (t : Tunnel)
    → r.encoding_type ≡ EncodingType.desktop_size
    → process_desktop_size r (server_sends [] rest t)
      ≡ ok passed
          (server_sends [] rest (client_gets (encode framebuffer_update_rectangle r) (resized r t)))
unfolding process_desktop_size
desktop_size_rectangle r rest t e =
    bind_ok (on_client (send framebuffer_update_rectangle r)) (λ _. resize r >> pure passed)
      (server_sends [] rest t) (send_header r (server_sends [] rest t))
    ∙ bind_ok (resize r) (λ _. pure passed)
        (server_sends [] rest (client_gets (encode framebuffer_update_rectangle r) t))
        (resize_lem true r
          (server_sends [] rest (client_gets (encode framebuffer_update_rectangle r) t))
          (desktop_size-resizes r e))

-- The screens, once their number is known.
abbrev relay_screens : ExtendedDesktopSizeRectangleData → Action Tunnel Fate
relay_screens d =
    to_client (forward_directly (set_desktop_size_screen.size * d.number_of_screens)) >> pure passed

extended_rectangle :
    (r : FramebufferUpdateRectangle) (n p q s : ℕ) (screens rest : List ℕ) (t : Tunnel)
    → r.encoding_type ≡ EncodingType.extended_desktop_size
    → length screens ≡ 16 * n
    → process_extended_desktop_size r (server_sends [] (n ∷ p ∷ q ∷ s ∷ (screens ++ rest)) t)
      ≡ ok passed (
          server_sends [] rest (
            client_gets
              (encode framebuffer_update_rectangle r ++ (n ∷ p ∷ q ∷ s ∷ screens))
              (resized r t)))
unfolding process_extended_desktop_size
extended_rectangle r n p q s screens rest t e h =
    let bs : List ℕ = n ∷ p ∷ q ∷ s ∷ (screens ++ rest) in
    let head : List ℕ = encode framebuffer_update_rectangle r in
    let four : List ℕ = n ∷ p ∷ q ∷ s ∷ [] in
    let t1 : Tunnel = resized r t in
    let t2 : Tunnel = client_gets head t1 in
    bind_ok (when (r.y_position == 0) (resize r))
      (λ _.
        on_client (send framebuffer_update_rectangle r)
        >> (to_client (forward extended_desktop_size_rectangle_data) >>= relay_screens))
      (server_sends [] bs t)
      (resize_lem (r.y_position == 0) r (server_sends [] bs t) (extended_resizes r e))
    ∙ bind_ok (on_client (send framebuffer_update_rectangle r))
        (λ _. to_client (forward extended_desktop_size_rectangle_data) >>= relay_screens)
        (server_sends [] bs t1) (send_header r (server_sends [] bs t1))
    ∙ bind_ok (to_client (forward extended_desktop_size_rectangle_data)) relay_screens
        (server_sends [] bs t2)
        (to_client_ok (server_sends [] bs t2) (forward extended_desktop_size_rectangle_data) (
          forward_lem extended_desktop_size_rectangle_data
            (record { from = (server_sends [] bs t2).current.peer; to = t2.client }) (omega arith)
            (omega arith)))
    ∙ bind_ok (to_client (forward_directly (16 * n))) (λ _. pure passed)
        (server_sends [] (screens ++ rest) (client_gets four t2))
        (relay_body (16 * n) screens rest (client_gets four t2) h)
    ∙ ap (λ u. ok passed (server_sends [] rest u))
        (ap (client_gets screens) (client_gets-append head four t1)
          ∙ client_gets-append (head ++ four) screens t1
          ∙ ap (λ l. client_gets l t1) (append_assoc head four screens))

switch_tight :
    (r : FramebufferUpdateRectangle) (s : Tunnel)
    → r.encoding_type ≡ EncodingType.tight
    → process_rectangle r s ≡ process_tight_rectangle r s
unfolding process_rectangle
switch_tight r s h = ground arith

tight_keeps_size :
    (r : FramebufferUpdateRectangle) → r.encoding_type ≡ EncodingType.tight → resizes r ≡ false
tight_keeps_size r e = rw e refl

nothing_queued : (q : Bool) (b : ℕ) → q ≡ false → sent_control q b ≡ b
nothing_queued q b h = rw h refl

abbrev queued_as : Bool → Tunnel → Tunnel
queued_as q t = record t { tight_zlib_reset_queued = q }

-- With no reset queued the control byte is handed on as it came.
tight_rectangle :
    (r : FramebufferUpdateRectangle) (b : ℕ) (tail rest : List ℕ) (t : Tunnel)
    → t.tight_zlib_reset_queued ≡ false
    → b < 256
    → IsPicture t.pixel_format.bits_per_pixel r b tail
    → process_tight_rectangle r (server_sends [] (b ∷ (tail ++ rest)) t)
      ≡ ok passed (
          server_sends [] rest
            (client_gets (encode framebuffer_update_rectangle r ++ (b ∷ tail)) t))
unfolding process_tight_rectangle
tight_rectangle r b tail rest t none_queued small p =
    let head : List ℕ = encode framebuffer_update_rectangle r in
    let t1 : Tunnel = client_gets head t in
    let b' : ℕ = sent_control t.tight_zlib_reset_queued b in
    bind_ok (on_client (send framebuffer_update_rectangle r)) (λ _. process_tight r >> pure passed)
      (server_sends [] (b ∷ (tail ++ rest)) t)
      (send_header r (server_sends [] (b ∷ (tail ++ rest)) t))
    ∙ bind_ok (process_tight r) (λ _. pure passed) (server_sends [] (b ∷ (tail ++ rest)) t1)
        (process_tight_lem r b tail rest t1 small p)
    ∙ ap (λ x. ok passed (server_sends [] rest (client_gets (x ∷ tail) (reset_done t1))))
        (nothing_queued t.tight_zlib_reset_queued b none_queued)
    ∙ ap (λ q. ok passed (server_sends [] rest (client_gets (b ∷ tail) (queued_as q t1))))
        (sym none_queued)
    ∙ ap (λ u. ok passed (server_sends [] rest u)) (client_gets-append head (b ∷ tail) t)

-- A rectangle is handed on, and the size that it says is kept.
pub relay_resized :
    (r : FramebufferUpdateRectangle) (body rest : List ℕ) (t : Tunnel)
    → IsRelayed t.pixel_format.bits_per_pixel t.tight_zlib_reset_queued r body
    → process_rectangle r (server_sends [] (body ++ rest) t)
      ≡ ok passed (
          server_sends [] rest
            (client_gets (encode framebuffer_update_rectangle r ++ body) (resized r t)))
relay_resized r _ rest t (plain_body body b) =
    relay_rectangle r body rest t b
    ∙ ap
        (λ u.
          ok passed
            (server_sends [] rest (client_gets (encode framebuffer_update_rectangle r ++ body) u)))
        (sym (resized-same r t (keeps_size t.pixel_format.bits_per_pixel r body b)))
relay_resized r _ rest t (desktop_size_body e) =
    switch_desktop_size r (server_sends [] rest t) e
    ∙ desktop_size_rectangle r rest t e
    ∙ ap (λ l. ok passed (server_sends [] rest (client_gets l (resized r t))))
        (sym (append-nil (encode framebuffer_update_rectangle r)))
relay_resized r _ rest t (extended_desktop_size_body n p q s screens e h) =
    switch_extended r (server_sends [] (n ∷ p ∷ q ∷ s ∷ (screens ++ rest)) t) e
    ∙ extended_rectangle r n p q s screens rest t e h
relay_resized r _ rest t (tight_picture_body b tail e none_queued small p) =
    switch_tight r (server_sends [] (b ∷ (tail ++ rest)) t) e
    ∙ tight_rectangle r b tail rest t none_queued small p
    ∙ ap
        (λ u. ok passed (
          server_sends [] rest
            (client_gets (encode framebuffer_update_rectangle r ++ (b ∷ tail)) u)))
        (sym (resized-same r t (tight_keeps_size r e)))
