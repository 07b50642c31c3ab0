-- ===== src/Tunnel/FromServer/Relay.antt =====
-- Framebuffer updates that the tunnel hands on as they are.
use vncmanager.Base.{
  Bool, ℕ, suc, ◌<◌, ◌≡◌, refl, ap, ◌∙◌, arith, false, List, [], ◌∷◌, ◌++◌, append_assoc,
  append-nil, length, bind_ok, Action, ok, ◌>>=◌, ◌>>◌,
}
use vncmanager.Rfb.Wire.{be16, encode, decode}
use vncmanager.Rfb.Messages.Server.{
  FramebufferUpdateMessage, framebuffer_update_message, FramebufferUpdateRectangle,
  framebuffer_update_rectangle,
}
use vncmanager.Rfb.RoundTrip.{IsRectangle, rectangle_roundtrip}
use vncmanager.Formatter.{send, recv}
use vncmanager.Formatter.Laws.{recv_lem}
use vncmanager.Tunnel.State.{Tunnel, on_client, on_server}
use vncmanager.Tunnel.Lift.{on_server_ok}
use vncmanager.Tunnel.Rectangles.{passed, process_rectangle}
use vncmanager.Tunnel.Update.{
  rectangle, rectangles, count_extra_rectangles, announce, send_extra_rectangles, finish,
  process_framebuffer_update,
}
use vncmanager.Tunnel.FromServer.{server_receive, server_dispatch}
use vncmanager.Tunnel.Rectangles.Relay.{server_sends, client_gets, client_gets-append}
use vncmanager.Tunnel.Rectangles.Sizes.{resized, IsRelayed, relay_resized}

-- Rectangles, one after another, as bytes.
pub data AreRectangles (bpp : ℕ) (queued : Bool)
    : List FramebufferUpdateRectangle → List ℕ → Type 0 where
  no_more : AreRectangles bpp queued [] []
  one_more :
      (r : FramebufferUpdateRectangle) (body : List ℕ) (rs : List FramebufferUpdateRectangle)
      (others : List ℕ)
      → IsRectangle r
      → IsRelayed bpp queued r body
      → AreRectangles bpp queued rs others
      → AreRectangles bpp queued
          (r ∷ rs)
          (encode framebuffer_update_rectangle r ++ (body ++ others))

-- The tunnel after all of them: the last that says so gives the size of the framebuffer.
abbrev pub resized_all : List FramebufferUpdateRectangle → Tunnel → Tunnel
resized_all [] t = t
resized_all (r ∷ rs) t = resized_all rs (resized r t)

resized_all-client_gets :
    (rs : List FramebufferUpdateRectangle) (bs : List ℕ) (t : Tunnel)
    → resized_all rs (client_gets bs t) ≡ client_gets bs (resized_all rs t)
resized_all-client_gets [] bs t = refl
resized_all-client_gets (r ∷ rs) bs t = resized_all-client_gets rs bs (resized r t)

relay_one :
    (r : FramebufferUpdateRectangle) (body rest : List ℕ) (t : Tunnel)
    → IsRectangle r
    → IsRelayed t.pixel_format.bits_per_pixel t.tight_zlib_reset_queued r body
    → rectangle (server_sends [] (encode framebuffer_update_rectangle r ++ (body ++ rest)) t)
      ≡ ok passed (
          server_sends [] rest
            (client_gets (encode framebuffer_update_rectangle r ++ body) (resized r t)))
unfolding rectangle
relay_one r body rest t fits b =
    let t1 : Tunnel = server_sends [] (encode framebuffer_update_rectangle r ++ (body ++ rest)) t in
    bind_ok (on_server (recv framebuffer_update_rectangle)) process_rectangle t1 (
      on_server_ok t1 (recv framebuffer_update_rectangle)
        (recv_lem framebuffer_update_rectangle t1.current.peer (omega arith) (omega arith)))
    ∙ ap (λ q. process_rectangle q (server_sends [] (body ++ rest) t))
        (rectangle_roundtrip r (body ++ rest) fits)
    ∙ relay_resized r body rest t b

loop_more :
    (n : ℕ) (must : Bool) (t t' : Tunnel)
    → rectangle t ≡ ok passed t'
    → rectangles (suc n) must t ≡ rectangles n must t'
unfolding rectangles
loop_more n must t t' e = rw (e, rectangles)

relay_rectangles :
    (bpp : ℕ) (queued : Bool) (rs : List FramebufferUpdateRectangle) (bs : List ℕ)
    → AreRectangles bpp queued rs bs
    → (must : Bool) (rest : List ℕ) (t : Tunnel) → t.pixel_format.bits_per_pixel ≡ bpp
    → t.tight_zlib_reset_queued ≡ queued
    → rectangles (length rs) must (server_sends [] (bs ++ rest) t)
      ≡ ok
          (record { must_use_last_rect = must; last_rect_received = false })
          (server_sends [] rest (client_gets bs (resized_all rs t)))
unfolding rectangles
relay_rectangles bpp queued _ _ no_more must rest t e f = rw (append-nil t.client.output) refl
relay_rectangles bpp queued _ _ (one_more r body rs others fits b more) must rest t e f =
    let head : List ℕ = encode framebuffer_update_rectangle r in
    let t1 : Tunnel = client_gets (head ++ body) (resized r t) in
    let b' : IsRelayed t.pixel_format.bits_per_pixel t.tight_zlib_reset_queued r body =
      rw (e, f) b in
    ap (λ bs. rectangles (suc (length rs)) must (server_sends [] (head ++ bs) t))
      (append_assoc body others rest)
    ∙ loop_more (length rs) must (server_sends [] (head ++ (body ++ (others ++ rest))) t)
        (server_sends [] (others ++ rest) t1) (relay_one r body (others ++ rest) t fits b')
    ∙ relay_rectangles bpp queued rs others more must rest t1 e f
    ∙ ap
        (λ u.
          ok (record { must_use_last_rect = must; last_rect_received = false })
            (server_sends [] rest u))
        (ap (client_gets others) (resized_all-client_gets rs (head ++ body) (resized r t))
          ∙ client_gets-append (head ++ body) others (resized_all rs (resized r t))
          ∙ ap (λ bs. client_gets bs (resized_all rs (resized r t)))
              (append_assoc head body others))

-- The update after its header was read.
abbrev updates : FramebufferUpdateMessage → Action Tunnel (Unit {0})
updates m = announce m.number_of_rectangles >>= λ (count, must). do
  on_client (send framebuffer_update_message (record m { number_of_rectangles = count }))
  send_extra_rectangles
  flags ← rectangles m.number_of_rectangles must
  finish flags

-- A header with the count `n` that leaves a tunnel with no change of its own to announce.
announce_lem :
    (n : ℕ) (t : Tunnel)
    → n < 65536
    → t.desktop_name_change_queued ≡ false
    → announce n t ≡ ok (n, false) t
unfolding announce count_extra_rectangles
announce_lem n t fits q = ground arith

nothing_extra :
    (t : Tunnel) → t.desktop_name_change_queued ≡ false → send_extra_rectangles t ≡ ok tt t
unfolding send_extra_rectangles
nothing_extra t q = ground arith

nothing_to_finish :
    (t : Tunnel)
    → finish (record { must_use_last_rect = false; last_rect_received = false }) t ≡ ok tt t
unfolding finish
nothing_to_finish t = ground arith

-- The header on the wire.
abbrev pub update_header : ℕ → ℕ → List ℕ
update_header padding n = 0 ∷ padding ∷ be16 n

header_message :
    (padding n : ℕ)
    → n < 65536
    → decode framebuffer_update_message (update_header padding n)
      ≡ record { type = 0; padding = padding; number_of_rectangles = n }
header_message padding n fits = ground arith

send-update_header :
    (padding n : ℕ) (t : Tunnel)
    → n < 65536
    → on_client
        (send framebuffer_update_message
          (record { type = 0; padding = padding; number_of_rectangles = n }))
        t
      ≡ ok tt (client_gets (update_header padding n) t)
unfolding send
send-update_header padding n t fits = ground arith

-- The type byte is read, looked at and put back.
receive_type :
    (bs : List ℕ) (t : Tunnel)
    → server_receive (server_sends [] (0 ∷ bs) t)
      ≡ process_framebuffer_update (server_sends (0 ∷ []) bs t)
unfolding server_receive server_dispatch
receive_type bs t = ground arith

receive_header :
    (padding n : ℕ) (bs : List ℕ) (t : Tunnel)
    → n < 65536
    → process_framebuffer_update (server_sends (0 ∷ []) (padding ∷ (be16 n ++ bs)) t)
      ≡ updates
          (record { type = 0; padding = padding; number_of_rectangles = n })
          (server_sends [] bs t)
unfolding process_framebuffer_update
receive_header padding n bs t fits =
    let t1 : Tunnel = server_sends (0 ∷ []) (padding ∷ (be16 n ++ bs)) t in
    bind_ok (on_server (recv framebuffer_update_message)) updates t1 (
      on_server_ok t1 (recv framebuffer_update_message)
        (recv_lem framebuffer_update_message t1.current.peer (omega arith) (omega arith)))
    ∙ ap (λ m. updates m (server_sends [] bs t)) (header_message padding n fits)

relay_updates :
    (padding : ℕ) (rs : List FramebufferUpdateRectangle) (bs rest : List ℕ) (t : Tunnel)
    → length rs < 65536
    → t.desktop_name_change_queued ≡ false
    → AreRectangles t.pixel_format.bits_per_pixel t.tight_zlib_reset_queued rs bs
    → updates
        (record { type = 0; padding = padding; number_of_rectangles = length rs })
        (server_sends [] (bs ++ rest) t)
      ≡ ok tt (
          server_sends [] rest
            (client_gets (update_header padding (length rs) ++ bs) (resized_all rs t)))
relay_updates padding rs bs rest t fits q b =
    let n : ℕ = length rs in
    let m : FramebufferUpdateMessage = record {
      type = 0;
      padding = padding;
      number_of_rectangles = n;
    } in
    let t1 : Tunnel = server_sends [] (bs ++ rest) t in
    let t2 : Tunnel = client_gets (update_header padding n) t1 in
    let t3 : Tunnel =
      server_sends [] rest
        (client_gets bs (resized_all rs (client_gets (update_header padding n) t))) in
    bind_ok (announce n)
      (λ (count, must). do
        on_client (send framebuffer_update_message (record m { number_of_rectangles = count }))
        send_extra_rectangles
        flags ← rectangles n must
        finish flags)
      t1 (announce_lem n t1 fits q)
    ∙ bind_ok (on_client (send framebuffer_update_message m))
        (λ _. do send_extra_rectangles; flags ← rectangles n false; finish flags) t1
        (send-update_header padding n t1 fits)
    ∙ bind_ok send_extra_rectangles (λ _. rectangles n false >>= finish) t2 (nothing_extra t2 q)
    ∙ bind_ok (rectangles n false) finish t2 (
        relay_rectangles t.pixel_format.bits_per_pixel t.tight_zlib_reset_queued rs bs b false rest
          (client_gets (update_header padding n) t) refl refl)
    ∙ nothing_to_finish t3
    ∙ ap (λ u. ok tt (server_sends [] rest u))
        (ap (client_gets bs) (resized_all-client_gets rs (update_header padding n) t)
          ∙ client_gets-append (update_header padding n) bs (resized_all rs t))

-- An update of Raw, CopyRect, RRE, Cursor, XCursor, DesktopSize and ExtendedDesktopSize rectangles as
-- the protocol defines them, and of Tight ones when no reset of their streams is queued, with sizes in
-- the range of `int` and fewer than 65536 of them, reaches the client as the server sent it, with
-- nothing added, lost or left behind. It changes nothing but the remembered size of the framebuffer,
-- which the last rectangle that says so gives, when no change of the desktop's name is queued. The
-- Tight ones have pixels as long as the format says, and colours of three bytes.
pub server_receive_relays :
    (padding : ℕ) (rs : List FramebufferUpdateRectangle) (bs rest : List ℕ) (t : Tunnel)
    → length rs < 65536
    → t.desktop_name_change_queued ≡ false
    → AreRectangles t.pixel_format.bits_per_pixel t.tight_zlib_reset_queued rs bs
    → server_receive (server_sends [] ((update_header padding (length rs) ++ bs) ++ rest) t)
      ≡ ok tt (
          server_sends [] rest
            (client_gets (update_header padding (length rs) ++ bs) (resized_all rs t)))
server_receive_relays padding rs bs rest t fits q b =
    receive_type (padding ∷ (be16 (length rs) ++ (bs ++ rest))) t
    ∙ receive_header padding (length rs) (bs ++ rest) t fits
    ∙ relay_updates padding rs bs rest t fits q b
