-- ===== src/Tunnel/Rectangles/Relay.antt =====
-- Rectangles that the tunnel hands on as they are.
use vncmanager.Base.{
  ℕ, ◌+◌, ◌*◌, ◌/◌, ◌^◌, ◌<◌, ◌≡◌, refl, ap, ◌∙◌, arith, true, List, [], ◌∷◌, ◌++◌, append_assoc,
  length, length-append, take-length-append, drop-length-append, bind_ok, gets, Action, ok, pure,
  ◌>>=◌, ◌>>◌,
}
use vncmanager.Rfb.Values.EncodingType
use vncmanager.Rfb.Wire.{u32, be32, encode, decode}
use vncmanager.Rfb.Messages.Server.{FramebufferUpdateRectangle, framebuffer_update_rectangle}
use vncmanager.Rfb.RoundTrip.{load32-be32}
use vncmanager.Formatter.{send, forward, forward_directly}
use vncmanager.Formatter.Laws.{carried, with_sent, forward_lem, forward_directly_exact}
use vncmanager.Tunnel.State.{Tunnel, on_client, to_client}
use vncmanager.Tunnel.Lift.{to_client_ok}
use vncmanager.Tunnel.Rectangles.{
  Fate, passed, buffer_size, process_pass_through, process_rre, rre_size, process_rectangle,
  is_pass_through,
}

-- The body that the protocol defines for a rectangle, with a session's bits per pixel. The products
-- of a picture's size stay in the range of `int`.
pub data IsBody (bpp : ℕ) (r : FramebufferUpdateRectangle) : List ℕ → Type 0 where
  raw_body :
      (body : List ℕ)
      → r.encoding_type ≡ EncodingType.raw
      → r.width * r.height < 2 ^ 31
      → r.width * r.height * bpp < 2 ^ 31
      → length body ≡ r.width * r.height * bpp / 8
      → IsBody bpp r body
  copy_body :
      (body : List ℕ)
      → r.encoding_type ≡ EncodingType.copy_rect
      → length body ≡ 4
      → IsBody bpp r body
  cursor_body :
      (body : List ℕ)
      → r.encoding_type ≡ EncodingType.cursor
      → r.width * r.height < 2 ^ 31
      → r.width * r.height * bpp < 2 ^ 31
      → length body ≡ r.width * r.height * bpp / 8 + (r.width + 7) / 8 * r.height
      → IsBody bpp r body
  x_cursor_body :
      (body : List ℕ)
      → r.encoding_type ≡ EncodingType.x_cursor
      → length body ≡ 6 + (r.width + 7) / 8 * r.height * 2
      → IsBody bpp r body
  rre_body :
      (n : ℕ) (body : List ℕ)
      → r.encoding_type ≡ EncodingType.rre
      → n < 2 ^ 32
      → length body ≡ bpp / 8 + n * (bpp / 8 + 8)
      → length body < 2 ^ 32
      → IsBody bpp r (be32 n ++ body)

-- The tunnel whose server has these bytes to send.
abbrev pub server_sends : List ℕ → List ℕ → Tunnel → Tunnel
server_sends pushed bs t = record t {
  current = record t.current {
    peer = record { stream = record t.current.peer.stream { input = bs }; pushed = pushed };
  };
}

-- The tunnel after its client got these bytes.
abbrev pub client_gets : List ℕ → Tunnel → Tunnel
client_gets bs t = record t { client = with_sent bs t.client }

pub client_gets-append :
    (xs ys : List ℕ) (t : Tunnel) → client_gets ys (client_gets xs t) ≡ client_gets (xs ++ ys) t
client_gets-append xs ys t = rw (append_assoc t.client.output xs ys)

-- `carried` over the whole of `body`.
carried_whole :
    (body rest : List ℕ) (t : Tunnel)
    → let f =
        carried
          (length body)
          (record { from = (server_sends [] (body ++ rest) t).current.peer; to = t.client }) in
      record t { client = f.to; current = record t.current { peer = f.from } }
      ≡ server_sends [] rest (client_gets body t)
carried_whole [] rest t = refl
carried_whole (b ∷ bs) rest t = rw (take-length-append bs rest, drop-length-append bs rest)

pub relay_body :
    (n : ℕ) (body rest : List ℕ) (t : Tunnel)
    → length body ≡ n
    → to_client (forward_directly n) (server_sends [] (body ++ rest) t)
      ≡ ok tt (server_sends [] rest (client_gets body t))
relay_body n body rest t h =
    to_client_ok (server_sends [] (body ++ rest) t) (forward_directly n) (
      forward_directly_exact n
        (record { from = (server_sends [] (body ++ rest) t).current.peer; to = t.client })
        (omega arith) (omega (arith, length-append body rest)))
    ∙ rw (← h) (ap (ok tt) (carried_whole body rest t))

pub send_header :
    (r : FramebufferUpdateRectangle) (t : Tunnel)
    → on_client (send framebuffer_update_rectangle r) t
      ≡ ok tt (client_gets (encode framebuffer_update_rectangle r) t)
unfolding send
send_header r t = refl

pass_through :
    (r : FramebufferUpdateRectangle) (n : ℕ) (body rest : List ℕ) (t : Tunnel)
    → ((s : Tunnel) → buffer_size t.pixel_format.bits_per_pixel r s ≡ ok n s)
    → length body ≡ n
    → process_pass_through r (server_sends [] (body ++ rest) t)
      ≡ ok passed
          (server_sends [] rest (client_gets (encode framebuffer_update_rectangle r ++ body) t))
unfolding process_pass_through
pass_through r n body rest t size h =
    bind_ok (buffer_size t.pixel_format.bits_per_pixel r)
      (λ k.
        on_client (send framebuffer_update_rectangle r)
        >> (to_client (forward_directly k) >> pure passed))
      (server_sends [] (body ++ rest) t) (size _)
    ∙ bind_ok (on_client (send framebuffer_update_rectangle r))
        (λ _. to_client (forward_directly n) >> pure passed) (server_sends [] (body ++ rest) t)
        (send_header r (server_sends [] (body ++ rest) t))
    ∙ bind_ok (to_client (forward_directly n)) (λ _. pure passed)
        (server_sends [] (body ++ rest) (client_gets (encode framebuffer_update_rectangle r) t))
        (relay_body n body rest (client_gets (encode framebuffer_update_rectangle r) t) h)
    ∙ ap (λ s. ok passed (server_sends [] rest s))
        (client_gets-append (encode framebuffer_update_rectangle r) body t)

-- The parts of an RRE rectangle, once their count is known.
abbrev relay_parts : ℕ → Action Tunnel Fate
relay_parts m = gets (λ s. s.pixel_format.bits_per_pixel) >>= λ bpp.
    to_client (forward_directly (rre_size bpp m)) >> pure passed

-- An RRE rectangle: the count of its parts is looked at on the way.
rre_rectangle :
    (r : FramebufferUpdateRectangle) (n : ℕ) (body rest : List ℕ) (t : Tunnel)
    → n < 2 ^ 32
    → length body < 2 ^ 32
    → length body ≡ t.pixel_format.bits_per_pixel / 8 + n * (t.pixel_format.bits_per_pixel / 8 + 8)
    → process_rre r (server_sends [] (be32 n ++ (body ++ rest)) t)
      ≡ ok passed (
          server_sends [] rest
            (client_gets (encode framebuffer_update_rectangle r ++ (be32 n ++ body)) t))
unfolding process_rre
rre_rectangle r n body rest t fits small h =
    let t1 : Tunnel = client_gets (encode framebuffer_update_rectangle r) t in
    let t2 : Tunnel = client_gets (be32 n) t1 in
    let whole : length body ≡ rre_size t.pixel_format.bits_per_pixel (decode u32 (be32 n)) =
      rw (load32-be32 n fits) (omega arith) in
    bind_ok (on_client (send framebuffer_update_rectangle r))
      (λ _. to_client (forward u32) >>= relay_parts) (server_sends [] (be32 n ++ (body ++ rest)) t)
      (send_header r (server_sends [] (be32 n ++ (body ++ rest)) t))
    ∙ bind_ok (to_client (forward u32)) relay_parts (server_sends [] (be32 n ++ (body ++ rest)) t1)
        (to_client_ok (server_sends [] (be32 n ++ (body ++ rest)) t1) (forward u32) (
          forward_lem u32
            (record {
              from = (server_sends [] (be32 n ++ (body ++ rest)) t1).current.peer;
              to = t1.client;
            })
            (omega arith) (omega arith)))
    ∙ bind_ok
        (to_client
          (forward_directly (rre_size t.pixel_format.bits_per_pixel (decode u32 (be32 n)))))
        (λ _. pure passed) (server_sends [] (body ++ rest) t2) (relay_body _ body rest t2 whole)
    ∙ ap (λ s. ok passed (server_sends [] rest s))
        (ap (client_gets body)
            (client_gets-append (encode framebuffer_update_rectangle r) (be32 n) t)
          ∙ client_gets-append (encode framebuffer_update_rectangle r ++ be32 n) body t)

switch_pass_through :
    (r : FramebufferUpdateRectangle) (s : Tunnel)
    → is_pass_through r.encoding_type ≡ true
    → process_rectangle r s ≡ process_pass_through r s
unfolding process_rectangle
switch_pass_through r s h = ground arith

switch_rre :
    (r : FramebufferUpdateRectangle) (s : Tunnel)
    → r.encoding_type ≡ EncodingType.rre
    → process_rectangle r s ≡ process_rre r s
unfolding process_rectangle
switch_rre r s h = ground arith

buffer_size_lem :
    (bpp : ℕ) (r : FramebufferUpdateRectangle) (body : List ℕ) (s : Tunnel)
    → IsBody bpp r body
    → is_pass_through r.encoding_type ≡ true
    → buffer_size bpp r s ≡ ok (length body) s
unfolding buffer_size
buffer_size_lem bpp r _ s (raw_body body e small fits h) p = ground arith
buffer_size_lem bpp r _ s (copy_body body e h) p = ground arith
buffer_size_lem bpp r _ s (cursor_body body e small fits h) p = ground arith
buffer_size_lem bpp r _ s (x_cursor_body body e h) p = ground arith
buffer_size_lem bpp r _ s (rre_body n body e fits h small) p = ground arith

relay_pass_through :
    (r : FramebufferUpdateRectangle) (body rest : List ℕ) (t : Tunnel)
    → IsBody t.pixel_format.bits_per_pixel r body
    → is_pass_through r.encoding_type ≡ true
    → process_rectangle r (server_sends [] (body ++ rest) t)
      ≡ ok passed
          (server_sends [] rest (client_gets (encode framebuffer_update_rectangle r ++ body) t))
relay_pass_through r body rest t b p =
    switch_pass_through r (server_sends [] (body ++ rest) t) p
    ∙ pass_through r (length body) body rest t
        (λ s. buffer_size_lem t.pixel_format.bits_per_pixel r body s b p) refl

pub relay_rectangle :
    (r : FramebufferUpdateRectangle) (body rest : List ℕ) (t : Tunnel)
    → IsBody t.pixel_format.bits_per_pixel r body
    → process_rectangle r (server_sends [] (body ++ rest) t)
      ≡ ok passed
          (server_sends [] rest (client_gets (encode framebuffer_update_rectangle r ++ body) t))
relay_rectangle r _ rest t (raw_body body e small fits h) =
    relay_pass_through r body rest t (raw_body body e small fits h) (ground arith)
relay_rectangle r _ rest t (copy_body body e h) =
    relay_pass_through r body rest t (copy_body body e h) (ground arith)
relay_rectangle r _ rest t (cursor_body body e small fits h) =
    relay_pass_through r body rest t (cursor_body body e small fits h) (ground arith)
relay_rectangle r _ rest t (x_cursor_body body e h) =
    relay_pass_through r body rest t (x_cursor_body body e h) (ground arith)
relay_rectangle r _ rest t (rre_body n body e fits h small) =
    switch_rre r (server_sends [] (be32 n ++ (body ++ rest)) t) e
    ∙ rre_rectangle r n body rest t fits small h
