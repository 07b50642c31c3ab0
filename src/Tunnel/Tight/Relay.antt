-- ===== src/Tunnel/Tight/Relay.antt =====
-- Tight rectangles, and the reset of their streams after a switch.
use vncmanager.Base.{
  ℕ, ◌+◌, ◌*◌, ◌/◌, ◌^◌, ◌<◌, ◌≡◌, refl, ap, ◌∙◌, arith, Bool, ◌==◌, false, List, [], ◌∷◌, ◌++◌,
  length, bind_ok, ok, ◌>>=◌, ◌>>◌, if◌then◌else◌,
}
use vncmanager.Rfb.Wire.{encode, decode}
use vncmanager.Rfb.Messages.Server.{FramebufferUpdateRectangle}
use vncmanager.Rfb.Tight.{TightCompressionControl, tight_compression_control, tight_pixel_size}
use vncmanager.Formatter.{recv, send, forward_directly}
use vncmanager.Formatter.Laws.{recv_lem}
use vncmanager.Tunnel.State.{Tunnel, on_client, on_server, to_client}
use vncmanager.Tunnel.Lift.{on_server_ok}
use vncmanager.Tunnel.Tight.{
  forward_tight_variable_length_data, reset_streams, basic_compression, tight_body, process_tight,
}
use vncmanager.Tunnel.Rectangles.Relay.{server_sends, client_gets, client_gets-append, relay_body}
use vncmanager.Tunnel.Tight.Basic.{IsBasic, unfiltered, filtered, palette, basic_compression_lem}
use vncmanager.Tunnel.Tight.Length.{compact, variable_length}

-- The control byte that goes to the client: all four streams reset where a reset is queued.
abbrev pub sent_control : Bool → ℕ → ℕ
sent_control queued b = if queued then b / 16 * 16 + 15 else b

-- What follows the control byte of one colour, of a picture in JPEG or of one with the basic
-- compression, for a rectangle `s` and pixels of `bpp` bits.
pub data IsPicture (bpp : ℕ) (s : FramebufferUpdateRectangle) (control : ℕ) : List ℕ → Type 0 where
  fill : (r g b : ℕ) → control / 16 ≡ 8 → IsPicture bpp s control (r ∷ g ∷ b ∷ [])
  jpeg :
      (k : ℕ) (bs : List ℕ)
      → control / 16 ≡ 9
      → k < 2 ^ 22
      → length bs ≡ k
      → IsPicture bpp s control (compact k ++ bs)
  basic : (body : List ℕ) → IsBasic bpp s control body → IsPicture bpp s control body

switch_fill :
    (r : FramebufferUpdateRectangle) (c : TightCompressionControl) (s : Tunnel)
    → c.rest ≡ 8
    → tight_body r c s ≡ to_client (forward_directly tight_pixel_size) s
unfolding tight_body
switch_fill r c s h = rw h refl

switch_jpeg :
    (r : FramebufferUpdateRectangle) (c : TightCompressionControl) (s : Tunnel)
    → c.rest ≡ 9
    → tight_body r c s ≡ forward_tight_variable_length_data s
unfolding tight_body
switch_jpeg r c s h = rw h refl

basic_kind :
    (bpp : ℕ) (r : FramebufferUpdateRectangle) (b : ℕ) (body : List ℕ)
    → IsBasic bpp r b body
    → b / 16 < 8
basic_kind bpp r b _ (unfiltered bs kind p) = ground arith
basic_kind bpp r b _ (filtered f bs kind other p) = ground arith
basic_kind bpp r b _ (palette p colours bs kind h q) = ground arith

switch_basic :
    (r : FramebufferUpdateRectangle) (c : TightCompressionControl) (s : Tunnel)
    → c.rest < 8
    → tight_body r c s ≡ basic_compression r c s
unfolding tight_body
switch_basic r c s h =
    let no_fill : (c.rest == 8) ≡ false = ground arith in
    let no_jpeg : (c.rest == 9) ≡ false = ground arith in rw (no_fill, no_jpeg) refl

body_lem :
    (r : FramebufferUpdateRectangle) (c : TightCompressionControl) (b : ℕ) (tail rest : List ℕ)
    (t : Tunnel)
    → c.rest ≡ b / 16
    → IsPicture t.pixel_format.bits_per_pixel r b tail
    → tight_body r c (server_sends [] (tail ++ rest) t)
      ≡ ok tt (server_sends [] rest (client_gets tail t))
body_lem r c b _ rest t e (fill x y z kind) =
    switch_fill r c (server_sends [] (x ∷ y ∷ z ∷ rest) t) (e ∙ kind)
    ∙ relay_body 3 (x ∷ y ∷ z ∷ []) rest t refl
body_lem r c b _ rest t e (jpeg k bs kind fits h) =
    switch_jpeg r c (server_sends [] ((compact k ++ bs) ++ rest) t) (e ∙ kind)
    ∙ variable_length k bs rest t fits h
body_lem r c b _ rest t e (basic body p) =
    switch_basic r c (server_sends [] (body ++ rest) t)
      (omega (arith, e, basic_kind t.pixel_format.bits_per_pixel r b body p))
    ∙ basic_compression_lem r b c body rest t e p

-- The byte `b` as a control structure.
abbrev control_of : ℕ → TightCompressionControl
control_of b = decode tight_compression_control (b ∷ [])

-- No reset is queued any more.
abbrev pub reset_done : Tunnel → Tunnel
reset_done t = record t { tight_zlib_reset_queued = false }

reset_lem :
    (b : ℕ) (t : Tunnel)
    → b < 256
    → reset_streams (control_of b) t
      ≡ ok (control_of (sent_control t.tight_zlib_reset_queued b)) (reset_done t)
unfolding reset_streams
reset_lem b t small = ground arith

sent_control_small : (q : Bool) (b : ℕ) → b < 256 → sent_control q b < 256
sent_control_small q b small = ground arith

control_rest : (q : Bool) (b : ℕ) → b < 256 → (control_of (sent_control q b)).rest ≡ b / 16
control_rest q b small = ground arith

send_control :
    (b : ℕ) (t : Tunnel)
    → b < 256
    → on_client (send tight_compression_control (control_of b)) t ≡ ok tt (client_gets (b ∷ []) t)
unfolding send
send_control b t small =
    let same : encode tight_compression_control (control_of b) ≡ b ∷ [] =
      ap (λ (x : ℕ). x ∷ []) (omega arith) in
    ap (λ (xs : List ℕ). ok tt (client_gets xs t)) same

-- A Tight rectangle of one colour, with a JPEG picture or with the basic compression, of pixels as long
-- as the format says and with colours of three bytes in its palette, is handed on as the server sent
-- it, but for the four reset bits of its control byte, which are set when a reset is queued; no reset
-- is queued afterwards.
pub process_tight_lem :
    (r : FramebufferUpdateRectangle) (b : ℕ) (tail rest : List ℕ) (t : Tunnel)
    → b < 256
    → IsPicture t.pixel_format.bits_per_pixel r b tail
    → process_tight r (server_sends [] (b ∷ (tail ++ rest)) t)
      ≡ ok tt (
          server_sends [] rest
            (client_gets (sent_control t.tight_zlib_reset_queued b ∷ tail) (reset_done t)))
unfolding process_tight
process_tight_lem r b tail rest t small p =
    let q : Bool = t.tight_zlib_reset_queued in
    let b' : ℕ = sent_control q b in
    let t0 : Tunnel = server_sends [] (b ∷ (tail ++ rest)) t in
    let t1 : Tunnel = server_sends [] (tail ++ rest) t in
    bind_ok (on_server (recv tight_compression_control))
      (λ c.
        reset_streams c >>= λ c'. on_client (send tight_compression_control c') >> tight_body r c')
      t0
      (on_server_ok t0 (recv tight_compression_control)
        (recv_lem tight_compression_control t0.current.peer (omega arith) (omega arith)))
    ∙ bind_ok (reset_streams (control_of b))
        (λ c'. on_client (send tight_compression_control c') >> tight_body r c') t1
        (reset_lem b t1 small)
    ∙ bind_ok (on_client (send tight_compression_control (control_of b')))
        (λ x. tight_body r (control_of b')) (reset_done t1)
        (send_control b' (reset_done t1) (sent_control_small q b small))
    ∙ body_lem r (control_of b') b tail rest (client_gets (b' ∷ []) (reset_done t))
        (control_rest q b small) p
    ∙ ap (λ (s : Tunnel). ok tt (server_sends [] rest s))
        (client_gets-append (b' ∷ []) tail (reset_done t))
