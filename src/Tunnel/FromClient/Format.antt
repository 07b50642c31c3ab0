-- ===== src/Tunnel/FromClient/Format.antt =====
-- A client's choice of a pixel format.
use vncmanager.Base.{
  ℕ, ◌≡◌, refl, ◌∙◌, arith, true, false, List, [], ◌∷◌, ◌++◌, if◌then◌else◌, Bool-cases, inl, inr,
  Action, ok, err, invalid_pixel_format, bind_ok, check, modify, ◌>>◌,
}
use vncmanager.Rfb.Wire.{encode, decode}
use vncmanager.Rfb.Pixel.{PixelFormat, pixel_format, valid}
use vncmanager.Rfb.Messages.Client.{SetPixelFormatMessage, set_pixel_format_message}
use vncmanager.Rfb.RoundTrip.{FormatBytes, bytes, relayed}
use vncmanager.Formatter.{recv}
use vncmanager.Formatter.Laws.{recv_lem}
use vncmanager.Connection.Requests.{send_set_pixel_format}
use vncmanager.Tunnel.State.{Tunnel, on_client, on_current}
use vncmanager.Tunnel.Lift.{on_client_ok}
use vncmanager.Tunnel.FromClient.{client_receive, client_dispatch, process_set_pixel_format}
use vncmanager.Tunnel.FromClient.Relay.{client_sends, server_gets, receive_type}

-- The format that these bytes say, as the tunnel reads it.
abbrev pub read_format : FormatBytes → PixelFormat
read_format f = decode pixel_format (bytes f)

-- The tunnel with this format, for itself and for the current connection.
abbrev pub with_format : PixelFormat → Tunnel → Tunnel
with_format p t = record t { pixel_format = p; current = record t.current { pixel_format = p } }

-- What follows the receipt of the message.
abbrev take_format : SetPixelFormatMessage → Action Tunnel (Unit {0})
take_format m =
    check (valid m.pixel_format) invalid_pixel_format
    >> (modify (λ t. record t { pixel_format = m.pixel_format })
        >> on_current (send_set_pixel_format m.pixel_format))

take_valid :
    (m : SetPixelFormatMessage) (t : Tunnel)
    → valid m.pixel_format ≡ true
    → take_format m t
      ≡ ok tt (
          server_gets
            (0 ∷ 0 ∷ 0 ∷ 0 ∷ encode pixel_format m.pixel_format)
            (with_format m.pixel_format t))
unfolding send_set_pixel_format
take_valid m t v = rw v refl

take_invalid :
    (m : SetPixelFormatMessage) (t : Tunnel)
    → valid m.pixel_format ≡ false
    → take_format m t ≡ err invalid_pixel_format t
take_invalid m t v = rw v refl

-- SetPixelFormat: a valid format, of 8, 16, 24 or 32 bits per pixel, is kept for the tunnel and the
-- current connection, and the server is told it; any other format is refused with an exception, and
-- the server is told nothing. The message is read as a whole either way.
pub client_receive-format :
    (p0 p1 p2 : ℕ) (f : FormatBytes) (rest : List ℕ) (t : Tunnel)
    → client_receive (client_sends [] ((0 ∷ p0 ∷ p1 ∷ p2 ∷ bytes f) ++ rest) t) ≡ (
        if valid (read_format f)
        then ok tt (
            server_gets
              (0 ∷ 0 ∷ 0 ∷ 0 ∷ relayed (bytes f))
              (with_format (read_format f) (client_sends [] rest t)))
        else err invalid_pixel_format (client_sends [] rest t))
unfolding client_dispatch process_set_pixel_format
client_receive-format p0 p1 p2 f rest t =
    let t1 : Tunnel = client_sends (0 ∷ []) ((p0 ∷ p1 ∷ p2 ∷ bytes f) ++ rest) t in
    let m : SetPixelFormatMessage = decode set_pixel_format_message (0 ∷ p0 ∷ p1 ∷ p2 ∷ bytes f) in
    receive_type 0 ((p0 ∷ p1 ∷ p2 ∷ bytes f) ++ rest) t
    ∙ bind_ok (on_client (recv set_pixel_format_message)) take_format t1 (
        on_client_ok t1 (recv set_pixel_format_message)
          (recv_lem set_pixel_format_message t1.client (omega arith) (omega arith)))
    ∙ elim (Bool-cases (valid m.pixel_format)) [
      | inl good ↦ take_valid m (client_sends [] rest t) good ∙ rw good refl
      | inr bad ↦ take_invalid m (client_sends [] rest t) bad ∙ rw bad refl
    ]
