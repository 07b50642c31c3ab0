-- ===== src/Connection/Requests.antt =====
-- What XvncConnection sends to its Xvnc once the connection stands.
use vncmanager.Base.{ℕ, ◌%◌, List, length, Action, ok, err, ◌>>◌, modify}
use vncmanager.Rfb.Values.ClientMessageType
use vncmanager.Rfb.Wire.{u32}
use vncmanager.Rfb.Pixel.{PixelFormat}
use vncmanager.Rfb.Messages.Client.{
  set_pixel_format_message, set_encodings_message, framebuffer_update_request_message,
}
use vncmanager.Formatter.{Peer, send, send_vector}
use vncmanager.Connection.State.{Connection}

abbrev at_peer : {A : Type 0} → Action Peer A → Action Connection A
at_peer m c = elim (m c.peer) [
  | ok a p ↦ ok a (record c { peer = p })
  | err e p ↦ err e (record c { peer = p })
]

unfoldable pub send_set_pixel_format : PixelFormat → Action Connection (Unit {0})
unfolding send
send_set_pixel_format f = do
  modify (λ c. record c { pixel_format = f })
  at_peer (
      send set_pixel_format_message
        (record { type = ClientMessageType.set_pixel_format; padding = 0; pixel_format = f }))

-- `numberOfEncodings` is a `uint16_t`.
unfoldable pub send_set_encodings : List ℕ → Action Connection (Unit {0})
unfolding send send_vector
send_set_encodings encodings = do
  at_peer (
      send set_encodings_message (record {
        type = ClientMessageType.set_encodings;
        padding = 0;
        number_of_encodings = length encodings % 65536;
      }))
  at_peer (send_vector u32 encodings)

unfoldable pub send_non_incremental_framebuffer_update_request : Action Connection (Unit {0})
unfolding send
send_non_incremental_framebuffer_update_request c =
    at_peer
      (send framebuffer_update_request_message (record {
        type = ClientMessageType.framebuffer_update_request;
        incremental = 0;
        x_position = 0;
        y_position = 0;
        width = c.framebuffer_width;
        height = c.framebuffer_height;
      }))
      c
