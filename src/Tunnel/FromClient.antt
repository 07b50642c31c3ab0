-- ===== src/Tunnel/FromClient.antt =====
-- `VncTunnel::clientReceive` and the handlers of a client's messages.
pub mod Relay
pub mod Format
pub mod SetEncodings
use vncmanager.Base.{
  ℕ, ◌*◌, Bool, List, ◌==◌, if◌then◌else◌, Result, Action, ok, err, Error, gets, modify, throw,
  check, ◌>>=◌, ◌>>◌, unknown_client_message, invalid_pixel_format,
}
use vncmanager.Rfb.Values.ClientMessageType
use vncmanager.Rfb.Wire.{u8, u32}
use vncmanager.Rfb.Pixel.{PixelFormat, valid}
use vncmanager.Rfb.Messages.Client.{
  set_pixel_format_message, set_encodings_message, client_cut_text_message,
  set_desktop_size_message, set_desktop_size_screen, framebuffer_update_request_message,
  key_event_message, pointer_event_message,
}
use vncmanager.Rfb.Wire.{Wire}
use vncmanager.Formatter.{recv, recv_vector, push_back, forward, forward_directly}
use vncmanager.Connection.Requests.{send_set_pixel_format, send_set_encodings}
use vncmanager.Tunnel.State.{Tunnel, on_client, on_current, to_server}
use vncmanager.Tunnel.Encodings.{Accepted, accepted_encodings}

unfoldable pub process_set_pixel_format : Action Tunnel (Unit {0})
unfolding recv valid send_set_pixel_format
process_set_pixel_format = do
  message ← on_client (recv set_pixel_format_message)
  check (valid message.pixel_format) invalid_pixel_format
  modify (λ t. record t { pixel_format = message.pixel_format })
  on_current (send_set_pixel_format message.pixel_format)

unfoldable pub take_encodings : List ℕ → Action Tunnel (Unit {0})
unfolding accepted_encodings
take_encodings es t =
    let a = accepted_encodings t.tight_encoding_disabled es in
    ok tt (record t {
      supported_encodings_client = a.by_client;
      supported_encodings_server = a.for_server;
    })

unfoldable pub process_set_encodings : Action Tunnel (Unit {0})
unfolding recv recv_vector take_encodings send_set_encodings
process_set_encodings = do
  message ← on_client (recv set_encodings_message)
  encodings ← on_client (recv_vector u32 message.number_of_encodings)
  take_encodings encodings
  for_server ← gets (λ t. t.supported_encodings_server)
  on_current (send_set_encodings for_server)

unfoldable pub process_framebuffer_update_request : Action Tunnel (Unit {0})
unfolding forward_directly
process_framebuffer_update_request =
    to_server (forward_directly framebuffer_update_request_message.size)

unfoldable pub process_key_event : Action Tunnel (Unit {0})
unfolding forward_directly
process_key_event = to_server (forward_directly key_event_message.size)

unfoldable pub process_pointer_event : Action Tunnel (Unit {0})
unfolding forward_directly
process_pointer_event = to_server (forward_directly pointer_event_message.size)

unfoldable pub process_client_cut_text : Action Tunnel (Unit {0})
unfolding forward forward_directly
process_client_cut_text = do
  message ← to_server (forward client_cut_text_message)
  to_server (forward_directly message.text_length)

unfoldable pub process_set_desktop_size : Action Tunnel (Unit {0})
unfolding forward forward_directly
process_set_desktop_size = do
  message ← to_server (forward set_desktop_size_message)
  to_server (forward_directly (message.number_of_screens * set_desktop_size_screen.size))

-- The switch of `clientReceive`.
unfoldable pub client_dispatch : ℕ → Action Tunnel (Unit {0})
client_dispatch type =
    if type == ClientMessageType.set_pixel_format
    then process_set_pixel_format
    else (if type == ClientMessageType.set_encodings
        then process_set_encodings
        else (if type == ClientMessageType.framebuffer_update_request
            then process_framebuffer_update_request
            else (if type == ClientMessageType.key_event
                then process_key_event
                else (if type == ClientMessageType.pointer_event
                    then process_pointer_event
                    else (if type == ClientMessageType.client_cut_text
                        then process_client_cut_text
                        else (if type == ClientMessageType.set_desktop_size
                            then process_set_desktop_size
                            else throw unknown_client_message))))))

unfoldable pub client_receive : Action Tunnel (Unit {0})
unfolding recv push_back client_dispatch
client_receive = do type ← on_client (recv u8); on_client (push_back u8 type); client_dispatch type
