-- ===== src/Tunnel/Idle/FromClient.antt =====
-- A message of the client takes back the byte that announced it.
use vncmanager.Base.{
  ℕ, ◌*◌, ◌≤◌, arith, check, Leads, Keeps, Leads-throw, Leads-if, Leads-bind, Keeps-check,
  unknown_client_message, invalid_pixel_format,
}
use vncmanager.Rfb.Wire.{u8, u32}
use vncmanager.Rfb.Pixel.{valid}
use vncmanager.Rfb.Messages.Client.{
  set_pixel_format_message, set_encodings_message, client_cut_text_message,
  set_desktop_size_message, set_desktop_size_screen, framebuffer_update_request_message,
  key_event_message, pointer_event_message,
}
use vncmanager.Formatter.{recv, recv_vector, push_back, forward, forward_directly}
use vncmanager.Formatter.Buffer.{
  recv-Clears, recv_vector-Clears, forward-Hands, forward_directly-Hands,
}
use vncmanager.Connection.Requests.{send_set_pixel_format, send_set_encodings}
use vncmanager.Tunnel.State.{on_client, to_server}
use vncmanager.Tunnel.FromClient.{
  process_set_pixel_format, process_set_encodings, process_framebuffer_update_request,
  process_key_event, process_pointer_event, process_client_cut_text, process_set_desktop_size,
  client_dispatch, client_receive, take_encodings,
}
use vncmanager.Tunnel.Run.{is_connection_exception}
use vncmanager.Tunnel.Idle.{
  IsIdle, HasClient, IsSpared, on_client-Keeps, on_client-Leads, to_server-Keeps, to_server-Leads,
}

set_pixel_format-Leads : Leads HasClient IsIdle IsSpared process_set_pixel_format
unfolding process_set_pixel_format is_connection_exception send_set_pixel_format
set_pixel_format-Leads =
    Leads-bind (on_client (recv set_pixel_format_message)) _
      (on_client-Leads _ 20 (recv-Clears set_pixel_format_message) (omega arith))
      (λ message.
        Leads-bind (check (valid message.pixel_format) invalid_pixel_format) _
          (Keeps-check _ _ (λ t h k. cc k)) (λ _. record { at = λ t h. h }))

set_encodings-Leads : Leads HasClient IsIdle IsSpared process_set_encodings
unfolding process_set_encodings take_encodings send_set_encodings
set_encodings-Leads =
    Leads-bind (on_client (recv set_encodings_message)) _
      (on_client-Leads _ 4 (recv-Clears set_encodings_message) (omega arith))
      (λ message.
        Leads-bind (on_client (recv_vector u32 message.number_of_encodings)) _
          (on_client-Keeps _ _ (recv_vector-Clears u32 message.number_of_encodings))
          (λ es. record { at = λ t h. h }))

client_cut_text-Leads : Leads HasClient IsIdle IsSpared process_client_cut_text
unfolding process_client_cut_text
client_cut_text-Leads =
    Leads-bind (to_server (forward client_cut_text_message)) _
      (to_server-Leads _ 8 (forward-Hands client_cut_text_message) (omega arith))
      (λ message. to_server-Keeps _ _ (forward_directly-Hands message.text_length))

set_desktop_size-Leads : Leads HasClient IsIdle IsSpared process_set_desktop_size
unfolding process_set_desktop_size
set_desktop_size-Leads =
    Leads-bind (to_server (forward set_desktop_size_message)) _
      (to_server-Leads _ 8 (forward-Hands set_desktop_size_message) (omega arith))
      (λ message.
        to_server-Keeps _ _
          (forward_directly-Hands (message.number_of_screens * set_desktop_size_screen.size)))

-- A message of a fixed size.
whole-Leads : (n : ℕ) → 1 ≤ n → Leads HasClient IsIdle IsSpared (to_server (forward_directly n))
whole-Leads n large = to_server-Leads _ n (forward_directly-Hands n) large

dispatch-Leads : (type : ℕ) → Leads HasClient IsIdle IsSpared (client_dispatch type)
unfolding client_dispatch process_framebuffer_update_request process_key_event process_pointer_event
    is_connection_exception
dispatch-Leads type = Leads-if _ _ _ set_pixel_format-Leads (
    Leads-if _ _ _ set_encodings-Leads (
      Leads-if _ _ _ (whole-Leads framebuffer_update_request_message.size (omega arith)) (
        Leads-if _ _ _ (whole-Leads key_event_message.size (omega arith)) (
          Leads-if _ _ _ (whole-Leads pointer_event_message.size (omega arith)) (
            Leads-if _ _ _ client_cut_text-Leads (
              Leads-if _ _ _ set_desktop_size-Leads
                (Leads-throw unknown_client_message (λ t h k. cc k))))))))

push_back-Leads : (b : ℕ) → Leads IsIdle HasClient IsSpared (on_client (push_back u8 b))
unfolding push_back
push_back-Leads b = record { at = λ t (c, s, p). rw c (omega arith, s, p) }

-- The type of a message is read, looked at and put back; then the message is read as a whole.
pub client_receive-Keeps : Keeps IsIdle IsSpared client_receive
unfolding client_receive
client_receive-Keeps =
    Leads-bind (on_client (recv u8)) _ (on_client-Keeps _ 1 (recv-Clears u8)) (λ type.
      Leads-bind (on_client (push_back u8 type)) _ (push_back-Leads type)
        (λ _. dispatch-Leads type))
