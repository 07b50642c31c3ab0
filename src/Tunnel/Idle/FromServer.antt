-- ===== src/Tunnel/Idle/FromServer.antt =====
-- A message of the server takes back the byte that announced it.
use vncmanager.Base.{
  ℕ, zero, suc, ◌*◌, ◌&&◌, not, arith, Bool, true, ◌==◌, Result, ok, err, throw, Leads, Keeps, Post,
  Leads-throw, Leads-if, Leads-bind, Keeps-check, Keeps-when, ◌>>◌, Bool-cases, inl, inr,
  colour_map_not_implemented, unknown_server_message, assertion,
}
use vncmanager.Rfb.Values.EncodingType
use vncmanager.Rfb.Values.ServerMessageType
use vncmanager.Rfb.Wire.{u8}
use vncmanager.Rfb.Messages.Server.{
  set_colour_map_entries_message, colour_map_entry, bell_message, server_cut_text_message,
  framebuffer_update_message, framebuffer_update_rectangle,
}
use vncmanager.Formatter.{recv, send, push_back, forward}
use vncmanager.Formatter.Buffer.{recv-Clears, forward-Hands, forward_directly-Hands}
use vncmanager.Tunnel.State.{Tunnel, on_client, on_server, to_client, client_supports_encoding}
use vncmanager.Tunnel.Rectangles.{Fate, passed, skipped, last, send_desktop_name}
use vncmanager.Tunnel.Update.{
  Flags, rectangle, rectangles, announce, empty_rectangle, send_extra_rectangles,
  send_last_rectangle, finish, process_framebuffer_update,
}
use vncmanager.Tunnel.FromServer.{
  process_set_colour_map_entries, process_bell, process_server_cut_text, server_dispatch,
  server_receive,
}
use vncmanager.Tunnel.Run.{is_connection_exception}
use vncmanager.Tunnel.Idle.{
  IsIdle, HasServer, IsSpared, on_server-Keeps, on_server-Leads, to_client-Keeps, to_client-Leads,
  send-Keeps,
}
use vncmanager.Tunnel.Idle.Tight.{Idles}
use vncmanager.Tunnel.Idle.Rectangles.{process_rectangle-Idles}

rectangle-Idles : Idles rectangle
unfolding rectangle
rectangle-Idles =
    Leads-bind (on_server (recv framebuffer_update_rectangle)) _
      (on_server-Keeps _ 12 (recv-Clears framebuffer_update_rectangle)) process_rectangle-Idles

-- What is left of the loop once a rectangle was dealt with.
after_rectangle :
    (n : ℕ) (must : Bool)
    → ((m : Bool) → Idles (rectangles n m))
    → (r : Result Tunnel Fate) → Post (λ _ u. IsIdle u) IsSpared r
    → Post
        (λ _ u. IsIdle u)
        IsSpared
        (elim r [
          | ok fate t' ↦ elim fate [
            | passed ↦ rectangles n must t'
            | skipped ↦ rectangles n true t'
            | last ↦ ok (record { must_use_last_rect = must; last_rect_received = true }) t'
          ]
          | err e t' ↦ err e t'
        ])
after_rectangle n must next (ok passed u) h = (next must).at u h
after_rectangle n must next (ok skipped u) h = (next true).at u h
after_rectangle n must next (ok last u) h = h
after_rectangle n must next (err x u) h = h

rectangles-Idles : (n : ℕ) (must : Bool) → Idles (rectangles n must)
unfolding rectangles
rectangles-Idles zero must = record { at = λ t h. h }
rectangles-Idles (suc n) must = record {
  at = λ t h. after_rectangle n must (rectangles-Idles n) (rectangle t) (rectangle-Idles.at t h);
}

announce-Idles : (n : ℕ) → Idles (announce n)
unfolding announce is_connection_exception
announce-Idles n = record { at = λ t h. ground (arith, h) }

extra-Idles : Idles send_extra_rectangles
unfolding send_extra_rectangles send_desktop_name
extra-Idles = record {
  at = λ t h. elim (Bool-cases t.desktop_name_change_queued) [
    | inl queued ↦ rw queued h
    | inr none_queued ↦ rw none_queued h
  ];
}

finish-Idles : (f : Flags) → Idles (finish f)
unfolding finish is_connection_exception
finish-Idles f = record {
  at = λ t h. elim (Bool-cases (client_supports_encoding EncodingType.last_rect t)) [
    | inl supported ↦ rw supported (
        (Keeps-when (f.must_use_last_rect && not f.last_rect_received) send_last_rectangle
            (send-Keeps framebuffer_update_rectangle (empty_rectangle EncodingType.last_rect))).at
          t h)
    | inr unsupported ↦
        rw unsupported ((Keeps-check (not f.must_use_last_rect) assertion (λ s g k. cc k)).at t h)
  ];
}

update-Leads : Leads HasServer IsIdle IsSpared process_framebuffer_update
unfolding process_framebuffer_update
update-Leads =
    Leads-bind (on_server (recv framebuffer_update_message)) _
      (on_server-Leads _ 4 (recv-Clears framebuffer_update_message) (omega arith))
      (λ message.
        Leads-bind (announce message.number_of_rectangles) _ (announce-Idles _) (λ (count, must).
          Leads-bind
            (on_client
              (send framebuffer_update_message (record message { number_of_rectangles = count })))
            _ (send-Keeps framebuffer_update_message _)
            (λ _. Leads-bind send_extra_rectangles _ extra-Idles (λ _.
              Leads-bind (rectangles message.number_of_rectangles must) finish
                (rectangles-Idles _ must) finish-Idles))))

colour_map-Leads :
    Leads HasServer IsIdle IsSpared
      (do process_set_colour_map_entries; throw {A = Unit {0}} colour_map_not_implemented)
unfolding process_set_colour_map_entries is_connection_exception
colour_map-Leads =
    Leads-bind process_set_colour_map_entries _
      (Leads-bind (to_client (forward set_colour_map_entries_message)) _
        (to_client-Leads _ 6 (forward-Hands set_colour_map_entries_message) (omega arith))
        (λ message.
          to_client-Keeps _ _
            (forward_directly-Hands (colour_map_entry.size * message.number_of_colours))))
      (λ _. Leads-throw colour_map_not_implemented (λ t h k. cc k))

cut_text-Leads : Leads HasServer IsIdle IsSpared process_server_cut_text
unfolding process_server_cut_text
cut_text-Leads =
    Leads-bind (to_client (forward server_cut_text_message)) _
      (to_client-Leads _ 8 (forward-Hands server_cut_text_message) (omega arith))
      (λ message. to_client-Keeps _ _ (forward_directly-Hands message.text_length))

bell-Leads : Leads HasServer IsIdle IsSpared process_bell
unfolding process_bell
bell-Leads = to_client-Leads _ 1 (forward_directly-Hands bell_message.size) (omega arith)

dispatch-Leads : (type : ℕ) → Leads HasServer IsIdle IsSpared (server_dispatch type)
unfolding server_dispatch is_connection_exception
dispatch-Leads type = Leads-if (type == ServerMessageType.framebuffer_update) _ _ update-Leads (
    Leads-if (type == ServerMessageType.set_colour_map_entries) _ _ colour_map-Leads (
      Leads-if (type == ServerMessageType.bell) _ _ bell-Leads (
        Leads-if (type == ServerMessageType.server_cut_text) _ _ cut_text-Leads
          (Leads-throw unknown_server_message (λ t h k. cc k)))))

push_back-Leads : (b : ℕ) → Leads IsIdle HasServer IsSpared (on_server (push_back u8 b))
unfolding push_back
push_back-Leads b = record { at = λ t (c, s, p). rw s (c, omega arith, p) }

-- The type of a message is read, looked at and put back; then the message is read as a whole.
pub server_receive-Keeps : Keeps IsIdle IsSpared server_receive
unfolding server_receive
server_receive-Keeps =
    Leads-bind (on_server (recv u8)) _ (on_server-Keeps _ 1 (recv-Clears u8)) (λ type.
      Leads-bind (on_server (push_back u8 type)) _ (push_back-Leads type)
        (λ _. dispatch-Leads type))
