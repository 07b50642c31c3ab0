-- ===== src/Examples/Tunnels.antt =====
-- Small inputs for the tunnel.
use vncmanager.Base.{
  ℕ, ◌≡◌, refl, arith, true, false, none, contains, ◌==◌, ◌&&◌, ◌||◌, List, [], ◌∷◌, ◌++◌, ok,
}
use vncmanager.Rfb.Wire.{be16, be32}
use vncmanager.Rfb.Values.EncodingType
use vncmanager.Formatter.{Peer}
use vncmanager.Sessions.Xvnc.{started}
use vncmanager.Sessions.Manager.{XvncManager}
use vncmanager.Tunnel.State.{Tunnel}
use vncmanager.Tunnel.Run.{started_tunnel}
use vncmanager.Tunnel.Encodings.{accepted_encodings}
use vncmanager.Tunnel.Encodings.Laws.{is_supported, is_requested, accepted_encodings_lem}
use vncmanager.Tunnel.FromClient.{client_receive}
use vncmanager.Tunnel.FromClient.Relay.{cut_text, client_sends, server_gets, client_receive_relays}
use vncmanager.Rfb.Wire.{encode}
use vncmanager.Rfb.RoundTrip.{IsRectangle}
use vncmanager.Rfb.Messages.Server.{FramebufferUpdateRectangle, framebuffer_update_rectangle}
use vncmanager.Tunnel.Rectangles.Relay.{raw_body, server_sends, client_gets}
use vncmanager.Tunnel.FromServer.{server_receive}
use vncmanager.Tunnel.Rectangles.Sizes.{plain_body, extended_desktop_size_body}
use vncmanager.Tunnel.FromServer.Relay.{
  no_more, one_more, resized_all, update_header, server_receive_relays,
}
use vncmanager.Base.{after}
use vncmanager.Rfb.Values.{highest_version_string}
use vncmanager.Rfb.Values.SecurityType
use vncmanager.Rfb.Values.VencryptSubtype
use vncmanager.Tunnel.Security.{client_initialize}
use vncmanager.Tunnel.Security.Encryption.{IsEncrypted, client_initialize-IsEncrypted}
use vncmanager.Tunnel.Update.{process_framebuffer_update}
use vncmanager.Connection.State.{Connection}
use vncmanager.Greeter.Connection.{spawned_greeter}
use vncmanager.Tunnel.Switch.{opened_connection, connection_switched}
use vncmanager.Tunnel.Switch.Laws.{switching, switched, connection_switched_lem}
use vncmanager.Tunnel.Tight.{process_tight}
use vncmanager.Tunnel.Tight.Relay.{fill, reset_done, process_tight_lem}

abbrev silent_peer : Peer
silent_peer = record { stream = record { input = []; output = [] }; pushed = [] }

abbrev one_session : XvncManager
one_session = record {
  objects = started 0 100 3 ∷ [];
  xvncs = 0 ∷ [];
  next_id = 1;
  session_list_version = 0;
}

abbrev tunnel : Tunnel
tunnel = started_tunnel false none silent_peer 0 silent_peer one_session

-- ClientCutText with two characters.
abbrev cut_text_message : List ℕ
cut_text_message = (6 ∷ 0 ∷ 0 ∷ 0 ∷ be32 2) ++ (104 ∷ 105 ∷ [])

client_receive_relays_example :
    client_receive (client_sends [] (cut_text_message ++ (4 ∷ [])) tunnel)
    ≡ ok tt (server_gets cut_text_message (client_sends [] (4 ∷ []) tunnel))
client_receive_relays_example =
    client_receive_relays cut_text_message (4 ∷ []) tunnel
      (cut_text 0 0 0 2 (104 ∷ 105 ∷ []) (omega arith) refl)

accepted_encodings_lem_example :
    (contains (accepted_encodings true (7 ∷ 0 ∷ 99 ∷ [])).by_client 7
      ≡ contains (7 ∷ 0 ∷ 99 ∷ []) 7 && is_supported 7)
    × (contains (accepted_encodings true (7 ∷ 0 ∷ 99 ∷ [])).for_server 7
        ≡ (contains (7 ∷ 0 ∷ 99 ∷ []) 7 && is_requested true 7) || EncodingType.desktop_name == 7)
accepted_encodings_lem_example = accepted_encodings_lem true (7 ∷ 0 ∷ 99 ∷ []) 7

-- Sixteen bits for a pixel.
abbrev narrow_tunnel : Tunnel
narrow_tunnel = record tunnel { pixel_format = record tunnel.pixel_format { bits_per_pixel = 16 } }

abbrev raw_rectangle : FramebufferUpdateRectangle
raw_rectangle = record {
  x_position = 10;
  y_position = 0;
  width = 2;
  height = 1;
  encoding_type = EncodingType.raw;
}

raw_rectangle-IsRectangle : IsRectangle raw_rectangle
raw_rectangle-IsRectangle = record {
  x_fits = omega arith;
  y_fits = omega arith;
  width_fits = omega arith;
  height_fits = omega arith;
  encoding_fits = omega arith;
}

abbrev pixels : List ℕ
pixels = 1 ∷ 2 ∷ 3 ∷ 4 ∷ []

-- The server's picture gets another size, with one screen.
abbrev size_rectangle : FramebufferUpdateRectangle
size_rectangle = record {
  x_position = 0;
  y_position = 0;
  width = 800;
  height = 600;
  encoding_type = EncodingType.extended_desktop_size;
}

size_rectangle-IsRectangle : IsRectangle size_rectangle
size_rectangle-IsRectangle = record {
  x_fits = omega arith;
  y_fits = omega arith;
  width_fits = omega arith;
  height_fits = omega arith;
  encoding_fits = omega arith;
}

abbrev one_screen : List ℕ
one_screen = 0 ∷ 0 ∷ 0 ∷ 1 ∷ 0 ∷ 0 ∷ 0 ∷ 0 ∷ 3 ∷ 32 ∷ 2 ∷ 88 ∷ 0 ∷ 0 ∷ 0 ∷ 0 ∷ []

abbrev two_rectangles : List ℕ
two_rectangles =
    encode framebuffer_update_rectangle size_rectangle
    ++ ((1 ∷ 0 ∷ 0 ∷ 0 ∷ one_screen)
        ++ (encode framebuffer_update_rectangle raw_rectangle ++ (pixels ++ [])))

server_receive_relays_example :
    server_receive
      (server_sends [] ((update_header 0 2 ++ two_rectangles) ++ (2 ∷ [])) narrow_tunnel)
    ≡ ok tt (
        server_sends [] (2 ∷ []) (
          client_gets
            (update_header 0 2 ++ two_rectangles)
            (resized_all (size_rectangle ∷ raw_rectangle ∷ []) narrow_tunnel)))
server_receive_relays_example =
    server_receive_relays 0 (size_rectangle ∷ raw_rectangle ∷ []) two_rectangles (2 ∷ [])
      narrow_tunnel (omega arith) refl
      (one_more size_rectangle (1 ∷ 0 ∷ 0 ∷ 0 ∷ one_screen) (raw_rectangle ∷ [])
        (encode framebuffer_update_rectangle raw_rectangle ++ (pixels ++ []))
        size_rectangle-IsRectangle (extended_desktop_size_body 1 0 0 0 one_screen refl refl)
        (one_more raw_rectangle pixels [] [] raw_rectangle-IsRectangle
          (plain_body pixels (raw_body pixels refl (omega arith) (omega arith) refl)) no_more))

-- A client that chooses VeNCrypt with a certificate, and shares the session.
abbrev secure_client : Tunnel
secure_client = record tunnel {
  client = record {
    stream = record {
      input =
          highest_version_string
          ++ (SecurityType.vencrypt ∷ 0 ∷ 2 ∷ (be32 VencryptSubtype.x509_none ++ (1 ∷ [])));
      output = [];
    };
    pushed = [];
  };
}

abbrev certificate_only : List ℕ
certificate_only = VencryptSubtype.x509_none ∷ []

abbrev secured : Tunnel
secured = after (client_initialize certificate_only (λ a. true) secure_client)

secured_lem : client_initialize certificate_only (λ a. true) secure_client ≡ ok tt secured
unfolding client_initialize
secured_lem = refl

client_initialize-IsEncrypted_example : IsEncrypted certificate_only (λ a. true) secured
client_initialize-IsEncrypted_example =
    client_initialize-IsEncrypted certificate_only (λ a. true) secure_client secured refl
      secured_lem

-- The server renames the desktop, to a client that supports LastRect and not DesktopName.
abbrev renaming_tunnel : Tunnel
renaming_tunnel = record tunnel {
  current = record tunnel.current {
    peer = record {
      stream = record {
        input =
            0
            ∷ (be16 1
                ++ (encode framebuffer_update_rectangle
                      (record raw_rectangle { encoding_type = EncodingType.desktop_name })
                    ++ (be32 1 ++ (65 ∷ []))));
        output = [];
      };
      pushed = 0 ∷ [];
    };
  };
  supported_encodings_client = EncodingType.last_rect ∷ [];
}

abbrev renamed : Tunnel
renamed = after (process_framebuffer_update renaming_tunnel)

abbrev potential_connection : Connection
potential_connection = opened_connection 0 silent_peer

-- A session that is open once, and a second connection to it.
abbrev counted_tunnel : Tunnel
counted_tunnel = record tunnel {
  manager = record one_session { objects = record (started 0 100 3) { connection_count = 2 } ∷ [] };
}

connection_switched_lem_example :
    connection_switched (switching (spawned_greeter 7) potential_connection counted_tunnel)
    ≡ ok tt (switched potential_connection counted_tunnel)
connection_switched_lem_example =
    connection_switched_lem (spawned_greeter 7) potential_connection counted_tunnel

-- A reset is queued, and a rectangle of one colour comes.
abbrev resetting : Tunnel
resetting = record tunnel { tight_zlib_reset_queued = true }

process_tight_lem_example :
    process_tight raw_rectangle (server_sends [] (128 ∷ ((1 ∷ 2 ∷ 3 ∷ []) ++ (9 ∷ []))) resetting)
    ≡ ok tt (server_sends [] (9 ∷ []) (client_gets (143 ∷ 1 ∷ 2 ∷ 3 ∷ []) (reset_done resetting)))
process_tight_lem_example =
    process_tight_lem raw_rectangle 128 (1 ∷ 2 ∷ 3 ∷ []) (9 ∷ []) resetting (omega arith)
      (fill 1 2 3 refl)
