-- ===== src/Examples/Requests.antt =====
-- Small inputs for the client's choice of a format and of encodings.
use vncmanager.Base.{
  ℕ, ◌≡◌, arith, false, none, if◌then◌else◌, List, [], ◌∷◌, ◌++◌, ok, err, invalid_pixel_format,
}
use vncmanager.Rfb.Wire.{u32, be16, encode_all}
use vncmanager.Rfb.Pixel.{valid}
use vncmanager.Rfb.RoundTrip.{FormatBytes, bytes, relayed}
use vncmanager.Formatter.{Peer}
use vncmanager.Sessions.Xvnc.{started}
use vncmanager.Tunnel.State.{Tunnel}
use vncmanager.Tunnel.Run.{started_tunnel}
use vncmanager.Tunnel.Encodings.{accepted_encodings}
use vncmanager.Tunnel.FromClient.{client_receive}
use vncmanager.Tunnel.FromClient.Relay.{client_sends, server_gets}
use vncmanager.Tunnel.FromClient.Format.{read_format, with_format, client_receive-format}
use vncmanager.Tunnel.FromClient.SetEncodings.{
  told_encodings, with_encodings, client_receive-encodings,
}

abbrev quiet : Peer
quiet = record { stream = record { input = []; output = [] }; pushed = [] }

abbrev asking : Tunnel
asking = started_tunnel false none quiet 0 quiet (record {
  objects = started 0 100 3 ∷ [];
  xvncs = 0 ∷ [];
  next_id = 1;
  session_list_version = 0;
})

-- 12 bits for a pixel, which no tunnel takes.
abbrev twelve_bits : FormatBytes
twelve_bits = record {
  bpp = 12;
  depth = 12;
  big_endian = 0;
  true_colour = 1;
  red0 = 0;
  red1 = 15;
  green0 = 0;
  green1 = 15;
  blue0 = 0;
  blue1 = 15;
  red_shift = 8;
  green_shift = 4;
  blue_shift = 0;
  pad0 = 0;
  pad1 = 0;
  pad2 = 0;
}

client_receive-format_example :
    client_receive (client_sends [] ((0 ∷ 0 ∷ 0 ∷ 0 ∷ bytes twelve_bits) ++ (4 ∷ [])) asking) ≡ (
      if valid (read_format twelve_bits)
      then ok tt (
          server_gets
            (0 ∷ 0 ∷ 0 ∷ 0 ∷ relayed (bytes twelve_bits))
            (with_format (read_format twelve_bits) (client_sends [] (4 ∷ []) asking)))
      else err invalid_pixel_format (client_sends [] (4 ∷ []) asking))
client_receive-format_example = client_receive-format 0 0 0 twelve_bits (4 ∷ []) asking

-- ZRLE, which the program does not know, and Raw.
abbrev listed : List ℕ
listed = 16 ∷ 0 ∷ []

client_receive-encodings_example :
    client_receive
      (client_sends [] ((2 ∷ 0 ∷ be16 2) ++ (encode_all u32 listed ++ (4 ∷ []))) asking)
    ≡ ok tt (
        server_gets
          (told_encodings (accepted_encodings false listed).for_server)
          (with_encodings listed (client_sends [] (4 ∷ []) asking)))
client_receive-encodings_example =
    client_receive-encodings 0 listed (4 ∷ []) asking (omega arith) (omega arith)
