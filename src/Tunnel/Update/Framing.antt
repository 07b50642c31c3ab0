-- ===== src/Tunnel/Update/Framing.antt =====
-- The number of rectangles that an update announces, against those that are written to the client.
use vncmanager.Base.{ℕ, ◌+◌, ◌≤◌, ◌≡◌, true, List, ◌++◌, ok}
use vncmanager.Rfb.Values.EncodingType
use vncmanager.Rfb.Wire.{encode}
use vncmanager.Rfb.Messages.Server.{FramebufferUpdateMessage, framebuffer_update_message}
use vncmanager.Formatter.{recv}
use vncmanager.Tunnel.State.{Tunnel, on_server, client_supports_encoding}
use vncmanager.Tunnel.Rectangles.Written.{Has, HasLast, headed}
use vncmanager.Tunnel.Update.{count_extra_rectangles, empty_rectangle}
use vncmanager.Tunnel.Update.Rounds.{Writes}

-- How an update of which `count` rectangles were announced and `number` written comes to its end:
-- these are all, or LastRect follows them, the server's or the tunnel's.
pub data Ending (count number : ℕ) (middle : List ℕ) (t : Tunnel) : Type 0 where
  counted : number ≡ count → Has middle t → Ending count number middle t
  last_of_server : HasLast middle t → Ending count number middle t
  last_of_tunnel :
      client_supports_encoding EncodingType.last_rect t ≡ true
      → Has (headed middle (empty_rectangle EncodingType.last_rect)) t
      → Ending count number middle t

-- What an update writes from `t` to `t'`: the header with the announced count, the rectangles, and
-- the end.
pub record Framed (t t' : Tunnel) : Type 0 where
  pub message : FramebufferUpdateMessage
  pub received : Tunnel
  pub header : on_server (recv framebuffer_update_message) t ≡ ok message received
  pub count : ℕ
  pub fits : count ≤ 65535
  pub number : ℕ
  pub middle : List ℕ
  pub written :
      Writes number
        (t.client.output
          ++ encode framebuffer_update_message (record message { number_of_rectangles = count }))
        middle
  pub within :
      message.number_of_rectangles + count_extra_rectangles received ≤ 65535 → number ≤ count
  pub ending : Ending count number middle t'
