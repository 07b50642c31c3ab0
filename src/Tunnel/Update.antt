-- ===== src/Tunnel/Update.antt =====
-- `VncTunnel::processFramebufferUpdate`: the announced count, the rectangles, and the LastRect that
-- makes up for those left out.
pub mod Rounds
pub mod Framing
use vncmanager.Base.{
  ℕ, zero, suc, ◌+◌, ◌-◌, Bool, true, false, not, ltb, ◌&&◌, if◌then◌else◌, Action, ok, err, check,
  when, ◌>>=◌, ◌>>◌, too_many_rectangles, assertion,
}
use vncmanager.Rfb.Values.EncodingType
use vncmanager.Rfb.Messages.Server.{
  framebuffer_update_message, FramebufferUpdateRectangle, framebuffer_update_rectangle,
}
use vncmanager.Formatter.{recv, send}
use vncmanager.Tunnel.State.{Tunnel, on_client, on_server, client_supports_encoding}
use vncmanager.Tunnel.Rectangles.{Fate, passed, skipped, last, process_rectangle, send_desktop_name}

unfoldable pub count_extra_rectangles : Tunnel → ℕ
count_extra_rectangles t = if t.desktop_name_change_queued then 1 else 0

abbrev pub empty_rectangle : ℕ → FramebufferUpdateRectangle
empty_rectangle encoding = record {
  x_position = 0;
  y_position = 0;
  width = 0;
  height = 0;
  encoding_type = encoding;
}

unfoldable pub send_extra_rectangles : Action Tunnel (Unit {0})
unfolding send_desktop_name
send_extra_rectangles t =
    if t.desktop_name_change_queued
    then (send_desktop_name (empty_rectangle EncodingType.desktop_name)
        (record t { desktop_name_change_queued = false }))
    else ok tt t

unfoldable pub send_last_rectangle : Action Tunnel (Unit {0})
unfolding send
send_last_rectangle =
    on_client (send framebuffer_update_rectangle (empty_rectangle EncodingType.last_rect))

abbrev pub max_rectangles : ℕ
max_rectangles = 65535

-- What the loop leaves in `mustUseLastRect` and `lastRectReceived`.
pub record Flags : Type 0 where
  pub must_use_last_rect : Bool
  pub last_rect_received : Bool

unfoldable pub rectangle : Action Tunnel Fate
unfolding recv
rectangle = do r ← on_server (recv framebuffer_update_rectangle); process_rectangle r

-- `for (int i = 0; i < numberOfRectangles && !lastRectReceived; i++)`, with the rounds left.
unfoldable pub rectangles : ℕ → Bool → Action Tunnel Flags
unfolding rectangle
rectangles zero must t = ok (record { must_use_last_rect = must; last_rect_received = false }) t
rectangles (suc n) must t = elim (rectangle t) [
  | ok fate t' ↦ elim fate [
    | passed ↦ rectangles n must t'
    | skipped ↦ rectangles n true t'
    | last ↦ ok (record { must_use_last_rect = must; last_rect_received = true }) t'
  ]
  | err e t' ↦ err e t'
]

-- The count that is announced, and whether a LastRect has to end the update.
unfoldable pub announce : ℕ → Action Tunnel (ℕ × Bool)
unfolding count_extra_rectangles
announce n t =
    let extra = count_extra_rectangles t in
    if ltb (max_rectangles - extra) n
    then (if client_supports_encoding EncodingType.last_rect t
        then ok (max_rectangles, true) t
        else err too_many_rectangles t)
    else ok (n + extra, false) t

unfoldable pub finish : Flags → Action Tunnel (Unit {0})
unfolding send_last_rectangle
finish f t =
    if client_supports_encoding EncodingType.last_rect t
    then (when (f.must_use_last_rect && not f.last_rect_received) send_last_rectangle t)
    else (check (not f.must_use_last_rect) assertion t)

unfoldable pub process_framebuffer_update : Action Tunnel (Unit {0})
unfolding recv send announce send_extra_rectangles rectangles finish
process_framebuffer_update = do
  message ← on_server (recv framebuffer_update_message)
  (count, must) ← announce message.number_of_rectangles
  on_client (send framebuffer_update_message (record message { number_of_rectangles = count }))
  send_extra_rectangles
  flags ← rectangles message.number_of_rectangles must
  finish flags
