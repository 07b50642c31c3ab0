-- ===== src/Rfb/Values/ClientMessageType.antt =====
-- enum class ClientMessageType.
use vncmanager.Base.{ℕ}

abbrev pub set_pixel_format : ℕ
set_pixel_format = 0

abbrev pub set_encodings : ℕ
set_encodings = 2

abbrev pub framebuffer_update_request : ℕ
framebuffer_update_request = 3

abbrev pub key_event : ℕ
key_event = 4

abbrev pub pointer_event : ℕ
pointer_event = 5

abbrev pub client_cut_text : ℕ
client_cut_text = 6

abbrev pub set_desktop_size : ℕ
set_desktop_size = 251
