-- ===== src/Rfb/Values/ServerMessageType.antt =====
-- enum class ServerMessageType.
use vncmanager.Base.{ℕ}

abbrev pub framebuffer_update : ℕ
framebuffer_update = 0

abbrev pub set_colour_map_entries : ℕ
set_colour_map_entries = 1

abbrev pub bell : ℕ
bell = 2

abbrev pub server_cut_text : ℕ
server_cut_text = 3
