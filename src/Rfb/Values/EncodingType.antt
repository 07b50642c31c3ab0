-- ===== src/Rfb/Values/EncodingType.antt =====
-- enum class EncodingType, as 32-bit patterns.
use vncmanager.Base.{ℕ, ◌-◌, ◌^◌}

abbrev pub raw : ℕ
raw = 0

abbrev pub copy_rect : ℕ
copy_rect = 1

abbrev pub rre : ℕ
rre = 2

abbrev pub tight : ℕ
tight = 7

abbrev pub jpeg_quality_lowest : ℕ
jpeg_quality_lowest = 2 ^ 32 - 32

abbrev pub jpeg_quality_highest : ℕ
jpeg_quality_highest = 2 ^ 32 - 23

abbrev pub desktop_size : ℕ
desktop_size = 2 ^ 32 - 223

abbrev pub last_rect : ℕ
last_rect = 2 ^ 32 - 224

abbrev pub cursor : ℕ
cursor = 2 ^ 32 - 239

abbrev pub x_cursor : ℕ
x_cursor = 2 ^ 32 - 240

abbrev pub desktop_name : ℕ
desktop_name = 2 ^ 32 - 307

abbrev pub extended_desktop_size : ℕ
extended_desktop_size = 2 ^ 32 - 308
