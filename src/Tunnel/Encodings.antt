-- ===== src/Tunnel/Encodings.antt =====
-- The filter of `VncTunnel::processSetEncodings`.
pub mod Laws
use vncmanager.Base.{
  ℕ, Bool, true, false, List, [], ◌∷◌, ◌++◌, contains, leb, ◌==◌, ◌&&◌, ◌||◌, if◌then◌else◌,
}
use vncmanager.Rfb.Values.EncodingType

-- The two lists that the loop fills.
pub record Accepted : Type 0 where
  pub by_client : List ℕ
  pub for_server : List ℕ

-- `std::set::insert`
abbrev pub insert_encoding : ℕ → List ℕ → List ℕ
insert_encoding e es = if contains es e then es else es ++ (e ∷ [])

-- The cases of the switch but Tight.
unfoldable pub is_known : ℕ → Bool
is_known e =
    e == EncodingType.raw
    || e == EncodingType.copy_rect
    || e == EncodingType.rre
    || e == EncodingType.desktop_size
    || e == EncodingType.last_rect
    || e == EncodingType.cursor
    || e == EncodingType.x_cursor
    || e == EncodingType.desktop_name
    || e == EncodingType.extended_desktop_size

-- Between two negative numbers the order of the patterns is that of the numbers.
unfoldable pub is_jpeg_quality : ℕ → Bool
is_jpeg_quality e =
    leb EncodingType.jpeg_quality_lowest e && leb e EncodingType.jpeg_quality_highest

abbrev pub accept : ℕ → Accepted → Accepted
accept e a = record {
  by_client = insert_encoding e a.by_client;
  for_server = a.for_server ++ (e ∷ []);
}

-- The first flag is `m_tightEncodingDisabled`.
unfoldable pub filter_switch : Bool → ℕ → Accepted → Accepted
filter_switch disabled e a =
    if is_known e
    then accept e a
    else (if e == EncodingType.tight
        then (if disabled
            then record a { by_client = insert_encoding e a.by_client }
            else accept e a)
        else a)

unfoldable pub filter_encoding : Bool → ℕ → Accepted → Accepted
unfolding filter_switch
filter_encoding disabled e a =
    let a' = filter_switch disabled e a in if is_jpeg_quality e then accept e a' else a'

unfoldable pub filter_encodings : Bool → List ℕ → Accepted → Accepted
unfolding filter_encoding
filter_encodings disabled [] a = a
filter_encodings disabled (e ∷ es) a = filter_encodings disabled es (filter_encoding disabled e a)

-- The whole loop, and the DesktopName that is always asked for.
unfoldable pub accepted_encodings : Bool → List ℕ → Accepted
unfolding filter_encodings
accepted_encodings disabled es =
    let a = filter_encodings disabled es (record { by_client = []; for_server = [] }) in
    if contains a.by_client EncodingType.desktop_name
    then a
    else record a { for_server = a.for_server ++ (EncodingType.desktop_name ∷ []) }
