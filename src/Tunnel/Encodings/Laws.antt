-- ===== src/Tunnel/Encodings/Laws.antt =====
-- What a client's SetEncodings leaves: which encodings the tunnel remembers, and which it asks the
-- server for.
use vncmanager.Base.{
  ℕ, ◌^◌, ◌-◌, ◌≡◌, refl, ap, arith, Bool, true, false, not, List, [], ◌∷◌, ◌++◌, contains, leb,
  ◌==◌, ◌&&◌, ◌||◌,
}
use vncmanager.Rfb.Values.EncodingType
use vncmanager.Tunnel.Encodings.{
  Accepted, insert_encoding, is_known, is_jpeg_quality, filter_encoding, filter_encodings,
  accepted_encodings,
}

-- What the loop's tests let through.
passes : ℕ → Bool
passes e = is_known e || e == EncodingType.tight || is_jpeg_quality e

-- What they let through to the server.
passes_for : Bool → ℕ → Bool
unfolding passes
passes_for disabled e = passes e && not (disabled && e == EncodingType.tight)

contains-append_one :
    (es : List ℕ) (e k : ℕ) → contains (es ++ (e ∷ [])) k ≡ contains es k || e == k
contains-append_one [] e k = ground arith
contains-append_one (x ∷ es) e k = ground (arith, contains-append_one es e k)

contains-insert :
    (es : List ℕ) (e k : ℕ) → contains (insert_encoding e es) k ≡ contains es k || e == k
contains-insert es e k = ground (arith, contains-append_one es e k)

passes-eq : (e k : ℕ) → (e == k) ≡ true → passes e ≡ passes k
passes-eq e k h = ap passes (ground arith)

filter_encoding-client :
    (d : Bool) (e k : ℕ) (a : Accepted)
    → contains (filter_encoding d e a).by_client k ≡ contains a.by_client k || (e == k && passes e)
unfolding filter_encoding passes
filter_encoding-client d e k a =
    ground
      (arith, contains-insert a.by_client e k, contains-insert (insert_encoding e a.by_client) e k)

tight_alone :
    (e : ℕ) → (e == EncodingType.tight) ≡ true → (is_known e ≡ false) × (is_jpeg_quality e ≡ false)
unfolding is_known is_jpeg_quality
tight_alone e h = ground arith

filter_encoding-server :
    (d : Bool) (e k : ℕ) (a : Accepted)
    → contains (filter_encoding d e a).for_server k
      ≡ contains a.for_server k || (e == k && passes_for d e)
unfolding filter_encoding passes_for
filter_encoding-server d e k a = ground (
  arith,
  tight_alone e,
  contains-append_one a.for_server e k,
  contains-append_one (a.for_server ++ (e ∷ [])) e k,
)

-- One element more.
or_step : (x y z w : Bool) → (x || y) || z ≡ x || (y || z)
or_step true y z w = refl
or_step false y z w = refl

client_element :
    (e k : ℕ) (es : List ℕ)
    → (e == k && passes e) || (contains es k && passes k) ≡ contains (e ∷ es) k && passes k
client_element e k es = ground (arith, passes-eq e k)

passes_for-eq : (d : Bool) (e k : ℕ) → (e == k) ≡ true → passes_for d e ≡ passes_for d k
passes_for-eq d e k h = ap (passes_for d) (ground arith)

server_element :
    (d : Bool) (e k : ℕ) (es : List ℕ)
    → (e == k && passes_for d e) || (contains es k && passes_for d k)
      ≡ contains (e ∷ es) k && passes_for d k
server_element d e k es = ground (arith, passes_for-eq d e k)

filter_encodings-client :
    (d : Bool) (es : List ℕ) (k : ℕ) (a : Accepted)
    → contains (filter_encodings d es a).by_client k
      ≡ contains a.by_client k || (contains es k && passes k)
unfolding filter_encodings
filter_encodings-client d [] k a = ground arith
filter_encodings-client d (e ∷ es) k a = ground (
  arith,
  filter_encodings-client d es k (filter_encoding d e a),
  filter_encoding-client d e k a,
  client_element e k es,
)

filter_encodings-server :
    (d : Bool) (es : List ℕ) (k : ℕ) (a : Accepted)
    → contains (filter_encodings d es a).for_server k
      ≡ contains a.for_server k || (contains es k && passes_for d k)
unfolding filter_encodings
filter_encodings-server d [] k a = ground arith
filter_encodings-server d (e ∷ es) k a = ground (
  arith,
  filter_encodings-server d es k (filter_encoding d e a),
  filter_encoding-server d e k a,
  server_element d e k es,
)

abbrev nothing : Accepted
nothing = record { by_client = []; for_server = [] }

desktop_name_requested : (d : Bool) → passes_for d EncodingType.desktop_name ≡ true
unfolding passes_for is_known
desktop_name_requested true = refl
desktop_name_requested false = refl

-- The encodings that the program can carry: a list, and the range of the JPEG qualities.
abbrev pub carried_encodings : List ℕ
carried_encodings =
    EncodingType.raw ∷ EncodingType.copy_rect ∷ EncodingType.rre ∷ EncodingType.tight
    ∷ EncodingType.desktop_size ∷ EncodingType.last_rect ∷ EncodingType.cursor
    ∷ EncodingType.x_cursor ∷ EncodingType.desktop_name ∷ EncodingType.extended_desktop_size ∷ []

abbrev pub is_supported : ℕ → Bool
is_supported k = contains carried_encodings k || (leb (2 ^ 32 - 32) k && leb k (2 ^ 32 - 23))

-- Those that it asks a server for: Tight only where it is enabled.
abbrev pub is_requested : Bool → ℕ → Bool
is_requested disabled k = is_supported k && not (disabled && k == EncodingType.tight)

passes_lem : (k : ℕ) → passes k ≡ is_supported k
unfolding passes is_known is_jpeg_quality
passes_lem k = ground arith

accepted_passes :
    (d : Bool) (es : List ℕ) (k : ℕ)
    → (contains (accepted_encodings d es).by_client k ≡ contains es k && passes k)
      × (contains (accepted_encodings d es).for_server k
          ≡ (contains es k && (passes k && not (d && k == EncodingType.tight)))
            || EncodingType.desktop_name == k)
unfolding accepted_encodings passes_for
accepted_passes d es k = (
  ground (arith, filter_encodings-client d es k nothing),
  ground (
    arith,
    filter_encodings-client d es EncodingType.desktop_name nothing,
    filter_encodings-server d es k nothing,
    filter_encodings-server d es EncodingType.desktop_name nothing,
    contains-append_one (filter_encodings d es nothing).for_server EncodingType.desktop_name k,
    desktop_name_requested d,
  ),
)

-- The tunnel remembers exactly the supported encodings of the client's list, and asks its server
-- exactly for those, less Tight while Tight is disabled, and always for DesktopName.
pub accepted_encodings_lem :
    (d : Bool) (es : List ℕ) (k : ℕ)
    → (contains (accepted_encodings d es).by_client k ≡ contains es k && is_supported k)
      × (contains (accepted_encodings d es).for_server k
          ≡ (contains es k && is_requested d k) || EncodingType.desktop_name == k)
accepted_encodings_lem d es k = rw (← passes_lem k) (accepted_passes d es k)
