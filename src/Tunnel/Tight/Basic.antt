-- ===== src/Tunnel/Tight/Basic.antt =====
-- Tight rectangles with the basic compression.
use vncmanager.Base.{
  ℕ, ◌+◌, ◌*◌, ◌/◌, ◌%◌, ◌^◌, ◌<◌, ◌≤◌, ◌≡◌, ◌≢◌, ap, ◌∙◌, arith, true, false, List, [], ◌∷◌, ◌++◌,
  append_assoc, length, bind_ok, Action, ok, gets, pure, check, ◌>>=◌, ◌>>◌, if◌then◌else◌, leb,
  ltb, ◌==◌, overflow,
}
use vncmanager.Rfb.Wire.{u8}
use vncmanager.Rfb.Messages.Server.{FramebufferUpdateRectangle}
use vncmanager.Rfb.Tight.{
  TightCompressionControl, read_filter_id, tight_pixel_size, copy_filter, palette_filter,
  tight_min_size_to_compress,
}
use vncmanager.Formatter.{forward, forward_directly}
use vncmanager.Tunnel.State.{Tunnel, to_client}
use vncmanager.Tunnel.Tight.{
  int_limit, forward_tight_variable_length_data, read_filter, filtered_bpp, tight_data_size,
  basic_compression,
}
use vncmanager.Tunnel.Rectangles.Relay.{server_sends, client_gets, client_gets-append, relay_body}
use vncmanager.Tunnel.Tight.Length.{compact, pass_byte, variable_length}

-- The pixels of so many bits: bare when they are few, and else compressed, with their length.
pub data IsPixels (bits : ℕ) (r : FramebufferUpdateRectangle) : List ℕ → Type 0 where
  bare :
      (bs : List ℕ)
      → tight_data_size bits r < 12
      → length bs ≡ tight_data_size bits r
      → IsPixels bits r bs
  compressed :
      (k : ℕ) (bs : List ℕ)
      → 12 ≤ tight_data_size bits r
      → tight_data_size bits r < int_limit
      → k < 2 ^ 22
      → length bs ≡ k
      → IsPixels bits r (compact k ++ bs)

abbrev pub palette_bits : ℕ → ℕ
palette_bits p = if leb (p + 1) 2 then 1 else 8

-- What follows the control byte, with pixels of `bpp` bits and colours of three bytes in a palette.
pub data IsBasic (bpp : ℕ) (r : FramebufferUpdateRectangle) (control : ℕ) : List ℕ → Type 0 where
  unfiltered : (bs : List ℕ) → control / 64 ≡ 0 → IsPixels bpp r bs → IsBasic bpp r control bs
  filtered :
      (f : ℕ) (bs : List ℕ)
      → control / 64 ≡ 1
      → f ≢ palette_filter
      → IsPixels bpp r bs
      → IsBasic bpp r control (f ∷ bs)
  palette :
      (p : ℕ) (colours bs : List ℕ)
      → control / 64 ≡ 1
      → length colours ≡ 3 * (p + 1)
      → IsPixels (palette_bits p) r bs
      → IsBasic bpp r control (1 ∷ p ∷ (colours ++ bs))

module _ (r : FramebufferUpdateRectangle) where
  -- The pixels, once the size of one is known.
  abbrev pixels : ℕ → Action Tunnel (Unit {0})
  pixels bpp =
      check (ltb (tight_data_size bpp r) int_limit) overflow
      >> (if ltb (tight_data_size bpp r) tight_min_size_to_compress
          then to_client (forward_directly (tight_data_size bpp r))
          else forward_tight_variable_length_data)

  abbrev pixels_of : ℕ → Action Tunnel (Unit {0})
  pixels_of filter =
      gets (λ t. t.pixel_format.bits_per_pixel) >>= λ bits. filtered_bpp bits filter >>= pixels

  pixels_lem :
      (bpp : ℕ) (bs rest : List ℕ) (t : Tunnel)
      → IsPixels bpp r bs
      → pixels bpp (server_sends [] (bs ++ rest) t)
        ≡ ok tt (server_sends [] rest (client_gets bs t))
  pixels_lem bpp _ rest t (bare bs few h) =
      let fits : ltb (tight_data_size bpp r) int_limit ≡ true = ground arith in
      let short : ltb (tight_data_size bpp r) tight_min_size_to_compress ≡ true = ground arith in
      rw (fits, short) (relay_body (tight_data_size bpp r) bs rest t h)
  pixels_lem bpp _ rest t (compressed k bs many small fits h) =
      let fits' : ltb (tight_data_size bpp r) int_limit ≡ true = ground arith in
      let long : ltb (tight_data_size bpp r) tight_min_size_to_compress ≡ false = ground arith in
      rw (fits', long) (variable_length k bs rest t fits h)

  plain_lem :
      (filter : ℕ) (bs rest : List ℕ) (t : Tunnel)
      → filter ≢ palette_filter
      → IsPixels t.pixel_format.bits_per_pixel r bs
      → pixels_of filter (server_sends [] (bs ++ rest) t)
        ≡ ok tt (server_sends [] rest (client_gets bs t))
  unfolding filtered_bpp
  plain_lem filter bs rest t other p =
      let no_palette : (filter == palette_filter) ≡ false = ground arith in
      rw no_palette (pixels_lem t.pixel_format.bits_per_pixel bs rest t p)

  abbrev colours_of : ℕ → Action Tunnel ℕ
  colours_of p = to_client (forward_directly (tight_pixel_size * (p + 1))) >> pure (palette_bits p)

  palette_lem :
      (p : ℕ) (colours bs rest : List ℕ) (t : Tunnel)
      → length colours ≡ 3 * (p + 1)
      → IsPixels (palette_bits p) r bs
      → pixels_of palette_filter (server_sends [] (p ∷ (colours ++ (bs ++ rest))) t)
        ≡ ok tt (server_sends [] rest (client_gets (p ∷ (colours ++ bs)) t))
  unfolding filtered_bpp
  palette_lem p colours bs rest t h q =
      let t1 : Tunnel = client_gets (p ∷ []) t in
      bind_ok (to_client (forward u8) >>= colours_of) pixels
        (server_sends [] (p ∷ (colours ++ (bs ++ rest))) t)
        (bind_ok (to_client (forward u8)) colours_of
            (server_sends [] (p ∷ (colours ++ (bs ++ rest))) t)
            (pass_byte p (colours ++ (bs ++ rest)) t)
          ∙ bind_ok (to_client (forward_directly (tight_pixel_size * (p + 1))))
              (λ _. pure (palette_bits p)) (server_sends [] (colours ++ (bs ++ rest)) t1)
              (relay_body (3 * (p + 1)) colours (bs ++ rest) t1 h))
      ∙ pixels_lem (palette_bits p) bs rest (client_gets colours t1) q
      ∙ ap (λ u. ok tt (server_sends [] rest u))
          (ap (client_gets bs) (client_gets-append (p ∷ []) colours t)
            ∙ client_gets-append (p ∷ colours) bs t)

  -- A picture with the basic compression is handed on as it came.
  pub basic_compression_lem :
      (b : ℕ) (c : TightCompressionControl) (body rest : List ℕ) (t : Tunnel)
      → c.rest ≡ b / 16
      → IsBasic t.pixel_format.bits_per_pixel r b body
      → basic_compression r c (server_sends [] (body ++ rest) t)
        ≡ ok tt (server_sends [] rest (client_gets body t))
  unfolding basic_compression read_filter read_filter_id
  basic_compression_lem b c _ rest t e (unfiltered bs kind p) =
      let none_read : (c.rest / 4 % 2 == 0) ≡ true = ground (arith, e, kind) in
      rw none_read (plain_lem copy_filter bs rest t (omega arith) p)
  basic_compression_lem b c _ rest t e (filtered f bs kind other p) =
      let is_read : (c.rest / 4 % 2 == 0) ≡ false = ground (arith, e, kind) in
      rw is_read (
        bind_ok (to_client (forward u8)) pixels_of (server_sends [] (f ∷ (bs ++ rest)) t)
          (pass_byte f (bs ++ rest) t)
        ∙ plain_lem f bs rest (client_gets (f ∷ []) t) other p
        ∙ ap (λ u. ok tt (server_sends [] rest u)) (client_gets-append (f ∷ []) bs t))
  basic_compression_lem b c _ rest t e (palette p colours bs kind h q) =
      let is_read : (c.rest / 4 % 2 == 0) ≡ false = ground (arith, e, kind) in
      rw is_read (
        ap (λ l. (to_client (forward u8) >>= pixels_of) (server_sends [] (1 ∷ p ∷ l) t))
          (append_assoc colours bs rest)
        ∙ bind_ok (to_client (forward u8)) pixels_of
            (server_sends [] (1 ∷ p ∷ (colours ++ (bs ++ rest))) t)
            (pass_byte 1 (p ∷ (colours ++ (bs ++ rest))) t)
        ∙ palette_lem p colours bs rest (client_gets (1 ∷ []) t) h q
        ∙ ap (λ u. ok tt (server_sends [] rest u))
            (client_gets-append (1 ∷ []) (p ∷ (colours ++ bs)) t))
