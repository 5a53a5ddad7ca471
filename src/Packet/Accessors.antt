-- ===== src/Packet/Accessors.antt =====
-- Each accessor of packet/packet.go on what `Encode` wrote.
use lod.Prelude.{
  ℕ, ◌+◌, ◌-◌, ◌%◌, ◌^◌, ◌<◌, List, [], ◌∷◌, ◌++◌, length, take, drop, true, ok, length-append, ◌≡◌,
  sym, ap, ◌∙◌, arith, take-append, drop-append, All, le→not_ltb, take-append-drop, length-drop,
}
use lod.Prelude.Text.{text_eq_refl}
use lod.Prelude.Dict.{IsDict}
use lod.Packet.{
  Headers, put_uint32, encode, validate, len_headers, tile_data_size, tile_data, headers,
}
use lod.Packet.Layout.{
  fields, body, encode-body, slice_between, slice_end, uint32-put_uint32, length-put_uint32,
}
use lod.Packet.Fields.{IsShort, headers_loop-fields}
use mathlib.Core.List.{append_assoc}

module _ (sum256 : List ℕ → List ℕ) (sized : (b : List ℕ) → length (sum256 b) ≡ 32) where
  -- A checksum in front of its text validates.
  pub validate-checksum : (b : List ℕ) → validate sum256 (sum256 b ++ b) ≡ true
  unfolding validate
  validate-checksum b =
      let whole : take 32 (sum256 b ++ b) ≡ sum256 b =
        ap (λ (n : ℕ). take n (sum256 b ++ b)) (sym (sized b)) ∙ take-append (sum256 b) b in
      let rest : drop 32 (sum256 b ++ b) ≡ b =
        ap (λ (n : ℕ). drop n (sum256 b ++ b)) (sym (sized b)) ∙ drop-append (sum256 b) b in
      rw
        (
          le→not_ltb (length (sum256 b ++ b)) 32 (omega (arith, length-append (sum256 b) b, sized)),
          rest,
          whole,
        )
        (text_eq_refl (sum256 b))

  -- `Validate` accepts every packet that `Encode` returns, whatever the tile and the headers are.
  pub validate-encode :
      (tile : List ℕ) (hs : Headers) → validate sum256 (encode sum256 tile hs) ≡ true
  validate-encode tile hs = rw (encode-body sum256 sized tile hs) (validate-checksum (body tile hs))

  module _ (tile : List ℕ) (hs : Headers) where
    -- The checksum and the size, which stand before the count.
    abbrev prefix : List ℕ
    prefix = sum256 (body tile hs) ++ put_uint32 (length tile)

    abbrev count : List ℕ
    count = (length hs % 2 ^ 8) ∷ []

    length-prefix : length prefix ≡ 36
    length-prefix = omega (
      arith,
      length-append (sum256 (body tile hs)) (put_uint32 (length tile)),
      sized (body tile hs),
      length-put_uint32 (length tile),
    )

    encode-prefix : encode sum256 tile hs ≡ prefix ++ (count ++ (fields hs ++ tile))
    encode-prefix =
        encode-body sum256 sized tile hs
        ∙ (unfold body in sym (append_assoc (sum256 (body tile hs)) _ _))

    -- With checksums of 32 bytes, `LenHeaders` of an encoded packet is the number of headers modulo
    -- 256.
    pub len_headers-encode : len_headers (encode sum256 tile hs) ≡ ok (length hs % 2 ^ 8)
    unfolding len_headers
    len_headers-encode = rw (
      encode-prefix,
      slice_between prefix count (fields hs ++ tile) 36 37 (sym length-prefix)
          (omega (arith, length-prefix)),
    )

    -- The size field holds the length of the tile modulo 2 ^ 32.
    pub tile_data_size-encode : tile_data_size (encode sum256 tile hs) ≡ ok (length tile % 2 ^ 32)
    unfolding tile_data_size body
    tile_data_size-encode = rw (
      encode-body sum256 sized tile hs,
      slice_between (sum256 (body tile hs)) (put_uint32 (length tile)) _ 32 36
          (sym (sized (body tile hs)))
          (omega (arith, sized (body tile hs), length-put_uint32 (length tile))),
      uint32-put_uint32 (length tile),
    )

    -- Everything before the last `length tile % 2 ^ 32` bytes of the tile.
    abbrev cut : ℕ
    cut = length tile - length tile % 2 ^ 32

    encode-cut :
        encode sum256 tile hs ≡ (prefix ++ (count ++ (fields hs ++ take cut tile))) ++ drop cut tile
    encode-cut =
        encode-prefix
        ∙ ap (λ (t : List ℕ). prefix ++ (count ++ (fields hs ++ t)))
            (sym (take-append-drop cut tile))
        ∙ simp append_assoc

    -- With checksums of 32 bytes, `TileData` of an encoded packet is the last
    -- `length tile % 2 ^ 32` bytes of the tile.
    pub tile_data-encode :
        tile_data (encode sum256 tile hs) ≡ ok (drop (length tile - length tile % 2 ^ 32) tile)
    unfolding tile_data
    tile_data-encode =
        let front = prefix ++ (count ++ (fields hs ++ take cut tile)) in
        let whole : length (encode sum256 tile hs) ≡ length front + length tile % 2 ^ 32 =
          ap length encode-cut
          ∙ omega (arith, length-append front (drop cut tile), length-drop cut tile) in
        rw (
          tile_data_size-encode,
          whole,
          le→not_ltb (length front + length tile % 2 ^ 32) (length tile % 2 ^ 32) (omega arith),
          encode-cut,
          slice_end front (drop cut tile)
              (length front + length tile % 2 ^ 32 - length tile % 2 ^ 32)
              (length front + length tile % 2 ^ 32) (omega arith)
              (omega (arith, length-drop cut tile)),
        )

    -- The headers come back: the map that was given, in the order in which it was written.
    pub headers-encode :
        IsDict hs → All IsShort hs → length hs < 2 ^ 8 → headers (encode sum256 tile hs) ≡ ok hs
    unfolding headers
    headers-encode d short few =
        let front = prefix ++ count in
        let small : length hs % 2 ^ 8 ≡ length hs = omega arith in
        let start : length front ≡ 37 = omega (arith, length-append prefix count, length-prefix) in
        let split : encode sum256 tile hs ≡ front ++ (fields hs ++ tile) =
          encode-prefix ∙ sym (append_assoc prefix count _) in
        rw (len_headers-encode, small, split, ← start, headers_loop-fields hs front tile [] d short)
