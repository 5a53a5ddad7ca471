-- ===== src/Packet/RoundTrip.antt =====
-- `Decode` after `Encode` (packet/packet.go, packet/encode.go).
use lod.Prelude.{ℕ, ◌-◌, ◌%◌, ◌^◌, ◌<◌, List, ◌≡◌, length, drop, All, ok, arith, ap, ◌∙◌}
use lod.Prelude.Text.{Text}
use lod.Prelude.Dict.{IsDict}
use lod.Packet.{Headers, encode, from_bytes, tile_data, decode}
use lod.Packet.Fields.{IsShort}
use lod.Packet.Accessors.{validate-encode, tile_data-encode, headers-encode}

-- What a packet can hold: a map of at most 255 headers, whose keys and values are shorter than
-- 64 KiB, and a tile shorter than 4 GiB.
pub record IsEncodable (tile : List ℕ) (hs : Headers) : Type 0 where
  pub dict : IsDict hs
  pub short : All IsShort hs
  pub few : length hs < 2 ^ 8
  pub sized : length tile < 2 ^ 32

module _ (sum256 : List ℕ → List ℕ) (sized : (b : List ℕ) → length (sum256 b) ≡ 32) where
  pub tile_data-encode_whole :
      (tile : List ℕ) (hs : Headers)
      → length tile < 2 ^ 32
      → tile_data (encode sum256 tile hs) ≡ ok tile
  tile_data-encode_whole tile hs h =
      let all : length tile - length tile % 2 ^ 32 ≡ 0 = omega arith in
      tile_data-encode sum256 sized tile hs ∙ ap (λ (n : ℕ). ok (drop n tile)) all

  -- With checksums of 32 bytes, and at most 255 headers, each once, with keys and values below
  -- 64 KiB, and a tile below 4 GiB: `Decode` returns the tile and the headers that `Encode` was given.
  pub decode-encode :
      (tile : List ℕ) (hs : Headers)
      → IsEncodable tile hs
      → decode sum256 (encode sum256 tile hs) ≡ ok (tile, hs)
  unfolding decode
  decode-encode tile hs h = rw (
    validate-encode sum256 sized tile hs,
    tile_data-encode_whole tile hs h.sized,
    headers-encode sum256 sized tile hs h.dict h.short h.few,
  )

  -- `FromBytes` takes the bytes of every encoded packet as they are, under any cache key.
  pub from_bytes-encode :
      (tile : List ℕ) (hs : Headers) (cache_key : Text)
      → from_bytes sum256 (encode sum256 tile hs) cache_key ≡ ok (encode sum256 tile hs)
  unfolding from_bytes
  from_bytes-encode tile hs cache_key = rw (validate-encode sum256 sized tile hs)
