-- ===== src/Packet/Runs.antt =====
-- Concrete packets, and the theorems on packets at concrete inputs. `toy_sum` stands for SHA-256: 32
-- copies of the sum of the bytes modulo 256.
use lod.Prelude.{
  ℕ, ◌+◌, ◌-◌, ◌%◌, ◌^◌, List, [], ◌∷◌, ◌++◌, length, drop, replicate, length-replicate, ◌≡◌, ◌↔◌,
  refl, true, false, ok, panic, arith,
}
use lod.Prelude.Text.{codes, text_eq}
use lod.Prelude.Dict.{lookup, insert}
use lod.Packet.{
  Headers, put_uint16, put_uint32, uint16, uint32, slice, header_field, append_headers,
  set_checksum, encode, validate, len_headers, tile_data_size, tile_data, read_field, headers_loop,
  headers, decode,
}
use lod.Packet.Accessors.{tile_data-encode}
use lod.Packet.RoundTrip.{IsEncodable, decode-encode}
use lod.Packet.Validation.{validate_iff, decode_panics}

byte_sum : List ℕ → ℕ
byte_sum [] = 0
byte_sum (b ∷ bs) = b + byte_sum bs

toy_sum : List ℕ → List ℕ
toy_sum bs = replicate 32 (byte_sum bs % 256)

toy_sum-sized : (bs : List ℕ) → length (toy_sum bs) ≡ 32
unfolding toy_sum
toy_sum-sized bs = length-replicate 32 (byte_sum bs % 256)

-- The functions of the packet format, for the runs below.
format : Unit {0}
unfolding put_uint16 put_uint32 uint16 uint32 slice header_field append_headers set_checksum encode
    validate len_headers tile_data_size tile_data read_field headers_loop headers decode lookup
    insert text_eq toy_sum byte_sum
format = tt

abbrev tile : List ℕ
tile = 26 ∷ 200 ∷ 0 ∷ []

abbrev two_headers : Headers
two_headers =
    (codes "Content-Type", codes "image/png") ∷ (codes "Content-Encoding", codes "gzip") ∷ []

decode_run : decode toy_sum (encode toy_sum tile two_headers) ≡ ok (tile, two_headers)
unfolding format
decode_run = refl

-- A flipped byte of the tile is noticed.
corrupted_run :
    validate toy_sum
      (set_checksum (toy_sum (drop 32 (encode toy_sum tile []))) (encode toy_sum (9 ∷ []) []))
    ≡ false
unfolding format
corrupted_run = refl

encodable : IsEncodable tile two_headers
unfolding lookup text_eq
encodable = record {
  dict = (refl, (refl, tt));
  short = omega arith;
  few = omega arith;
  sized = omega arith;
}

decode-encode_example : decode toy_sum (encode toy_sum tile two_headers) ≡ ok (tile, two_headers)
decode-encode_example = decode-encode toy_sum toy_sum-sized tile two_headers encodable

validate_iff_example :
    (validate toy_sum (encode toy_sum tile two_headers) ≡ true)
    ↔ ((b : List ℕ) × (encode toy_sum tile two_headers ≡ toy_sum b ++ b))
validate_iff_example = validate_iff toy_sum toy_sum-sized (encode toy_sum tile two_headers)

decode_panics_example :
    (validate toy_sum (toy_sum [] ++ []) ≡ true) × (decode toy_sum (toy_sum [] ++ []) ≡ panic)
decode_panics_example = decode_panics toy_sum toy_sum-sized [] (omega arith)

tile_data-encode_example :
    tile_data (encode toy_sum tile two_headers)
    ≡ ok (drop (length tile - length tile % 2 ^ 32) tile)
tile_data-encode_example = tile_data-encode toy_sum toy_sum-sized tile two_headers
