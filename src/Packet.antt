-- ===== src/Packet.antt =====
-- packet/packet.go, packet/encode.go and packet/errors.go: the tile packet, a binary container
-- for a tile and its headers.
--
-- A byte slice is a list of numbers below 256. Its capacity is its length, as it is for what the
-- two cache clients return, so that a slice expression past the end panics. A `map[string]string`
-- is the list of its entries in the order in which Go's `range` happens to visit them.
-- `crypto/sha256.Sum256` is the parameter `sum256`.
pub mod Layout
pub mod Fields
pub mod Accessors
pub mod Sizes
pub mod RoundTrip
pub mod Validation
mod Runs
use lod.Prelude.{
  ℕ, zero, suc, ◌+◌, ◌-◌, ◌*◌, ◌/◌, ◌%◌, ◌^◌, List, [], ◌∷◌, ◌++◌, Bool, true, false, ltb, leb,
  ◌&&◌, if◌then◌else◌, length, take, drop, replicate, Result, ok, err, panic, ◌>>=◌, ◌>>◌,
}
use lod.Prelude.Text.{Text, codes, text_eq}
use lod.Prelude.Dict.{insert}

abbrev pub TilePacket : Type 0
TilePacket = List ℕ

abbrev pub Headers : Type 0
Headers = List (Text × Text)

-- The errors of the package: ErrTilePacketValidate, and the one that `Decode` makes up.
pub data PacketError : Type 0 where
  tile_packet_validate : Text → PacketError
  checksum_match_failed : PacketError

-- The texts of the errors.
unfoldable pub packet_message : PacketError → Text
packet_message (tile_packet_validate key) =
    codes "cache: failed to validate tile packet at " ++ (key ++ codes ", invalidating")
packet_message checksum_match_failed = codes "checksum match failed, tile packet data corrupted"

-- `Raw`
unfoldable pub raw : TilePacket → List ℕ
raw t = t

-- `binary.LittleEndian.PutUint16` and `PutUint32`, behind the conversions to uint16 and uint32.
unfoldable pub put_uint16 : ℕ → List ℕ
put_uint16 n = let v = n % 2 ^ 16 in v % 256 ∷ v / 256 ∷ []

unfoldable pub put_uint32 : ℕ → List ℕ
put_uint32 n = let v = n % 2 ^ 32 in v % 256 ∷ v / 256 % 256 ∷ v / 65536 % 256 ∷ v / 16777216 ∷ []

-- `binary.LittleEndian.Uint16` and `Uint32`, which panic on a slice that is too short.
unfoldable pub uint16 : List ℕ → Result PacketError ℕ
uint16 (a ∷ b ∷ rest) = ok (a + 256 * b)
uint16 _ = panic

unfoldable pub uint32 : List ℕ → Result PacketError ℕ
uint32 (a ∷ b ∷ c ∷ d ∷ rest) = ok (a + 256 * b + 65536 * c + 16777216 * d)
uint32 _ = panic

-- `t[from:to]`
unfoldable pub slice : ℕ → ℕ → List ℕ → Result PacketError (List ℕ)
slice from to t =
    if leb from to && leb to (length t) then ok (take (to - from) (drop from t)) else panic

-- One round of the loop over the headers: what it appends for a key and its value.
unfoldable pub header_field : Text → Text → List ℕ
header_field key val = put_uint16 (length key) ++ (key ++ (put_uint16 (length val) ++ val))

unfoldable pub append_headers : List ℕ → Headers → List ℕ
append_headers packet [] = packet
append_headers packet ((key, val) ∷ headers) =
    append_headers (packet ++ header_field key val) headers

-- `for i := range computedChecksum { tilePacket[i] = computedChecksum[i] }`
unfoldable pub set_checksum : List ℕ → List ℕ → List ℕ
set_checksum [] packet = packet
set_checksum (c ∷ cs) [] = []
set_checksum (c ∷ cs) (b ∷ packet) = c ∷ set_checksum cs packet

module _ (sum256 : List ℕ → List ℕ) where
  unfoldable pub encode : List ℕ → Headers → TilePacket
  encode tile headers =
      let checksum : List ℕ = replicate 32 0 in
      let sized : List ℕ = checksum ++ put_uint32 (length tile) in
      let counted : List ℕ = sized ++ (length headers % 2 ^ 8) ∷ [] in
      let packet : List ℕ = append_headers counted headers ++ tile in
      set_checksum (sum256 (drop 32 packet)) packet

  unfoldable pub validate : TilePacket → Bool
  validate t = if ltb (length t) 32 then false else text_eq (sum256 (drop 32 t)) (take 32 t)

  unfoldable pub from_bytes : List ℕ → Text → Result PacketError TilePacket
  from_bytes t cache_key = if validate t then ok t else err (tile_packet_validate cache_key)

-- The length byte: `int(t[36:37][0])`.
abbrev pub first_byte : List ℕ → Result PacketError ℕ
first_byte (b ∷ rest) = ok b
first_byte [] = panic

unfoldable pub len_headers : TilePacket → Result PacketError ℕ
len_headers t = do count ← slice 36 37 t; first_byte count

unfoldable pub tile_data_size : TilePacket → Result PacketError ℕ
tile_data_size t = do size ← slice 32 36 t; uint32 size

-- `t[(len(t) - t.TileDataSize()):]`, which panics where the stored size is above the length.
unfoldable pub tile_data : TilePacket → Result PacketError (List ℕ)
tile_data t = do
  size ← tile_data_size t
  if ltb (length t) size then panic else slice (length t - size) (length t) t

-- One field of a header, a key or a value, and the offset behind it.
unfoldable pub read_field : ℕ → TilePacket → Result PacketError (Text × ℕ)
read_field offset t = do
  size ← slice offset (offset + 2) t
  len ← uint16 size
  field ← slice (offset + 2) (offset + 2 + len) t
  ok (field, offset + 2 + len)

-- The loop of `Headers`, by the rounds that are left.
unfoldable pub headers_loop : ℕ → ℕ → TilePacket → Headers → Result PacketError Headers
headers_loop zero offset t found = ok found
headers_loop (suc rounds) offset t found = do
  (key, offset') ← read_field offset t
  (val, offset'') ← read_field offset' t
  headers_loop rounds offset'' t (insert key val found)

unfoldable pub headers : TilePacket → Result PacketError Headers
headers t = do count ← len_headers t; headers_loop count 37 t []

module _ (sum256 : List ℕ → List ℕ) where
  unfoldable pub decode : TilePacket → Result PacketError (List ℕ × Headers)
  decode t = do
    if validate sum256 t then ok tt else err checksum_match_failed
    tile ← tile_data t
    found ← headers t
    ok (tile, found)
