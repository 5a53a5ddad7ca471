-- ===== src/Packet/Validation.antt =====
-- What `Validate` (packet/packet.go) accepts, and what it leaves to chance.
use lod.Prelude.{
  ℕ, suc, ◌+◌, ◌<◌, List, [], ◌∷◌, ◌++◌, ◌≡◌, ◌↔◌, refl, sym, ap, ◌∙◌, length, take, drop, true,
  false, Result, ok, err, panic, arith, Bool-cases, inl, inr, ◌≢◌, ◌>>=◌, zero, ◌-◌, length-append,
  take-append-drop,
}
use lod.Prelude.Text.{text_eq, text_eq_iff}
use lod.Prelude.Dict.{insert}
use lod.Packet.{
  TilePacket, PacketError, checksum_match_failed, validate, decode, tile_data, tile_data_size,
  slice, headers, len_headers, uint16, uint32, read_field, headers_loop, Headers, first_byte,
}
use lod.Packet.Accessors.{validate-checksum}

uint32-ne-err : (s : List ℕ) (e : PacketError) → uint32 s ≢ err e
unfolding uint32
uint32-ne-err (a ∷ b ∷ c ∷ d ∷ s) e = λ p. cc
uint32-ne-err _ e = λ p. cc

uint16-ne-err : (s : List ℕ) (e : PacketError) → uint16 s ≢ err e
unfolding uint16
uint16-ne-err (a ∷ b ∷ s) e = λ p. cc
uint16-ne-err _ e = λ p. cc

slice-ne-err : (from to : ℕ) (t : List ℕ) (e : PacketError) → slice from to t ≢ err e
unfolding slice
slice-ne-err from to t e = ground arith

>>=-ne-err {ℓ κ} :
    {A : Type ℓ} {B : Type κ} (m : Result PacketError A) (f : A → Result PacketError B)
    → ((e : PacketError) → m ≢ err e)
    → ((a : A) (e : PacketError) → f a ≢ err e)
    → (e : PacketError) → (m >>= f) ≢ err e
>>=-ne-err (ok a) f hm hf e = hf a e
>>=-ne-err (err e') f hm hf e = absurd (hm e' refl)
>>=-ne-err panic f hm hf e = λ p. cc

tile_data-ne-err : (t : TilePacket) (e : PacketError) → tile_data t ≢ err e
unfolding tile_data tile_data_size
tile_data-ne-err t =
    >>=-ne-err _ _ (>>=-ne-err _ _ (slice-ne-err 32 36 t) uint32-ne-err)
      (λ size e. ground (arith, slice-ne-err (length t - size) (length t) t e))

read_field-ne-err : (offset : ℕ) (t : TilePacket) (e : PacketError) → read_field offset t ≢ err e
unfolding read_field
read_field-ne-err offset t = >>=-ne-err _ _ (slice-ne-err offset (offset + 2) t) (λ size.
    >>=-ne-err _ _ (uint16-ne-err size)
      (λ n. >>=-ne-err _ _ (slice-ne-err (offset + 2) (offset + 2 + n) t) (λ f e p. cc)))

headers_loop-ne-err :
    (rounds offset : ℕ) (t : TilePacket) (found : Headers) (e : PacketError)
    → headers_loop rounds offset t found ≢ err e
unfolding headers_loop
headers_loop-ne-err zero offset t found e = λ p. cc
headers_loop-ne-err (suc rounds) offset t found e =
    >>=-ne-err _ _ (read_field-ne-err offset t)
      (λ (key, next).
        >>=-ne-err _ _ (read_field-ne-err next t)
          (λ (val, end). headers_loop-ne-err rounds end t (insert key val found)))
      e

headers-ne-err : (t : TilePacket) (e : PacketError) → headers t ≢ err e
unfolding headers len_headers
headers-ne-err t =
    >>=-ne-err _ _ (>>=-ne-err _ _ (slice-ne-err 36 37 t) first_byte-ne-err)
      (λ n. headers_loop-ne-err n 37 t [])
  where
    first_byte-ne-err : (s : List ℕ) (e : PacketError) → first_byte s ≢ err e
    first_byte-ne-err [] e = λ p. cc
    first_byte-ne-err (b ∷ s) e = λ p. cc

module _ (sum256 : List ℕ → List ℕ) (sized : (b : List ℕ) → length (sum256 b) ≡ 32) where
  -- With checksums of 32 bytes, `Validate` accepts exactly the packets that are the checksum of some
  -- bytes and those bytes.
  pub validate_iff :
      (t : TilePacket) → (validate sum256 t ≡ true) ↔ ((b : List ℕ) × (t ≡ sum256 b ++ b))
  unfolding validate
  validate_iff t = (into, λ (b, e). rw e (validate-checksum sum256 sized b))
    where
      into : validate sum256 t ≡ true → (b : List ℕ) × (t ≡ sum256 b ++ b)
      into h = elim (Bool-cases (text_eq (sum256 (drop 32 t)) (take 32 t))) [
        | inl same ↦ (
          drop 32 t,
          sym (take-append-drop 32 t)
              ∙ ap (λ (s : List ℕ). s ++ drop 32 t) (sym ((text_eq_iff _ _).0 same)),
        )
        | inr other ↦ ground arith
      ]

  -- With checksums of 32 bytes, `Decode` answers with its error exactly where `Validate` refuses.
  pub decode-eq-err_iff :
      (t : TilePacket) → (decode sum256 t ≡ err checksum_match_failed) ↔ (validate sum256 t ≡ false)
  unfolding decode
  decode-eq-err_iff t = elim (Bool-cases (validate sum256 t)) [
    | inl valid ↦ (λ e. absurd (read valid checksum_match_failed e), λ refused. absurd (cc))
    | inr refused ↦ (λ _. refused, λ _. rw refused)
  ]
    where
      read : validate sum256 t ≡ true → (e : PacketError) → decode sum256 t ≢ err e
      read valid = rw valid (
          >>=-ne-err _ _ (tile_data-ne-err t)
            (λ tile. >>=-ne-err _ _ (headers-ne-err t) (λ hs e p. cc)))

  -- With checksums of 32 bytes, `Validate` accepts fewer than five bytes behind their checksum, and
  -- `Decode` of that packet panics.
  pub decode_panics :
      (b : List ℕ)
      → length b < 5
      → (validate sum256 (sum256 b ++ b) ≡ true) × (decode sum256 (sum256 b ++ b) ≡ panic)
  decode_panics b h = (
    valid,
    unfold decode in rw valid (tile_then_panic (tile_data (sum256 b ++ b)) (tile_data-ne-err _)),
  )
    where
      valid : validate sum256 (sum256 b ++ b) ≡ true
      valid = validate-checksum sum256 sized b

      headers_panics : headers (sum256 b ++ b) ≡ panic
      headers_panics =
          unfold headers len_headers slice in ground (arith, length-append (sum256 b) b, sized b)

      both : List ℕ → Headers → Result PacketError (List ℕ × Headers)
      both tile found = ok (tile, found)

      tile_then_panic :
          (r : Result PacketError (List ℕ))
          → ((e : PacketError) → r ≢ err e)
          → (do tile ← r; found ← headers (sum256 b ++ b); both tile found) ≡ panic
      tile_then_panic (ok tile) n = rw headers_panics
      tile_then_panic (err e) n = absurd (n e refl)
      tile_then_panic panic n = refl
