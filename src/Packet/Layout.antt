-- ===== src/Packet/Layout.antt =====
-- Where the parts of an encoded packet stand.
use lod.Prelude.{
  ℕ, ◌+◌, ◌-◌, ◌%◌, ◌^◌, ◌<◌, List, [], ◌∷◌, ◌++◌, length, take, replicate, ok, length-append, ◌≡◌,
  refl, sym, ap, ◌∙◌, arith, take-append, drop-append,
}
use lod.Packet.{
  Headers, put_uint16, put_uint32, uint16, uint32, slice, header_field, append_headers,
  set_checksum, encode,
}
use mathlib.Core.List.{append-nil, append_assoc}

-- The bytes that the header loop writes.
unfoldable pub fields : Headers → List ℕ
fields [] = []
fields ((key, val) ∷ hs) = header_field key val ++ fields hs

pub append_headers-fields :
    (packet : List ℕ) (hs : Headers) → append_headers packet hs ≡ packet ++ fields hs
unfolding append_headers fields
append_headers-fields packet [] = sym (append-nil packet)
append_headers-fields packet ((key, val) ∷ hs) =
    append_headers-fields (packet ++ header_field key val) hs
    ∙ append_assoc packet (header_field key val) (fields hs)

-- What stands behind the checksum.
unfoldable pub body : List ℕ → Headers → List ℕ
body tile hs = put_uint32 (length tile) ++ (length hs % 2 ^ 8) ∷ (fields hs ++ tile)

pub set_checksum-append :
    (cs old rest : List ℕ) → length cs ≡ length old → set_checksum cs (old ++ rest) ≡ cs ++ rest
unfolding set_checksum
set_checksum-append [] [] rest h = refl
set_checksum-append [] (b ∷ old) rest h = absurd (omega arith)
set_checksum-append (c ∷ cs) [] rest h = absurd (omega arith)
set_checksum-append (c ∷ cs) (b ∷ old) rest h =
    ap (◌∷◌ c) (set_checksum-append cs old rest (omega arith))

module _ (sum256 : List ℕ → List ℕ) (sized : (b : List ℕ) → length (sum256 b) ≡ 32) where
  -- An encoded packet is the checksum of its body, and the body.
  pub encode-body :
      (tile : List ℕ) (hs : Headers) → encode sum256 tile hs ≡ sum256 (body tile hs) ++ body tile hs
  unfolding encode body put_uint32
  encode-body tile hs =
      rw (append_headers-fields, append_assoc)
        (set_checksum-append (sum256 (body tile hs)) (replicate 32 0) (body tile hs) (sized _))

take-append_eq : (n : ℕ) (mid back : List ℕ) → n ≡ length mid → take n (mid ++ back) ≡ mid
take-append_eq n mid back h = rw h (take-append mid back)

-- A slice that stands between `front` and `back`.
pub slice_between :
    (front mid back : List ℕ) (from to : ℕ)
    → from ≡ length front
    → to ≡ length front + length mid
    → slice from to (front ++ (mid ++ back)) ≡ ok mid
unfolding slice
slice_between front mid back from to hf ht =
    rw (hf, ht, drop-append front (mid ++ back))
      (ground (
        arith,
        length-append front (mid ++ back),
        length-append mid back,
        take-append_eq (length front + length mid - length front) mid back (omega arith),
      ))

-- The same at the end of the packet.
pub slice_end :
    (front mid : List ℕ) (from to : ℕ)
    → from ≡ length front
    → to ≡ length front + length mid
    → slice from to (front ++ mid) ≡ ok mid
slice_end front mid from to hf ht =
    ap (λ (m : List ℕ). slice from to (front ++ m)) (sym (append-nil mid))
    ∙ slice_between front mid [] from to hf ht

pub length-put_uint16 : (n : ℕ) → length (put_uint16 n) ≡ 2
unfolding put_uint16
length-put_uint16 n = refl

pub length-put_uint32 : (n : ℕ) → length (put_uint32 n) ≡ 4
unfolding put_uint32
length-put_uint32 n = refl

-- Little-endian numbers are read back as they were written.
pub uint16-put_uint16 : (n : ℕ) → n < 2 ^ 16 → uint16 (put_uint16 n) ≡ ok n
unfolding uint16 put_uint16
uint16-put_uint16 n h = ap ok (omega arith)

pub uint32-put_uint32 : (n : ℕ) → uint32 (put_uint32 n) ≡ ok (n % 2 ^ 32)
unfolding uint32 put_uint32
uint32-put_uint32 n = ap ok (omega arith)
