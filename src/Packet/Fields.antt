-- ===== src/Packet/Fields.antt =====
-- The loop of `Headers` (packet/packet.go) on what the loop of `Encode` wrote.
use lod.Prelude.{
  ℕ, suc, ◌+◌, ◌^◌, ◌<◌, List, [], ◌∷◌, ◌++◌, length, ok, length-append, ◌≡◌, refl, sym, ap, ◌∙◌,
  arith, All,
}
use lod.Prelude.Text.{Text}
use lod.Prelude.Dict.{insert, IsDict, insert_new, lookup_before}
use lod.Packet.{Headers, put_uint16, slice, header_field, read_field, headers_loop}
use lod.Packet.Layout.{fields, slice_between, uint16-put_uint16, length-put_uint16}
use mathlib.Core.List.{append-nil, append_assoc}

-- The lengths of a header fit the 16 bits that the packet has for each.
abbrev pub IsShort : Text × Text → Type 0
IsShort (key, val) = (length key < 2 ^ 16) × (length val < 2 ^ 16)

-- What `Encode` can store: a map of at most 255 short headers, and a tile of less than 4 GiB.
pub record IsEncodable (tile : List ℕ) (hs : Headers) : Type 0 where
  pub map : IsDict hs
  pub short : All IsShort hs
  pub few : length hs < 2 ^ 8
  pub sized : length tile < 2 ^ 32

pub read_field_between :
    (front field back : List ℕ)
    → length field < 2 ^ 16
    → read_field (length front) (front ++ (put_uint16 (length field) ++ (field ++ back)))
      ≡ ok (field, length front + 2 + length field)
unfolding read_field
read_field_between front field back h =
    let size = put_uint16 (length field) in
    let packet = front ++ (size ++ (field ++ back)) in
    let two : length size ≡ 2 = length-put_uint16 (length field) in
    let stored : slice (length front) (length front + 2) packet ≡ ok size =
      slice_between front size (field ++ back) (length front) (length front + 2) refl
        (omega arith) in
    let behind : slice (length front + 2) (length front + 2 + length field) packet ≡ ok field =
      ap (slice (length front + 2) (length front + 2 + length field))
        (sym (append_assoc front size (field ++ back)))
      ∙ slice_between (front ++ size) field back (length front + 2)
          (length front + 2 + length field) (omega (arith, length-append front size))
          (omega (arith, length-append front size)) in
    rw (stored, uint16-put_uint16 (length field) h, behind) refl

read_field_at :
    (front field back packet : List ℕ) (offset : ℕ)
    → length field < 2 ^ 16
    → offset ≡ length front
    → packet ≡ front ++ (put_uint16 (length field) ++ (field ++ back))
    → read_field offset packet ≡ ok (field, offset + 2 + length field)
read_field_at front field back packet offset h ho hp =
    rw (ho, hp) (read_field_between front field back h)

-- One round of the loop: a header that stands at the offset is added to the map.
headers_loop_step :
    (rounds : ℕ) (front back : List ℕ) (key val : Text) (found : Headers)
    → IsShort (key, val)
    → headers_loop (suc rounds) (length front) (front ++ (header_field key val ++ back)) found
      ≡ headers_loop rounds
          (length (front ++ header_field key val))
          (front ++ (header_field key val ++ back))
          (insert key val found)
unfolding headers_loop header_field
headers_loop_step rounds front back key val found (hk, hv) =
    rw (read_field_key, read_field_val)
      (ap (λ (n : ℕ). headers_loop rounds n packet (insert key val found)) behind)
  where
    key_size : List ℕ
    key_size = put_uint16 (length key)

    val_size : List ℕ
    val_size = put_uint16 (length val)

    packet : List ℕ
    packet = front ++ (header_field key val ++ back)

    front' : List ℕ
    front' = front ++ (key_size ++ key)

    two : (n : ℕ) → length (put_uint16 n) ≡ 2
    two = length-put_uint16

    length-front' : length front + 2 + length key ≡ length front'
    length-front' =
        omega (arith, length-append front (key_size ++ key), length-append key_size key, two)

    read_field_key : read_field (length front) packet ≡ ok (key, length front + 2 + length key)
    read_field_key =
        read_field_at front key (val_size ++ (val ++ back)) packet (length front) hk refl
          (simp append_assoc)

    read_field_val :
        read_field (length front + 2 + length key) packet
        ≡ ok (val, length front + 2 + length key + 2 + length val)
    read_field_val = read_field_at front' val back packet _ hv length-front' (simp append_assoc)

    behind : length front + 2 + length key + 2 + length val ≡ length (front ++ header_field key val)
    behind = omega (
      arith,
      length-append front (header_field key val),
      length-append key_size (key ++ (val_size ++ val)),
      length-append key (val_size ++ val),
      length-append val_size val,
      two,
    )

-- The loop reads the fields that stand between `front` and `back`.
pub headers_loop-fields :
    (hs : Headers) (front back : List ℕ) (found : Headers)
    → IsDict (found ++ hs)
    → All IsShort hs
    → headers_loop (length hs) (length front) (front ++ (fields hs ++ back)) found
      ≡ ok (found ++ hs)
unfolding fields
headers_loop-fields [] front back found d h = unfold headers_loop in ap ok (sym (append-nil found))
headers_loop-fields ((key, val) ∷ hs) front back found d (short, h) =
    rw (append_assoc, headers_loop_step (length hs) front (fields hs ++ back) key val found short)
      (rw
        (
          insert_new key val found (lookup_before found hs key val d),
          ← append_assoc front (header_field key val) (fields hs ++ back),
          headers_loop-fields hs (front ++ header_field key val) back (found ++ (key, val) ∷ [])
              (rw append_assoc d) h,
          append_assoc,
        )
        refl)
