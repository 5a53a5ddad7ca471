-- ===== src/Packet/Sizes.antt =====
-- When the size of a packet's tile can be read (packet/packet.go: `TileDataSize`).
use lod.Prelude.{
  ◌∙◌, length-take, length-drop, take, drop, ℕ, List, [], ◌∷◌, ok, panic, ◌≡◌, ◌⊎◌, inl, inr, ◌≤◌,
  ◌<◌, refl, arith, length,
}
use lod.Packet.{slice, uint32, tile_data_size}

uint32_cases :
    (t : List ℕ)
    → ((4 ≤ length t) × ((n : ℕ) × (uint32 t ≡ ok n))) ⊎ ((length t < 4) × (uint32 t ≡ panic))
unfolding uint32
uint32_cases [] = inr (omega arith, refl)
uint32_cases (a ∷ []) = inr (omega arith, refl)
uint32_cases (a ∷ b ∷ []) = inr (omega arith, refl)
uint32_cases (a ∷ b ∷ c ∷ []) = inr (omega arith, refl)
uint32_cases (a ∷ b ∷ c ∷ d ∷ t) = inl (omega arith, (_, refl))

tile_data_size-long :
    (bytes : List ℕ) → 36 ≤ length bytes → tile_data_size bytes ≡ uint32 (take 4 (drop 32 bytes))
unfolding tile_data_size slice
tile_data_size-long bytes long = ground arith

tile_data_size-short : (bytes : List ℕ) → length bytes < 36 → tile_data_size bytes ≡ panic
unfolding tile_data_size slice
tile_data_size-short bytes short = ground arith

pub tile_data_size_cases :
    (bytes : List ℕ)
    → ((36 ≤ length bytes) × ((size : ℕ) × (tile_data_size bytes ≡ ok size)))
      ⊎ ((length bytes < 36) × (tile_data_size bytes ≡ panic))
tile_data_size_cases bytes = elim (uint32_cases (take 4 (drop 32 bytes))) [
  | inl (four, (size, e)) ↦
      let long : 36 ≤ length bytes =
        omega (arith, length-take 4 (drop 32 bytes), length-drop 32 bytes) in
      inl (long, (size, tile_data_size-long bytes long ∙ e))
  | inr (few, e) ↦
      let short : length bytes < 36 =
        omega (arith, length-take 4 (drop 32 bytes), length-drop 32 bytes) in
      inr (short, tile_data_size-short bytes short)
]
