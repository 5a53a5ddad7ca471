-- ===== src/Cache/Clients/Sizes.antt =====
-- The size of an entry (cache/cache.go: `initInternal`), by the variable MAX_ENTRY_SIZE.
use lod.Prelude.{ℕ, ◌*◌, ◌^◌, ◌<◌, none, some, ◌≡◌, ap, refl, ◌∙◌, arith}
use lod.Prelude.Int.{ℤ, pos, wrap, wrap_of_IsInt}
use lod.Prelude.Text.{Text}
use lod.Prelude.Strings.{itoa}
use lod.Prelude.Strings.Parse.{atoi, atoi-itoa}
use lod.Cache.Clients.{one_mb, times, max_entry_mb, entry_size}

max_entry_mb_read : (max : Text) (z : ℤ) → atoi max ≡ some z → max_entry_mb (some max) ≡ z
unfolding max_entry_mb
max_entry_mb_read max z h = rw (max_entry_mb, h) refl

max_entry_mb_default : (max : Text) → atoi max ≡ none → max_entry_mb (some max) ≡ pos 4
unfolding max_entry_mb
max_entry_mb_default max h = rw (max_entry_mb, h) refl

wrapped_mb : (n : ℕ) → n < 2 ^ 43 → wrap (times one_mb (pos n)) ≡ pos (n * 2 ^ 20)
wrapped_mb n small =
    wrap_of_IsInt (times one_mb (pos n)) (omega arith, omega arith) ∙ ap pos (omega arith)

-- Let a number of megabytes be below 2 ^ 43, and let another text be none that `Atoi` reads. With the
-- first as the variable MAX_ENTRY_SIZE, an entry has that many times 2 ^ 20 bytes, and with the second
-- or without the variable it has 4 times 2 ^ 20.
pub entry_size-itoa :
    (n : ℕ) (bad : Text)
    → n < 2 ^ 43
    → atoi bad ≡ none
    → (entry_size (some (itoa (pos n))) ≡ pos (n * 2 ^ 20))
      × (entry_size (some bad) ≡ pos (4 * 2 ^ 20))
      × (entry_size none ≡ pos (4 * 2 ^ 20))
unfolding entry_size max_entry_mb
entry_size-itoa n bad small h = (
  ap (λ z. wrap (times one_mb z))
        (max_entry_mb_read (itoa (pos n)) (pos n) (atoi-itoa (pos n) (omega arith, omega arith)))
      ∙ wrapped_mb n small,
  ap (λ z. wrap (times one_mb z)) (max_entry_mb_default bad h) ∙ wrapped_mb 4 (omega arith),
  wrapped_mb 4 (omega arith),
)
