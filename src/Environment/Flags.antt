-- ===== src/Environment/Flags.antt =====
-- The debug flags (`parseFlags`, cmd/lod/main.go; util/debug.go), and what they let through.
use lod.Prelude.{
  List, [], ◌∷◌, ◌++◌, Bool, true, false, ◌==◌, any, none, some, All, ◌≡◌, ◌≢◌, ◌↔◌, inl, inr, refl,
  sym, arith, Bool-cases, if_both,
}
use lod.Prelude.Text.{Text, text_eq, text_eq_iff, eq_of_text_eq}
use lod.Environment.{
  Env, prod, dev, split, CommandLine, parse_flags, is_debug_flag, debug, debug_flag, is_prod,
}
use mathlib.Core.List.{Memᴰ}

-- The parts with a comma between any two.
unfoldable pub join : List Text → Text
join [] = []
join (part ∷ []) = part
join (part ∷ next ∷ parts) = part ++ b',' ∷ join (next ∷ parts)

abbrev pub HasNoComma : Text → Type 0
HasNoComma = All (λ c. c ≢ b',')

split_part : (part : Text) → HasNoComma part → split part ≡ part ∷ []
unfolding split
split_part [] h = refl
split_part (c ∷ part) h =
    let other : (c == b',') ≡ false = ground (arith, h.0) in rw (other, split_part part h.1) refl

split_first : (part rest : Text) → HasNoComma part → split (part ++ b',' ∷ rest) ≡ part ∷ split rest
unfolding split
split_first [] rest h = refl
split_first (c ∷ part) rest h =
    let other : (c == b',') ≡ false = ground (arith, h.0) in
    rw (other, split_first part rest h.1) refl

split-join :
    (part : Text) (parts : List Text)
    → HasNoComma part
    → All HasNoComma parts
    → split (join (part ∷ parts)) ≡ part ∷ parts
unfolding join
split-join part [] h hs = split_part part h
split-join part (next ∷ parts) h hs =
    rw (split_first part (join (next ∷ parts)) h, split-join next parts hs.0 hs.1) refl

mem-any :
    (flag : Text) (flags : List Text) → any (λ f. text_eq f flag) flags ≡ true → Memᴰ flag flags
mem-any flag [] h = absurd (cc)
mem-any flag (f ∷ fs) h = elim (Bool-cases (text_eq f flag)) [
  | inl same ↦ Memᴰ.head (sym (eq_of_text_eq f flag same))
  | inr differs ↦ Memᴰ.tail (mem-any flag fs (ground arith))
]

any-mem :
    (flag : Text) (flags : List Text) → Memᴰ flag flags → any (λ f. text_eq f flag) flags ≡ true
any-mem flag [] h = elim h [ ]
any-mem flag (f ∷ fs) (Memᴰ.head e) = ground (arith, text_eq_iff f flag)
any-mem flag (f ∷ fs) (Memᴰ.tail m) = ground (arith, any-mem flag fs m)

-- Flags without a comma in them, written with commas between them on a command line that does not ask
-- for help, are the debug flags that are enabled, and no others are: a message under a flag is logged
-- exactly outside production and if the flag is one of them.
pub debug_flag_iff :
    (trim_space : Text → Text) (environment : Env) (line : CommandLine) (part : Text)
    (parts : List Text) (flag caller message : Text)
    → line.help ≡ false
    → line.debug_flag_ptr ≡ join (part ∷ parts)
    → HasNoComma part
    → All HasNoComma parts
    → (parse_flags line ≡ some (part ∷ parts))
      × (debug_flag trim_space environment (part ∷ parts) flag caller message ≢ none
          ↔ ((environment ≡ dev) × Memᴰ flag (part ∷ parts)))
unfolding parse_flags debug_flag is_debug_flag debug is_prod
debug_flag_iff trim_space environment line part parts flag caller message no_help given h hs =
    (rw (no_help, given, split-join part parts h hs) refl, logged environment)
  where
    enabled : Bool
    enabled = any (λ f. text_eq f flag) (part ∷ parts)

    logged :
        (e : Env)
        → debug_flag trim_space e (part ∷ parts) flag caller message ≢ none
          ↔ ((e ≡ dev) × Memᴰ flag (part ∷ parts))
    logged prod =
        (λ h. absurd (h (if_both (λ l. l ≡ none) enabled refl refl)), λ (h, m). absurd (cc))
    logged dev = (
      λ h. elim (Bool-cases enabled) [
        | inl on ↦ (refl, mem-any flag (part ∷ parts) on)
        | inr off ↦ absurd (h (rw off refl))
      ],
      λ (h, m) missing. absurd (cc (any-mem flag (part ∷ parts) m, missing)),
    )
