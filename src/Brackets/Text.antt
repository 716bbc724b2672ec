-- ===== src/Brackets/Text.antt =====
-- Text with balanced brackets, told without the code that matches them.
use core_arbiter.Prelude.{ℕ, ◌≡◌, Bool, false, [], ◌∷◌, ◌++◌}
use core_arbiter.Str.{Str, codes, char_in}

-- An opening bracket and the one that closes it.
pub data Pair : ℕ → ℕ → Type 0 where
  round : Pair b'(' b')'
  square : Pair b'[' b']'
  curly : Pair b'{' b'}'

abbrev pub is_bracket : ℕ → Bool
is_bracket c = char_in c (codes "([{)]}")

-- Text in which the brackets are balanced; angle brackets are not counted as brackets.
pub data Balanced : Str → Type 0 where
  nil : Balanced []
  plain : (c : ℕ) {s : Str} → is_bracket c ≡ false → Balanced s → Balanced (c ∷ s)
  nest :
      (opening closing : ℕ) {s t : Str}
      → Pair opening closing
      → Balanced s
      → Balanced t
      → Balanced (opening ∷ (s ++ closing ∷ t))
