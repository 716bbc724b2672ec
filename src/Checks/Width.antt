-- ===== src/Checks/Width.antt =====
-- `GetLineWidth`, over what the module `unicodedata` tells of characters, which is a parameter.
use core_arbiter.Prelude.{ℕ, ◌+◌, Bool, [], ◌∷◌, if◌then◌else◌}
use core_arbiter.Str.{Str}

-- `normalize('NFC', s)`, `east_asian_width(c) in ('W', 'F')`, and `combining(c)` not being 0
pub record UnicodeData : Type 0 where
  pub normalize : Str → Str
  pub is_wide : ℕ → Bool
  pub is_combining : ℕ → Bool

abbrev pub char_width : UnicodeData → ℕ → ℕ
char_width u uc = if u.is_wide uc then 2 else if u.is_combining uc then 0 else 1

unfoldable pub width_of : UnicodeData → Str → ℕ
width_of u [] = 0
width_of u (uc ∷ s) = char_width u uc + width_of u s

unfoldable pub get_line_width : UnicodeData → Str → ℕ
unfolding width_of
get_line_width u line = width_of u (u.normalize line)
