-- ===== src/Checks/Blank.antt =====
-- `IsBlankLine` and `GetPreviousNonBlankLine`.
pub mod Last
use core_arbiter.Prelude.{
  ℕ, zero, suc, Bool, true, false, ◌&&◌, Option, none, some, List, [], ◌∷◌, get_elem?,
}
use core_arbiter.Str.{Str, is_space}

unfoldable pub is_blank_line : Str → Bool
is_blank_line [] = true
is_blank_line (c ∷ line) = is_space c && is_blank_line line

-- `prevlinenum` counts down; the index given is one more.
unfoldable pub previous_from : List Str → ℕ → Option (Option (Str × ℕ))
unfolding is_blank_line
previous_from elided zero = some none
previous_from elided (suc prevlinenum) = elim (get_elem? elided prevlinenum) [
  | none ↦ none
  | some prevline ↦ elim (is_blank_line prevline) [
    | true ↦ previous_from elided prevlinenum
    | false ↦ some (some (prevline, prevlinenum))
  ]
]

-- `none` is an index out of range, `some none` is `('', -1)`.
unfoldable pub get_previous_non_blank_line : List Str → ℕ → Option (Option (Str × ℕ))
unfolding previous_from
get_previous_non_blank_line elided linenum = previous_from elided linenum
