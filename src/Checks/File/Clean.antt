-- ===== src/Checks/File/Clean.antt =====
-- Files without bad characters.
use mathlib.Core.Path.{ap₂}
use core_arbiter.Prelude.{
  ℕ, ◌+◌, ◌≡◌, refl, ◌∙◌, Bool, true, false, not, ◌&&◌, ◌||◌, List, [], ◌∷◌, ◌++◌, if◌then◌else◌,
  any, is_empty,
}
use core_arbiter.Str.{Str, char_in}
use core_arbiter.Checks.File.{bad_utf8, nul_byte, bad_characters_from, check_for_bad_characters}
use core_arbiter.Report.{Report}

abbrev pub is_bad : Str → Bool
is_bad line = char_in 0xfffd line || char_in 0 line

is_empty-append {ℓ} :
    {A : Type ℓ} (xs ys : List A) → is_empty (xs ++ ys) ≡ (is_empty xs && is_empty ys)
is_empty-append [] ys = refl
is_empty-append (x ∷ xs) ys = refl

is_empty-if : (b : Bool) (r : Report) → is_empty (if b then r ∷ [] else []) ≡ not b
is_empty-if true r = refl
is_empty-if false r = refl

not_or : (a b c : Bool) → (not a && (not b && not c)) ≡ not ((a || b) || c)
not_or true b c = refl
not_or false true c = refl
not_or false false c = refl

bad_characters_from-is_bad :
    (filename : Str) (linenum : ℕ) (lines : List Str)
    → is_empty (bad_characters_from filename linenum lines) ≡ not (any is_bad lines)
unfolding bad_characters_from
bad_characters_from-is_bad filename linenum [] = refl
bad_characters_from-is_bad filename linenum (line ∷ lines) =
    is_empty-append (if char_in 0xfffd line then bad_utf8 filename linenum ∷ [] else []) _
    ∙ ap₂ ◌&&◌ (is_empty-if (char_in 0xfffd line) (bad_utf8 filename linenum)) (
        is_empty-append (if char_in 0 line then nul_byte filename linenum ∷ [] else []) _
        ∙ ap₂ ◌&&◌ (is_empty-if (char_in 0 line) (nul_byte filename linenum))
            (bad_characters_from-is_bad filename (linenum + 1) lines))
    ∙ not_or (char_in 0xfffd line) (char_in 0 line) (any is_bad lines)

-- `CheckForBadCharacters` reports nothing exactly when no line holds a replacement character or NUL.
pub check_for_bad_characters-is_bad :
    (filename : Str) (lines : List Str)
    → is_empty (check_for_bad_characters filename lines) ≡ not (any is_bad lines)
unfolding check_for_bad_characters
check_for_bad_characters-is_bad filename lines = bad_characters_from-is_bad filename 0 lines
