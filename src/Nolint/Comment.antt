-- ===== src/Nolint/Comment.antt =====
-- The text of a NOLINT comment, and what it asks for.
pub mod Search
pub mod Parse
use core_arbiter.Prelude.{
  ℕ, ◌≡◌, Bool, true, false, Option, none, some, List, [], ◌∷◌, ◌++◌, if◌then◌else◌, is_empty,
}
use core_arbiter.Str.{Str, codes, ◌=s◌, is_in, char_in, starts_with}
use core_arbiter.Regex.{starts_word}
use core_arbiter.Nolint.{Suppressions, add, unknown_category}
use core_arbiter.Report.{Report}
use core_arbiter.Tables.{error_categories, legacy_error_categories}

-- The comment, for this line or the next, of one category or of all.
abbrev pub next_text : Bool → Str
next_text true = codes "NEXTLINE"
next_text false = []

abbrev pub category_text : Option Str → Str
category_text none = []
category_text (some category) = b'(' ∷ (category ++ b')' ∷ [])

abbrev pub comment_text : Bool → Option Str → Str
comment_text next category = codes "NOLINT" ++ (next_text next ++ category_text category)

-- What may stand behind the comment, and in its parentheses.
abbrev pub IsClear : Option Str → Str → Type 0
IsClear none rest = (starts_word rest ≡ false) × (starts_with rest (codes "(") ≡ false)
IsClear (some category) rest = (is_empty category ≡ false) × (char_in b')' category ≡ false)

-- What the comment asks for on a line.
abbrev pub asked : Str → ℕ → ℕ → Option Str → Suppressions → Suppressions × List Report
asked filename linenum line none s = (add none line s, [])
asked filename linenum line (some category) s =
    if category =s codes "*"
    then (add none line s, [])
    else if is_in category error_categories
    then (add (some category) line s, [])
    else if is_in category legacy_error_categories
    then (s, [])
    else (s, unknown_category filename linenum category ∷ [])
