-- ===== src/Nolint.antt =====
-- `ParseNolintSuppressions`, `ProcessGlobalSuppresions`, `ResetNolintSuppressions` and
-- `IsErrorSuppressedByNolint`, over the two global dictionaries.
pub mod Exact
pub mod Comment
use core_arbiter.Prelude.{
  ℕ, ◌+◌, ◌-◌, ◌≡◌, refl, Bool, true, false, not, ◌&&◌, ◌||◌, Option, none, some, List, [], ◌∷◌,
  ◌++◌, ◌==◌, if◌then◌else◌, length, is_empty,
}
use core_arbiter.Str.{Str, codes, ◌=s◌, is_in, starts_with, ends_with}
use core_arbiter.Regex.{
  Regex, either, star, group, at_end, word_boundary, char, any_char, none_of, space, plus, opt,
  text, ◌⨾◌, slice, group_text, search_regex, is_found,
}
use core_arbiter.Report.{Report}
use core_arbiter.Tables.{
  error_categories, legacy_error_categories, default_c_suppressed_categories,
  default_kernel_suppressed_categories,
}

-- `_error_suppressions`, a map to sets of lines, as the list of its pairs (the key `none` is
-- Python's None), and the keys of `_global_error_suppressions`, whose values are all True.
pub record Suppressions : Type 0 where
  pub lines : List (Option Str × ℕ)
  pub globals : List Str

abbrev pub reset_nolint_suppressions : Suppressions
reset_nolint_suppressions = record { lines = []; globals = [] }

abbrev pub same_key : Option Str → Option Str → Bool
same_key none none = true
same_key (some c) (some d) = c =s d
same_key _ _ = false

-- `linenum in _error_suppressions.get(key, set())`
unfoldable pub is_listed : Option Str → ℕ → List (Option Str × ℕ) → Bool
is_listed key linenum [] = false
is_listed key linenum ((k, n) ∷ lines) =
    same_key k key && n == linenum || is_listed key linenum lines

unfoldable pub is_error_suppressed_by_nolint : Str → ℕ → Suppressions → Bool
unfolding is_listed
is_error_suppressed_by_nolint category linenum s =
    is_in category s.globals
    || is_listed (some category) linenum s.lines
    || is_listed none linenum s.lines

-- `\bNOLINT(NEXTLINE)?\b(\([^)]+\))?`
abbrev pub nolint_comment : Regex
nolint_comment =
    word_boundary
    ⨾ text (codes "NOLINT")
    ⨾ opt (group 1 (text (codes "NEXTLINE")))
    ⨾ word_boundary
    ⨾ opt (group 2 (char b'(' ⨾ plus (none_of (codes ")")) ⨾ char b')'))

abbrev pub add : Option Str → ℕ → Suppressions → Suppressions
add key linenum s = record s { lines = (key, linenum) ∷ s.lines }

-- `category[1:-1]`
abbrev pub inner : Str → Str
inner category = slice category 1 (length category - 1)

abbrev pub unknown_category : Str → ℕ → Str → Report
unknown_category filename linenum category = record {
  filename = filename;
  linenum = linenum;
  category = codes "readability/nolint";
  confidence = 5;
  message = codes "Unknown NOLINT error category: " ++ category;
}

-- For a category that is neither None nor `(*)`.
unfoldable pub suppress_category : Str → ℕ → ℕ → Str → Suppressions → Suppressions × List Report
suppress_category filename linenum line category s =
    if starts_with category (codes "(") && ends_with category (codes ")")
    then (if is_in (inner category) error_categories
        then (add (some (inner category)) line s, [])
        else if not (is_in (inner category) legacy_error_categories)
        then (s, unknown_category filename linenum (inner category) ∷ [])
        else (s, []))
    else (s, [])

unfoldable pub suppress : Str → ℕ → ℕ → Option Str → Suppressions → Suppressions × List Report
unfolding suppress_category
suppress filename linenum line none s = (add none line s, [])
suppress filename linenum line (some category) s =
    if category =s codes "(*)"
    then (add none line s, [])
    else suppress_category filename linenum line category s

abbrev pub is_given : Option Str → Bool
is_given none = false
is_given (some s) = not (is_empty s)

unfoldable pub parse_nolint_suppressions : Str → Str → ℕ → Suppressions → Suppressions × List Report
unfolding search_regex suppress
parse_nolint_suppressions filename raw_line linenum s =
    elim (search_regex nolint_comment raw_line) [
      | none ↦ (s, [])
      | some m ↦
          suppress filename linenum
            (if is_given (group_text raw_line m 1) then linenum + 1 else linenum)
            (group_text raw_line m 2) s
    ]

-- `_SEARCH_C_FILE`: `\b(?:LINT_C_FILE|vim?:\s*.*(\s*|:)filetype=c(\s*|:|$))`; its groups are not read
abbrev pub c_file : Regex
c_file =
    word_boundary
    ⨾ either (text (codes "LINT_C_FILE")) (
        text (codes "vi")
        ⨾ opt (char b'm')
        ⨾ char b':'
        ⨾ star space
        ⨾ star any_char
        ⨾ either (star space) (char b':')
        ⨾ text (codes "filetype=c")
        ⨾ either (star space) (either (char b':') at_end))

-- `_SEARCH_KERNEL_FILE`: `\b(?:LINT_KERNEL_FILE)`
abbrev pub kernel_file : Regex
kernel_file = word_boundary ⨾ text (codes "LINT_KERNEL_FILE")

abbrev pub add_globals : List Str → Suppressions → Suppressions
add_globals categories s = record s { globals = categories ++ s.globals }

unfoldable pub process_global_line : Str → Suppressions → Suppressions
unfolding search_regex
process_global_line line s =
    let c = if is_found c_file line then add_globals default_c_suppressed_categories s else s in
    if is_found kernel_file line then add_globals default_kernel_suppressed_categories c else c

unfoldable pub process_global_suppresions : List Str → Suppressions → Suppressions
unfolding process_global_line
process_global_suppresions [] s = s
process_global_suppresions (line ∷ lines) s =
    process_global_suppresions lines (process_global_line line s)
