-- ===== src/Checks/Semicolons.antt =====
-- `CheckTrailingSemicolon`.
pub mod Total
use core_arbiter.Prelude.{
  ℕ, zero, suc, ◌-◌, Bool, false, not, ◌&&◌, ◌||◌, Option, none, some, List, [], ◌∷◌, ◌++◌, ltb,
  if◌then◌else◌, length, get_elem?, take, drop, is_empty,
}
use core_arbiter.Prelude.Fallible.{◌>>=◌}
use core_arbiter.Str.{Str, codes, is_in, rfind_char}
use core_arbiter.Regex.{
  Regex, one_of, star, group, at_start, at_end, word_boundary, is_digit, is_upper, char, any_char,
  any_of, space, plus, text, one_text, either, ◌⨾◌, match, search_regex, matches, is_found,
}
use core_arbiter.Report.{Report, report}
use core_arbiter.Brackets.Forward.{Place, close_expression}
use core_arbiter.Brackets.Backward.{reverse_close_expression}
use core_arbiter.Cleanse.Lines.{CleansedLines}
use core_arbiter.Nolint.{Suppressions, parse_nolint_suppressions}
use core_arbiter.Checks.Braces.{previous_text}
use core_arbiter.Checks.Spacing.{group_of}
use core_arbiter.Prelude.{◌==◌}

-- `^(.*\)\s*)\{`
abbrev pub after_parenthesis : Regex
after_parenthesis = at_start ⨾ group 1 (star any_char ⨾ char b')' ⨾ star space) ⨾ char b'{'

-- `\b([A-Z_][A-Z0-9_]*)\s*$` and `^(.*\])\s*$`
abbrev pub macro_at_end : Regex
macro_at_end =
    word_boundary
    ⨾ group 1 (
        one_of (λ c. is_upper c || c == b'_')
        ⨾ star (one_of (λ c. is_upper c || is_digit c || c == b'_')))
    ⨾ star space
    ⨾ at_end

abbrev pub bracket_at_end : Regex
bracket_at_end = at_start ⨾ group 1 (star any_char ⨾ char b']') ⨾ star space ⨾ at_end

abbrev pub safe_macros : List Str
safe_macros =
    codes "TEST"
    ∷ codes "TEST_F"
    ∷ codes "MATCHER"
    ∷ codes "MATCHER_P"
    ∷ codes "TYPED_TEST"
    ∷ codes "EXCLUSIVE_LOCKS_REQUIRED"
    ∷ codes "SHARED_LOCKS_REQUIRED"
    ∷ codes "LOCKS_EXCLUDED"
    ∷ codes "INTERFACE_DEF"
    ∷ []

-- `\boperator\s*\[\s*\]`
abbrev pub index_operator : Regex
index_operator =
    word_boundary ⨾ text (codes "operator") ⨾ star space ⨾ char b'[' ⨾ star space ⨾ char b']'

-- `\b(?:struct|union)\s+alignas\s*$`, `\bdecltype$` and `\s+=\s*$`
abbrev pub alignas_at_end : Regex
alignas_at_end =
    word_boundary
    ⨾ one_text (codes "struct" ∷ codes "union" ∷ [])
    ⨾ plus space
    ⨾ text (codes "alignas")
    ⨾ star space
    ⨾ at_end

abbrev pub decltype_last : Regex
decltype_last = word_boundary ⨾ text (codes "decltype") ⨾ at_end

abbrev pub assignment_at_end : Regex
assignment_at_end = plus space ⨾ char b'=' ⨾ star space ⨾ at_end

-- `macro and macro.group(1) not in (...)`
unfoldable pub is_unsafe_macro : Str → Bool
unfolding search_regex
is_unsafe_macro line_prefix = elim (search_regex macro_at_end line_prefix) [
  | none ↦ false
  | some m ↦ not (is_in (group_of line_prefix m 1) safe_macros)
]

-- `func and not Search(r'\boperator\s*\[\s*\]', func.group(1))`
unfoldable pub is_lambda : Str → Bool
unfolding match search_regex
is_lambda line_prefix = elim (match bracket_at_end line_prefix) [
  | none ↦ false
  | some m ↦ not (is_found index_operator (group_of line_prefix m 1))
]

-- What stands before the opening parenthesis takes the block out of the check.
unfoldable pub is_exempt : Str → Bool
unfolding is_unsafe_macro is_lambda search_regex
is_exempt line_prefix =
    is_unsafe_macro line_prefix
    || is_lambda line_prefix
    || is_found alignas_at_end line_prefix
    || is_found decltype_last line_prefix
    || is_found assignment_at_end line_prefix

-- `opening_parenthesis[2] > -1` and the tests of the line up to there
abbrev pub exempt_at : Place → Bool
exempt_at opening = elim opening.pos [
  | none ↦ false
  | some start ↦ is_exempt (take start opening.line)
]

-- `\]\s*$`
abbrev pub ends_in_bracket : Regex
ends_in_bracket = char b']' ⨾ star space ⨾ at_end

-- `opening_parenthesis[1] > 1 and Search(r'\]\s*$', clean_lines.elided[...])`
unfoldable pub after_capture : List Str → ℕ → Option Bool
unfolding search_regex
after_capture elided linenum =
    if ltb 1 linenum
    then (do line ← get_elem? elided (linenum - 1); some (is_found ends_in_bracket line))
    else some false

-- Case 1: the length of `match.group(1)`, if the match is kept.
unfoldable pub parenthesis_case : List Str → ℕ → Str → Option (Option ℕ)
unfolding rfind_char reverse_close_expression is_exempt after_capture
parenthesis_case elided linenum head = elim (rfind_char b')' head) [
  | none ↦ none
  | some closing_brace_pos ↦ do
    opening ← reverse_close_expression elided linenum closing_brace_pos
    if exempt_at opening then some none else (do
      capture ← after_capture elided opening.linenum
      some (if capture then none else some (length head)))
]

-- `^(.*(?:else|\)\s*const)\s*)\{`, `[;{}]\s*$` and `^(\s*)\{`
abbrev pub after_else_or_const : Regex
after_else_or_const =
    at_start
    ⨾ group 1 (
        star any_char
        ⨾ either (text (codes "else")) (char b')' ⨾ star space ⨾ text (codes "const"))
        ⨾ star space)
    ⨾ char b'{'

abbrev pub ends_block_or_statement : Regex
ends_block_or_statement = any_of (codes ";{}") ⨾ star space ⨾ at_end

abbrev pub leading_brace : Regex
leading_brace = at_start ⨾ group 1 (star space) ⨾ char b'{'

abbrev pub group_length : Regex → Str → Option ℕ
group_length r line = elim (match r line) [
  | none ↦ none
  | some m ↦ some (length (group_of line m 1))
]

-- Cases 2 to 6.
unfoldable pub other_cases : List Str → ℕ → Str → Option (Option ℕ)
unfolding match previous_text search_regex
other_cases elided linenum line = elim (group_length after_else_or_const line) [
  | some n ↦ some (some n)
  | none ↦ do
    prevline ← previous_text elided linenum
    some (
        if not (is_empty prevline) && is_found ends_block_or_statement prevline
        then group_length leading_brace line
        else none)
]

-- Where the opening brace stands, if the block is eligible.
unfoldable pub block_start : List Str → ℕ → Str → Option (Option ℕ)
unfolding match parenthesis_case other_cases
block_start elided linenum line = elim (match after_parenthesis line) [
  | some m ↦ parenthesis_case elided linenum (group_of line m 1)
  | none ↦ other_cases elided linenum line
]

-- `^\s*;`
abbrev pub semicolon_first : Regex
semicolon_first = at_start ⨾ star space ⨾ char b';'

-- The line number of the closing brace, if a semicolon follows it.
unfoldable pub redundant_semicolon : List Str → ℕ → Option ℕ → Option (Option ℕ)
unfolding close_expression match
redundant_semicolon elided linenum none = some none
redundant_semicolon elided linenum (some start) = do
  place ← close_expression elided linenum start
  some (elim place.pos [
    | none ↦ none
    | some endpos ↦
        if matches semicolon_first (drop endpos place.line) then some place.linenum else none
  ])

abbrev pub two_nolints : Str → ℕ → Str → Str → Suppressions → Suppressions × List Report
two_nolints filename endlinenum before line sup =
    let (sup', reports) = parse_nolint_suppressions filename before (endlinenum - 1) sup in
    let (sup'', reports') = parse_nolint_suppressions filename line endlinenum sup' in
    (sup'', reports ++ reports')

-- The NOLINT comments of the line and of the one before, then the message. A semicolon on line 0,
-- whose line before would be number -1, is left out: that line is the marker of `ProcessFileData`.
unfoldable pub semicolon_reports :
    Str → List Str → Option ℕ → Suppressions → Option (Suppressions × List Report)
unfolding parse_nolint_suppressions
semicolon_reports filename raw_lines none sup = some (sup, [])
semicolon_reports filename raw_lines (some zero) sup = none
semicolon_reports filename raw_lines (some (suc n)) sup = do
  before ← get_elem? raw_lines n
  line ← get_elem? raw_lines (suc n)
  let (sup', reports) = two_nolints filename (suc n) before line sup
  some (
    sup',
    reports
        ++ report filename (suc n) "readability/braces" 4 (codes "You don't need a ; after a }")
          ∷ [],
  )

-- `none` is an index out of range.
unfoldable pub check_trailing_semicolon :
    Str → CleansedLines → ℕ → Suppressions → Option (Suppressions × List Report)
unfolding block_start redundant_semicolon semicolon_reports
check_trailing_semicolon filename clean_lines linenum sup = do
  line ← get_elem? clean_lines.elided linenum
  start ← block_start clean_lines.elided linenum line
  semicolon ← redundant_semicolon clean_lines.elided linenum start
  semicolon_reports filename clean_lines.raw_lines semicolon sup
