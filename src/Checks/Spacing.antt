-- ===== src/Checks/Spacing.antt =====
-- `CheckSpacing`, `CheckParenthesisSpacing` and `CheckCommaSpacing`.
pub mod Total
use core_arbiter.Prelude.{
  ℕ, zero, suc, ◌+◌, ◌-◌, Bool, true, false, not, ◌&&◌, ◌||◌, Option, none, some, List, [], ◌∷◌,
  ◌++◌, ltb, ◌==◌, if◌then◌else◌, length, get_elem?, take, drop, is_empty,
}
use core_arbiter.Prelude.Fallible.{◌>>=◌}
use core_arbiter.Str.{Str, codes, ◌=s◌, char_in, contains, rfind_char, lstrip}
use core_arbiter.Regex.{
  Regex, Found, either, star, group, at_end, word_boundary, char, any_char, none_of, space, word,
  plus, opt, text, one_text, ◌⨾◌, group_text, match, search_regex, sub, matches, is_found,
}
use core_arbiter.Report.{Report, report, report_if}
use core_arbiter.Cleanse.Lines.{CleansedLines}
use core_arbiter.IncludeState.{line_before}
use core_arbiter.Nesting.Blocks.{NestingState, in_namespace_body, in_extern_c}
use core_arbiter.Checks.Blank.{is_blank_line}
use core_arbiter.Checks.Comment.{check_comment}

-- ` {6}\w`
abbrev pub six_spaces : Regex
six_spaces = text (codes "      ") ⨾ word

-- ` {4}\w[^\(]*\)\s*(const\s*)?(\{\s*$|:)` and ` {4}:`
abbrev pub end_of_parameters : Regex
end_of_parameters =
    text (codes "    ")
    ⨾ word
    ⨾ star (none_of (codes "("))
    ⨾ char b')'
    ⨾ star space
    ⨾ opt (group 1 (text (codes "const") ⨾ star space))
    ⨾ group 2 (either (char b'{' ⨾ star space ⨾ at_end) (char b':'))

abbrev pub four_spaces_colon : Regex
four_spaces_colon = text (codes "    :")

-- `while search_position >= 0 and Match(r' {6}\w', elided[search_position])`, and whether the line
-- where it stops begins with `    :`. The number is one more than `search_position`.
unfoldable pub after_initializer : List Str → ℕ → Option Bool
unfolding match
after_initializer elided zero = some false
after_initializer elided (suc search_position) = elim (get_elem? elided search_position) [
  | none ↦ none
  | some line ↦ elim (matches six_spaces line) [
    | true ↦ after_initializer elided search_position
    | false ↦ some (take 5 line =s codes "    :")
  ]
]

-- `exception`, for the line before the blank line
unfoldable pub is_exception : List Str → ℕ → Str → Option Bool
unfolding after_initializer match
is_exception elided linenum prev_line =
    if matches six_spaces prev_line
    then after_initializer elided (linenum - 1)
    else some (matches end_of_parameters prev_line || matches four_spaces_colon prev_line)

-- `prevbrace != -1 and prev_line[prevbrace:].find('}') == -1`
unfoldable pub leaves_open : Str → Bool
unfolding rfind_char
leaves_open prev_line = elim (rfind_char b'{' prev_line) [
  | none ↦ false
  | some prevbrace ↦ not (char_in b'}' (drop prevbrace prev_line))
]

unfoldable pub block_start_reports : Str → List Str → ℕ → Str → Option (List Report)
unfolding leaves_open is_exception
block_start_reports filename elided linenum prev_line =
    if leaves_open prev_line
    then (do
      exception ← is_exception elided linenum prev_line
      some (
          report_if (not exception) (
            report filename linenum "whitespace/blank_line" 2
              (codes "Redundant blank line at the start of a code block should be deleted."))))
    else some []

-- `\s*}`
abbrev pub closing_brace : Regex
closing_brace = star space ⨾ char b'}'

-- `if linenum + 1 < clean_lines.NumLines()`: the next line of `raw`
abbrev pub next_raw : CleansedLines → ℕ → Option (Option Str)
next_raw clean_lines linenum =
    if ltb (linenum + 1) clean_lines.num_lines
    then elim (get_elem? clean_lines.lines_without_raw_strings (linenum + 1)) [
      | none ↦ none
      | some next_line ↦ some (some next_line)
    ]
    else some none

unfoldable pub block_end_reports : Str → ℕ → Option Str → List Report
unfolding match
block_end_reports filename linenum none = []
block_end_reports filename linenum (some next_line) =
    report_if
      (not (is_empty next_line)
        && matches closing_brace next_line
        && not (contains next_line (codes "} else ")))
      (report filename linenum "whitespace/blank_line" 3
        (codes "Redundant blank line at the end of a code block should be deleted."))

-- `\s*(public|protected|private):`
abbrev pub access_label : Regex
access_label =
    star space
    ⨾ group 1 (one_text (codes "public" ∷ codes "protected" ∷ codes "private" ∷ []))
    ⨾ char b':'

-- `match.group(n)`, of a group that takes part in every match
abbrev pub group_of : Str → Found → ℕ → Str
group_of s m n = elim (group_text s m n) [ none ↦ [] | some g ↦ g ]

unfoldable pub label_reports : Str → ℕ → Str → List Report
unfolding match
label_reports filename linenum prev_line = elim (match access_label prev_line) [
  | none ↦ []
  | some m ↦
      report filename linenum "whitespace/blank_line" 3
        (codes "Do not leave a blank line after \"" ++ group_of prev_line m 1 ++ codes ":\"")
      ∷ []
]

unfoldable pub blank_line_reports : Str → CleansedLines → ℕ → Option (List Report)
unfolding block_start_reports block_end_reports label_reports
blank_line_reports filename clean_lines linenum = do
  prev_line ← line_before clean_lines.elided linenum
  starts ← block_start_reports filename clean_lines.elided linenum prev_line
  next_line ← next_raw clean_lines linenum
  some (
      starts
      ++ block_end_reports filename linenum next_line
      ++ label_reports filename linenum prev_line)

-- `len(next_line) - len(next_line.lstrip())`
unfoldable pub next_line_start : Option Str → ℕ
unfolding lstrip
next_line_start none = 0
next_line_start (some next_line) = length next_line - length (lstrip next_line)

-- `\w\s+\[` and `(?:delete|return)\s+\[`
abbrev pub space_bracket : Regex
space_bracket = word ⨾ plus space ⨾ char b'['

abbrev pub delete_bracket : Regex
delete_bracket = one_text (codes "delete" ∷ codes "return" ∷ []) ⨾ plus space ⨾ char b'['

-- `for *\(.*[^:]:[^: ]` and `for *\(.*[^: ]:[^:]`
abbrev pub for_colon : Str → Str → Regex
for_colon before behind =
    text (codes "for")
    ⨾ star (char b' ')
    ⨾ char b'('
    ⨾ star any_char
    ⨾ none_of before
    ⨾ char b':'
    ⨾ none_of behind

unfoldable pub bracket_reports : Str → ℕ → Str → List Report
unfolding search_regex
bracket_reports filename linenum line =
    report_if (is_found space_bracket line && not (is_found delete_bracket line))
      (report filename linenum "whitespace/braces" 5 (codes "Extra space before ["))
    ++ report_if
        (is_found (for_colon (codes ":") (codes ": ")) line
          || is_found (for_colon (codes ": ") (codes ":")) line)
        (report filename linenum "whitespace/forcolon" 2
          (codes "Missing space around colon in range-based for loop"))

-- `none` is an index out of range.
unfoldable pub check_spacing : Str → CleansedLines → ℕ → NestingState → Option (List Report)
unfolding is_blank_line in_namespace_body in_extern_c blank_line_reports next_line_start
    check_comment bracket_reports
check_spacing filename clean_lines linenum nesting_state = do
  line ← get_elem? clean_lines.lines_without_raw_strings linenum
  blank ←
      if is_blank_line line
        && not (in_namespace_body nesting_state)
        && not (in_extern_c nesting_state)
      then blank_line_reports filename clean_lines linenum
      else some []
  next_line ← next_raw clean_lines linenum
  elided_line ← get_elem? clean_lines.elided linenum
  some (
      blank
      ++ check_comment line filename linenum (next_line_start next_line)
      ++ bracket_reports filename linenum elided_line)

-- ` (if\(|for\(|while\(|switch\()`
abbrev pub missing_space : Regex
missing_space =
    char b' '
    ⨾ group 1 (one_text (codes "if(" ∷ codes "for(" ∷ codes "while(" ∷ codes "switch(" ∷ []))

-- `\b(if|for|while|switch)\s*\(([ ]*)(.).*[^ ]+([ ]*)\)\s*{\s*$`
abbrev pub control_line : Regex
control_line =
    word_boundary
    ⨾ group 1 (one_text (codes "if" ∷ codes "for" ∷ codes "while" ∷ codes "switch" ∷ []))
    ⨾ star space
    ⨾ char b'('
    ⨾ group 2 (star (char b' '))
    ⨾ group 3 any_char
    ⨾ star any_char
    ⨾ plus (none_of (codes " "))
    ⨾ group 4 (star (char b' '))
    ⨾ char b')'
    ⨾ star space
    ⨾ char b'{'
    ⨾ star space
    ⨾ at_end

-- `\bfor\s*\(.*; \)`
abbrev pub open_for : Regex
open_for =
    word_boundary ⨾ text (codes "for") ⨾ star space ⨾ char b'(' ⨾ star any_char ⨾ text (codes "; )")

-- Of the groups 2, 3 and 4 of the line.
unfoldable pub is_mismatch : Str → Str → Str → Str → Bool
unfolding search_regex
is_mismatch line left first right =
    not (length left == length right)
    && not (
        first =s codes ";" && length left == 1 + length right
        || is_empty left && is_found open_for line)

unfoldable pub control_reports : Str → ℕ → Str → Found → List Report
unfolding is_mismatch
control_reports filename linenum line m =
    report_if (is_mismatch line (group_of line m 2) (group_of line m 3) (group_of line m 4)) (
      report filename linenum "whitespace/parens" 5
        (codes "Mismatching spaces inside () in " ++ group_of line m 1))
    ++ report_if (ltb 1 (length (group_of line m 2))) (
        report filename linenum "whitespace/parens" 5
          (codes "Should have zero or one spaces inside ( and ) in " ++ group_of line m 1))

unfoldable pub parenthesis_reports : Str → ℕ → Str → List Report
unfolding search_regex control_reports
parenthesis_reports filename linenum line =
    elim (search_regex missing_space line) [
      | none ↦ []
      | some m ↦
          report filename linenum "whitespace/parens" 5
            (codes "Missing space before ( in " ++ group_of line m 1)
          ∷ []
    ]
    ++ elim (search_regex control_line line) [
      | none ↦ []
      | some m ↦ control_reports filename linenum line m
    ]

unfoldable pub check_parenthesis_spacing : Str → List Str → ℕ → Option (List Report)
unfolding parenthesis_reports
check_parenthesis_spacing filename elided linenum = do
  line ← get_elem? elided linenum
  some (parenthesis_reports filename linenum line)

-- `\boperator\s*,\s*\(`
abbrev pub comma_operator : Regex
comma_operator =
    word_boundary ⨾ text (codes "operator") ⨾ star space ⨾ char b',' ⨾ star space ⨾ char b'('

-- `,[^,\s]` and `;[^\s};\\)/]`
abbrev pub tight_comma : Regex
tight_comma = char b',' ⨾ none_of (codes ", \t\n\r" ++ 11 ∷ 12 ∷ [])

abbrev pub tight_semicolon : Regex
tight_semicolon = char b';' ⨾ none_of (codes "};\\)/ \t\n\r" ++ 11 ∷ 12 ∷ [])

unfoldable pub check_comma_spacing : Str → CleansedLines → ℕ → Option (List Report)
unfolding search_regex sub
check_comma_spacing filename clean_lines linenum = do
  line ← get_elem? clean_lines.elided linenum
  raw ← get_elem? clean_lines.lines_without_raw_strings linenum
  some (
      report_if
        (is_found tight_comma (sub comma_operator (codes "F(") line)
          && is_found tight_comma raw
          && not (char_in b'{' raw))
        (report filename linenum "whitespace/comma" 3 (codes "Missing space after ,"))
      ++ report_if (is_found tight_semicolon line)
          (report filename linenum "whitespace/semicolon" 3 (codes "Missing space after ;")))
