-- ===== src/Checks/Calls.antt =====
-- `CheckSpacingForFunctionCall`.
use core_arbiter.Prelude.{
  ℕ, Bool, not, ◌&&◌, Option, none, some, List, [], ◌∷◌, ◌++◌, if◌then◌else◌, get_elem?,
}
use core_arbiter.Prelude.Fallible.{◌>>=◌}
use core_arbiter.Str.{Str, codes}
use core_arbiter.Regex.{
  Regex, either, star, group, at_start, at_end, word_boundary, not_ahead, char, any_char, any_of,
  none_of, space, word, plus, opt, text, one_text, ◌⨾◌, search_regex, is_found,
}
use core_arbiter.Report.{Report, report, report_if}
use core_arbiter.Checks.Operators.{blanks}
use core_arbiter.Checks.Spacing.{group_of}

-- `\bif\s*\((.*)\)\s*{` and the like; the last argument is what ends the pattern
abbrev pub inside_control : Str → Str → Regex
inside_control keyword ends =
    word_boundary
    ⨾ text keyword
    ⨾ star space
    ⨾ char b'('
    ⨾ group 1 (star any_char)
    ⨾ char b')'
    ⨾ star space
    ⨾ any_of ends

abbrev pub control_patterns : List Regex
control_patterns =
    inside_control (codes "if") (codes "{")
    ∷ inside_control (codes "for") (codes "{")
    ∷ inside_control (codes "while") (codes "{;")
    ∷ inside_control (codes "switch") (codes "{")
    ∷ []

-- `fncall`
unfoldable pub call_text : Str → List Regex → Str
unfolding search_regex
call_text line [] = line
call_text line (pattern ∷ patterns) = elim (search_regex pattern line) [
  | none ↦ call_text line patterns
  | some m ↦ group_of line m 1
]

-- `\b(if|for|while|switch|return|new|delete|catch|sizeof)\b`
abbrev pub control_structure : Regex
control_structure =
    word_boundary
    ⨾ group 1 (
        one_text (
          codes "if"
          ∷ codes "for"
          ∷ codes "while"
          ∷ codes "switch"
          ∷ codes "return"
          ∷ codes "new"
          ∷ codes "delete"
          ∷ codes "catch"
          ∷ codes "sizeof"
          ∷ []))
    ⨾ word_boundary

-- ` \([^)]+\)\([^)]*(\)|,$)`
abbrev pub function_pointer : Regex
function_pointer =
    text (codes " (")
    ⨾ plus (none_of (codes ")"))
    ⨾ text (codes ")(")
    ⨾ star (none_of (codes ")"))
    ⨾ group 1 (either (char b')') (char b',' ⨾ at_end))

-- ` \([^)]+\)\[[^\]]+\]`
abbrev pub array_pointer : Regex
array_pointer =
    text (codes " (")
    ⨾ plus (none_of (codes ")"))
    ⨾ text (codes ")[")
    ⨾ plus (none_of (codes "]"))
    ⨾ char b']'

unfoldable pub is_plain_call : Str → Bool
unfolding search_regex
is_plain_call fncall =
    not (is_found control_structure fncall)
    && not (is_found function_pointer fncall)
    && not (is_found array_pointer fncall)

-- `\w\s*\(\s(?!\s*\\$)`
abbrev pub space_in_call : Regex
space_in_call = word ⨾ star space ⨾ char b'(' ⨾ space ⨾ not_ahead (star space ⨾ char b'\\' ⨾ at_end)

-- `\(\s+(?!(\s*\\)|\()`
abbrev pub space_after_open : Regex
space_after_open =
    char b'(' ⨾ plus space ⨾ not_ahead (either (group 1 (star space ⨾ char b'\\')) (char b'('))

unfoldable pub open_reports : Str → ℕ → Str → List Report
unfolding search_regex
open_reports filename linenum fncall =
    if is_found space_in_call fncall
    then report filename linenum "whitespace/parens" 4
        (codes "Extra space after ( in function call")
      ∷ []
    else report_if (is_found space_after_open fncall)
        (report filename linenum "whitespace/parens" 2 (codes "Extra space after ("))

-- `\w\s+\(`
abbrev pub space_before_call : Regex
space_before_call = word ⨾ plus space ⨾ char b'('

abbrev pub up_to_two_underscores : Regex
up_to_two_underscores = opt (char b'_' ⨾ opt (char b'_'))

-- `_{0,2}asm_{0,2}\s+_{0,2}volatile_{0,2}\s+\(`
abbrev pub asm_call : Regex
asm_call =
    up_to_two_underscores
    ⨾ text (codes "asm")
    ⨾ up_to_two_underscores
    ⨾ plus space
    ⨾ up_to_two_underscores
    ⨾ text (codes "volatile")
    ⨾ up_to_two_underscores
    ⨾ plus space
    ⨾ char b'('

-- `#\s*define|typedef|using\s+\w+\s*=`
abbrev pub definition : Regex
definition = either (char b'#' ⨾ star space ⨾ text (codes "define")) (
    either (text (codes "typedef"))
      (text (codes "using") ⨾ plus space ⨾ plus word ⨾ star space ⨾ char b'='))

-- `\w\s+\((\w+::)*\*\w+\)\(`
abbrev pub pointer_declarator : Regex
pointer_declarator =
    word
    ⨾ plus space
    ⨾ char b'('
    ⨾ star (group 1 (plus word ⨾ text (codes "::")))
    ⨾ char b'*'
    ⨾ plus word
    ⨾ text (codes ")(")

-- `\bcase\s+\(`
abbrev pub case_label : Regex
case_label = word_boundary ⨾ text (codes "case") ⨾ plus space ⨾ char b'('

-- `\boperator_*\b`
abbrev pub operator_name : Regex
operator_name = word_boundary ⨾ text (codes "operator") ⨾ star (char b'_') ⨾ word_boundary

unfoldable pub is_spaced_call : Str → Bool
unfolding search_regex
is_spaced_call fncall =
    is_found space_before_call fncall
    && not (is_found asm_call fncall)
    && not (is_found definition fncall)
    && not (is_found pointer_declarator fncall)
    && not (is_found case_label fncall)

-- `[^)]\s+\)\s*[^{\s]` and `^\s+\)`
abbrev pub space_before_close : Regex
space_before_close =
    none_of (codes ")") ⨾ plus space ⨾ char b')' ⨾ star space ⨾ none_of (codes "{" ++ blanks)

abbrev pub starts_with_close : Regex
starts_with_close = at_start ⨾ plus space ⨾ char b')'

unfoldable pub close_reports : Str → ℕ → Str → List Report
unfolding search_regex
close_reports filename linenum fncall =
    if is_found space_before_close fncall
    then report filename linenum "whitespace/parens" 2 (
        if is_found starts_with_close fncall
        then codes "Closing ) should be moved to the previous line"
        else codes "Extra space before )")
      ∷ []
    else []

unfoldable pub call_reports : Str → ℕ → Str → Str → List Report
unfolding is_plain_call open_reports is_spaced_call close_reports search_regex
call_reports filename linenum line fncall =
    if is_plain_call fncall
    then open_reports filename linenum fncall
      ++ report_if (is_spaced_call fncall) (
          report filename linenum "whitespace/parens" (if is_found operator_name line then 0 else 4)
            (codes "Extra space before ( in function call"))
      ++ close_reports filename linenum fncall
    else []

unfoldable pub check_spacing_for_function_call : Str → List Str → ℕ → Option (List Report)
unfolding call_reports call_text
check_spacing_for_function_call filename elided linenum = do
  line ← get_elem? elided linenum
  some (call_reports filename linenum line (call_text line control_patterns))
