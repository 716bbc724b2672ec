-- ===== src/Style.antt =====
-- `CheckStyle`, which calls the checks of spaces and braces.
pub mod Total
use core_arbiter.Prelude.{
  ℕ, zero, suc, ◌+◌, Bool, false, not, ◌&&◌, ◌||◌, Option, none, some, List, [], ◌∷◌, ◌++◌, ltb,
  ◌==◌, if◌then◌else◌, get_elem?, reverse,
}
use core_arbiter.Prelude.Int.{ℤ, pos, lt_int}
use core_arbiter.Prelude.Fallible.{◌>>=◌}
use core_arbiter.Str.{Str, codes, ◌=s◌, char_in, is_space, starts_with, contains, find, count}
use core_arbiter.Str.Decimal.{decimal}
use core_arbiter.Regex.{
  Regex, star, at_start, at_end, group, char, any_char, any_of, space, word, ink, digit, plus, opt,
  text, ◌⨾◌, match, search_regex, matches, is_found,
}
use core_arbiter.Report.{Report, report, report_if}
use core_arbiter.Reporting.Run.{Run, emit, emit_of, emit_with}
use core_arbiter.Context.{Context}
use core_arbiter.Settings.{is_header_extension}
use core_arbiter.Cleanse.Lines.{CleansedLines}
use core_arbiter.Nesting.Blocks.{NestingState, BlockInfo, class_info, innermost_class}
use core_arbiter.Checks.Width.{get_line_width}
use core_arbiter.Checks.Braces.{previous_text, check_braces}
use core_arbiter.Checks.Access.{check_access}
use core_arbiter.Checks.Semicolons.{check_trailing_semicolon}
use core_arbiter.Checks.Spacing.{check_spacing, check_parenthesis_spacing, check_comma_spacing}
use core_arbiter.Checks.Operators.{check_operator_spacing}
use core_arbiter.Checks.BraceSpacing.{check_braces_spacing, check_section_spacing}
use core_arbiter.Checks.Calls.{check_spacing_for_function_call}
use core_arbiter.Checks.Macros.{check_check}
use core_arbiter.Checks.AltTokens.{check_alt_tokens}
use core_arbiter.Files.Guard.{get_header_guard_cpp_variable}

-- `raw_lines[linenum - 1] if linenum > 0 else ''`
abbrev pub line_above : List Str → ℕ → Option Str
line_above raw_lines zero = some []
line_above raw_lines (suc n) = get_elem? raw_lines n

-- `initial_spaces`
unfoldable pub leading_spaces : Str → ℕ
leading_spaces [] = 0
leading_spaces (c ∷ line) = let rest = leading_spaces line in if c == b' ' then suc rest else 0

-- `[",=><] *$`, `\s*\w+\s*:\s*\\?$` and `^\s*""`
abbrev pub continuation : Regex
continuation = any_of (codes "\",=><") ⨾ star (char b' ') ⨾ at_end

abbrev pub scope_or_label : Regex
scope_or_label =
    star space ⨾ plus word ⨾ star space ⨾ char b':' ⨾ star space ⨾ opt (char b'\\') ⨾ at_end

abbrev pub empty_string_first : Regex
empty_string_first = at_start ⨾ star space ⨾ text (codes "\"\"")

unfoldable pub is_weird_indent : Str → Str → Str → Str → Bool
unfolding leading_spaces search_regex match
is_weird_indent line prev cleansed_line raw_line =
    let initial_spaces = leading_spaces line in
    not (is_found continuation prev)
    && (initial_spaces == 1 || initial_spaces == 3)
    && not (matches scope_or_label cleansed_line)
    && not (not (raw_line =s line) && matches empty_string_first line)

-- `line and line[-1].isspace()`
abbrev pub ends_in_space : Str → Bool
ends_in_space line = elim (reverse line) [ [] ↦ false | c ∷ rest ↦ is_space c ]

unfoldable pub start_reports : Str → ℕ → Str → Str → Str → Str → List Report
unfolding is_weird_indent
start_reports filename linenum line prev cleansed_line raw_line =
    report_if (char_in b'\t' line)
      (report filename linenum "whitespace/tab" 1 (codes "Tab found; better to use spaces"))
    ++ report_if (is_weird_indent line prev cleansed_line raw_line) (
        report filename linenum "whitespace/indent" 3 (
          codes "Weird number of spaces at line-start.  "
          ++ codes "Are you using a 2-space indent?"))
    ++ report_if (ends_in_space line) (
        report filename linenum "whitespace/end_of_line" 4
          (codes "Line ends in whitespace.  Consider deleting these extra spaces."))

-- `is_header_guard`; `none` is a search for the repository that does not end
unfoldable pub is_header_guard : Context → Str → Str → Str → Option Bool
unfolding is_header_extension get_header_guard_cpp_variable
is_header_guard cx filename file_extension line =
    if is_header_extension file_extension cx.settings
    then (do
      cppvar ← get_header_guard_cpp_variable cx.files cx.root_pattern filename
      some (
          starts_with line (codes "#ifndef " ++ cppvar)
          || starts_with line (codes "#define " ++ cppvar)
          || starts_with line (codes "#endif  // " ++ cppvar)))
    else some false

-- `^\s*//.*http(s?)://\S*$`, `^\s*//\s*[^\s]*$` and `^// \$Id:.*#[0-9]+ \$$`
abbrev pub url_comment : Regex
url_comment =
    at_start
    ⨾ star space
    ⨾ text (codes "//")
    ⨾ star any_char
    ⨾ text (codes "http")
    ⨾ group 1 (opt (char b's'))
    ⨾ text (codes "://")
    ⨾ star ink
    ⨾ at_end

abbrev pub one_word_comment : Regex
one_word_comment = at_start ⨾ star space ⨾ text (codes "//") ⨾ star space ⨾ star ink ⨾ at_end

abbrev pub id_comment : Regex
id_comment =
    at_start
    ⨾ text (codes "// $Id:")
    ⨾ star any_char
    ⨾ char b'#'
    ⨾ plus digit
    ⨾ text (codes " $")
    ⨾ at_end

-- `'%i' % _line_length`
abbrev pub decimal_int : ℤ → Str
decimal_int (pos n) = decimal n
decimal_int (ℤ.negsuc n) = b'-' ∷ decimal (n + 1)

unfoldable pub length_reports : Context → Str → ℕ → Bool → Str → List Report
unfolding match get_line_width decimal
length_reports cx filename linenum header_guard line =
    report_if
      (not (starts_with line (codes "#include"))
        && not header_guard
        && not (matches url_comment line)
        && not (matches one_word_comment line)
        && not (matches id_comment line)
        && lt_int cx.settings.line_length (pos (get_line_width cx.unicode line)))
      (report filename linenum "whitespace/line_length" 2 (
        codes "Lines should be <= "
        ++ decimal_int cx.settings.line_length
        ++ codes " characters long"))

-- Whether a line with more than one command is let pass; `prevline` is the one before it that is not
-- blank.
unfoldable pub has_two_commands : Str → Str → Bool
unfolding count find
has_two_commands cleansed_line prevline =
    ltb 1 (count cleansed_line (codes ";"))
    && not (contains cleansed_line (codes "for"))
    && (not (contains prevline (codes "for")) || contains prevline (codes ";"))
    && not (
        (contains cleansed_line (codes "case ") || contains cleansed_line (codes "default:"))
        && contains cleansed_line (codes "break;"))

-- The part of `CheckStyle` before the calls of other checks.
unfoldable pub line_reports : Context → Str → CleansedLines → ℕ → Str → Option (List Report)
unfolding start_reports is_header_guard length_reports has_two_commands previous_text
line_reports cx filename clean_lines linenum file_extension = do
  line ← get_elem? clean_lines.lines_without_raw_strings linenum
  prev ← line_above clean_lines.lines_without_raw_strings linenum
  cleansed_line ← get_elem? clean_lines.elided linenum
  raw_line ← get_elem? clean_lines.raw_lines linenum
  header_guard ← is_header_guard cx filename file_extension line
  prevline ← previous_text clean_lines.elided linenum
  some (
      start_reports filename linenum line prev cleansed_line raw_line
      ++ length_reports cx filename linenum header_guard line
      ++ report_if (has_two_commands cleansed_line prevline) (
          report filename linenum "whitespace/newline" 0
            (codes "More than one command on the same line")))

-- `if classinfo: CheckSectionSpacing(...)`
abbrev pub section_spacing : Str → CleansedLines → Option BlockInfo → ℕ → Option (List Report)
section_spacing filename clean_lines none linenum = some []
section_spacing filename clean_lines (some b) linenum = elim b.block_class [
  | class_info c ↦ check_section_spacing filename clean_lines b.starting_linenum c linenum
  | _ ↦ some []
]

-- The checks in the order of their calls; `none` is an exception, or a search for the repository
-- that does not end.
unfoldable pub check_style :
    Context → Str → CleansedLines → ℕ → Str → NestingState → Run → Option Run
unfolding line_reports emit check_braces check_trailing_semicolon check_access check_spacing
    check_operator_spacing check_parenthesis_spacing check_comma_spacing check_braces_spacing
    check_spacing_for_function_call check_check check_alt_tokens innermost_class
    check_section_spacing
check_style cx filename clean_lines linenum file_extension nesting_state run0 = do
  let elided = clean_lines.elided
  run1 ← emit_of (line_reports cx filename clean_lines linenum file_extension) run0
  run2 ← emit_of (check_braces cx.unicode cx.settings.line_length filename elided linenum) run1
  run3 ← emit_with (check_trailing_semicolon filename clean_lines linenum run2.suppressions) run2
  run4 ← emit_of (check_access filename elided linenum nesting_state) run3
  run5 ← emit_of (check_spacing filename clean_lines linenum nesting_state) run4
  run6 ← emit_of (check_operator_spacing filename elided linenum) run5
  run7 ← emit_of (check_parenthesis_spacing filename elided linenum) run6
  run8 ← emit_of (check_comma_spacing filename clean_lines linenum) run7
  run9 ← emit_of (check_braces_spacing filename clean_lines linenum nesting_state) run8
  run10 ← emit_of (check_spacing_for_function_call filename elided linenum) run9
  run11 ← emit_of (check_check filename elided linenum) run10
  run12 ← emit_of (check_alt_tokens filename elided linenum) run11
  emit_of (section_spacing filename clean_lines (innermost_class nesting_state) linenum) run12
