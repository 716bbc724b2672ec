-- ===== src/Checks/BraceSpacing.antt =====
-- `CheckBracesSpacing` and `CheckSectionSpacing`.
pub mod Total
use core_arbiter.Str.{joined}
use core_arbiter.Prelude.{
  ℕ, ◌+◌, ◌-◌, not, ◌&&◌, ◌||◌, Option, none, some, List, [], ◌∷◌, ◌++◌, ltb, leb, if◌then◌else◌,
  length, get_elem?, take, drop,
}
use Prim.Native.Nat.{min}
use core_arbiter.Prelude.Fallible.{◌>>=◌}
use core_arbiter.Str.{Str, codes}
use core_arbiter.Regex.{
  Regex, star, group, at_start, at_end, word_boundary, char, any_char, any_of, none_of, space, plus,
  text, one_text, ◌⨾◌, match, search_regex, matches, is_found,
}
use core_arbiter.Report.{Report, report, report_if}
use core_arbiter.Brackets.Forward.{Place, close_expression}
use core_arbiter.Cleanse.Lines.{CleansedLines}
use core_arbiter.Nesting.Blocks.{NestingState, ClassInfo}
use core_arbiter.Checks.Blank.{is_blank_line}
use core_arbiter.Checks.Operators.{blanks}
use core_arbiter.Checks.Spacing.{group_of, access_label}
use core_arbiter.Checks.Types.{is_type}

-- `^(.*[^ ({>]){` and `^[\s}]*[{.;,)<>\]:]`
abbrev pub tight_brace : Regex
tight_brace = at_start ⨾ group 1 (star any_char ⨾ none_of (codes " ({>")) ⨾ char b'{'

abbrev pub initializer_follows : Regex
initializer_follows = at_start ⨾ star (any_of (codes "}" ++ blanks)) ⨾ any_of (codes "{.;,)<>]:")

-- `xrange(endlinenum + 1, min(endlinenum + 3, clean_lines.NumLines() - 1))`
abbrev pub two_more : List Str → ℕ → ℕ → List Str
two_more elided num_lines endlinenum =
    take (min (endlinenum + 3) (num_lines - 1) - (endlinenum + 1)) (drop (endlinenum + 1) elided)

abbrev pub trailing_text : CleansedLines → Place → Str
trailing_text clean_lines place =
    elim place.pos [ none ↦ [] | some endpos ↦ drop endpos place.line ]
    ++ joined (two_more clean_lines.elided clean_lines.num_lines place.linenum)

unfoldable pub initializer_reports :
    Str → CleansedLines → ℕ → NestingState → Str → Option (List Report)
unfolding match close_expression is_type
initializer_reports filename clean_lines linenum nesting_state line =
    elim (match tight_brace line) [
      | none ↦ some []
      | some m ↦ do
        let leading_text = group_of line m 1
        place ← close_expression clean_lines.elided linenum (length leading_text)
        if matches initializer_follows (trailing_text clean_lines place) then some [] else (do
          of_type ← is_type clean_lines.elided nesting_state.stack leading_text
          some (
              report_if (not of_type)
                (report filename linenum "whitespace/braces" 5 (codes "Missing space before {"))))
    ]

-- `:\s*;\s*$`, `^\s*;\s*$`, `\s+;\s*$` and `\bfor\b`
abbrev pub colon_semicolon : Regex
colon_semicolon = char b':' ⨾ star space ⨾ char b';' ⨾ star space ⨾ at_end

abbrev pub only_semicolon : Regex
only_semicolon = at_start ⨾ star space ⨾ char b';' ⨾ star space ⨾ at_end

abbrev pub spaced_semicolon : Regex
spaced_semicolon = plus space ⨾ char b';' ⨾ star space ⨾ at_end

abbrev pub for_word : Regex
for_word = word_boundary ⨾ text (codes "for") ⨾ word_boundary

unfoldable pub empty_statement_reports : Str → ℕ → Str → List Report
unfolding search_regex
empty_statement_reports filename linenum line =
    if is_found colon_semicolon line
    then report filename linenum "whitespace/semicolon" 5
        (codes "Semicolon defining empty statement. Use {} instead.")
      ∷ []
    else if is_found only_semicolon line
    then report filename linenum "whitespace/semicolon" 5 (
        codes "Line contains only semicolon. If this should be an empty statement, "
        ++ codes "use {} instead.")
      ∷ []
    else report_if (is_found spaced_semicolon line && not (is_found for_word line)) (
        report filename linenum "whitespace/semicolon" 5 (
          codes "Extra space before last semicolon. If this should be an empty "
          ++ codes "statement, use {} instead."))

-- `none` is an index out of range.
unfoldable pub check_braces_spacing : Str → CleansedLines → ℕ → NestingState → Option (List Report)
unfolding initializer_reports search_regex empty_statement_reports
check_braces_spacing filename clean_lines linenum nesting_state = do
  line ← get_elem? clean_lines.elided linenum
  initializers ← initializer_reports filename clean_lines linenum nesting_state line
  some (
      initializers
      ++ report_if (is_found (text (codes "}else")) line)
          (report filename linenum "whitespace/braces" 5 (codes "Missing space before else"))
      ++ empty_statement_reports filename linenum line)

-- `\b(class|struct)\b`, `\\$` and `\{\s*$`
abbrev pub class_word : Regex
class_word =
    word_boundary ⨾ group 1 (one_text (codes "class" ∷ codes "struct" ∷ [])) ⨾ word_boundary

abbrev pub backslash_last : Regex
backslash_last = char b'\\' ⨾ at_end

abbrev pub brace_last : Regex
brace_last = char b'{' ⨾ star space ⨾ at_end

-- `for i in range(class_info.starting_linenum, linenum)`, over those lines; the second number is the
-- start, which stands if no line ends in a brace
unfoldable pub class_head_end : ℕ → ℕ → List Str → ℕ
unfolding search_regex
class_head_end i start [] = start
class_head_end i start (line ∷ lines) =
    if is_found brace_last line then i else class_head_end (i + 1) start lines

unfoldable pub section_reports : Str → List Str → ℕ → ℕ → Str → Str → List Report
unfolding is_blank_line search_regex class_head_end
section_reports filename lines starting_linenum linenum label prev_line =
    if not (is_blank_line prev_line)
      && not (is_found class_word prev_line)
      && not (is_found backslash_last prev_line)
    then report_if
        (ltb
          (class_head_end starting_linenum starting_linenum
              (take (linenum - starting_linenum) (drop starting_linenum lines))
            + 1)
          linenum)
        (report filename linenum "whitespace/blank_line" 3
          (codes "\"" ++ label ++ codes ":\" should be preceded by a blank line"))
    else []

unfoldable pub check_section_spacing :
    Str → CleansedLines → ℕ → ClassInfo → ℕ → Option (List Report)
unfolding match section_reports
check_section_spacing filename clean_lines starting_linenum c linenum =
    if leb c.last_line (starting_linenum + 24) || leb linenum starting_linenum then some [] else (do
      line ← get_elem? clean_lines.lines linenum
      elim (match access_label line) [
        | none ↦ some []
        | some m ↦ do
          prev_line ← get_elem? clean_lines.lines (linenum - 1)
          some (
              section_reports filename clean_lines.lines starting_linenum linenum
                (group_of line m 1) prev_line)
      ])
