-- ===== src/Checks/Braces.antt =====
-- `CheckBraces`.
pub mod Total
use core_arbiter.Prelude.{
  ℕ, zero, suc, ◌+◌, ◌-◌, Bool, false, not, ◌&&◌, ◌||◌, Option, none, some, List, [], ◌∷◌, ◌++◌,
  ltb, ◌==◌, if◌then◌else◌, length, get_elem?, drop,
}
use core_arbiter.Prelude.Int.{ℤ, pos, negsuc, ◌+ℤ◌, lt_int}
use core_arbiter.Prelude.Fallible.{◌>>=◌}
use core_arbiter.Str.{Str, codes, ◌=s◌, char_in, contains, find, find_from}
use core_arbiter.Regex.{
  Regex, Found, either, star, group, at_start, at_end, word_boundary, differs, char, any_of,
  none_of, space, opt, text, one_text, ◌⨾◌, match, search_regex, matches, is_found,
}
use core_arbiter.Report.{Report, report, report_if}
use core_arbiter.Brackets.Forward.{Place, close_expression}
use core_arbiter.Nesting.Blocks.{NestingState, BlockInfo, class_info}
use core_arbiter.Checks.Blank.{get_previous_non_blank_line}
use core_arbiter.Checks.File.{get_indent_level}
use core_arbiter.Checks.Operators.{blanks}
use core_arbiter.Checks.Spacing.{group_of}
use core_arbiter.Checks.Width.{UnicodeData, get_line_width}

-- `s[n:]`, where `none` is -1: the last character
abbrev pub tail_from : Str → Option ℕ → Str
tail_from s none = drop (length s - 1) s
tail_from s (some n) = drop n s

-- `GetPreviousNonBlankLine(clean_lines, linenum)[0]`
unfoldable pub previous_text : List Str → ℕ → Option Str
unfolding get_previous_non_blank_line
previous_text elided linenum = do
  previous ← get_previous_non_blank_line elided linenum
  some (elim previous [ none ↦ [] | some (prevline, n) ↦ prevline ])

-- `\s*{\s*$`, `[,;:}{(]\s*$` and `\s*#`
abbrev pub lone_brace : Regex
lone_brace = star space ⨾ char b'{' ⨾ star space ⨾ at_end

abbrev pub may_precede_brace : Regex
may_precede_brace = any_of (codes ",;:}{(") ⨾ star space ⨾ at_end

abbrev pub directive_line : Regex
directive_line = star space ⨾ char b'#'

unfoldable pub is_misplaced : UnicodeData → ℤ → Str → Bool
unfolding search_regex match get_line_width
is_misplaced u line_length prevline =
    not (is_found may_precede_brace prevline)
    && not (matches directive_line prevline)
    && not (
        lt_int (line_length +ℤ negsuc 1) (pos (get_line_width u prevline))
        && contains prevline (codes "[]"))

unfoldable pub lone_brace_reports :
    UnicodeData → ℤ → Str → List Str → ℕ → Str → Option (List Report)
unfolding match previous_text is_misplaced
lone_brace_reports u line_length filename elided linenum line =
    if matches lone_brace line
    then (do
      prevline ← previous_text elided linenum
      some (
          report_if (is_misplaced u line_length prevline) (
            report filename linenum "whitespace/braces" 4
              (codes "{ should almost always be at the end of the previous line"))))
    else some []

-- `\s*else\b\s*(?:if\b|\{|$)` and `\s*}\s*$`
abbrev pub else_clause : Regex
else_clause =
    star space
    ⨾ text (codes "else")
    ⨾ word_boundary
    ⨾ star space
    ⨾ either (text (codes "if") ⨾ word_boundary) (either (char b'{') at_end)

abbrev pub lone_closing_brace : Regex
lone_closing_brace = star space ⨾ char b'}' ⨾ star space ⨾ at_end

unfoldable pub else_line_reports : Str → List Str → ℕ → Str → Option (List Report)
unfolding match previous_text
else_line_reports filename elided linenum line =
    if matches else_clause line
    then (do
      prevline ← previous_text elided linenum
      some (
          report_if (matches lone_closing_brace prevline) (
            report filename linenum "whitespace/newline" 4
              (codes "An else should appear on the same line as the preceding }"))))
    else some []

-- `else if\s*\(` and `}\s*else if\s*\(`
abbrev pub else_if : Regex
else_if = text (codes "else if") ⨾ star space ⨾ char b'('

abbrev pub brace_else_if : Regex
brace_else_if = char b'}' ⨾ star space ⨾ else_if

-- `}\s*else[^{]*$` and `[^}]*else\s*{`
abbrev pub brace_else : Regex
brace_else = char b'}' ⨾ star space ⨾ text (codes "else") ⨾ star (none_of (codes "{")) ⨾ at_end

abbrev pub else_brace : Regex
else_brace = star (none_of (codes "}")) ⨾ text (codes "else") ⨾ star space ⨾ char b'{'

abbrev pub one_sided : Str → ℕ → Report
one_sided filename linenum =
    report filename linenum "readability/braces" 5
      (codes "If an else has a brace on one side, it should have it on both")

-- `pos = line.find('else if')` and `pos = line.find('(', pos)`, for a line in which both are
unfoldable pub else_if_parenthesis : Str → Option ℕ
unfolding find find_from
else_if_parenthesis line = elim (find line (codes "else if")) [
  | none ↦ none
  | some n ↦ find_from line (codes "(") n
]

unfoldable pub else_if_reports : Str → List Str → ℕ → Str → Option ℕ → Option (List Report)
unfolding close_expression search_regex
else_if_reports filename elided linenum line none = some []
else_if_reports filename elided linenum line (some zero) = some []
else_if_reports filename elided linenum line (some (suc n)) = do
  place ← close_expression elided linenum (suc n)
  some (
      report_if
        (differs (is_found brace_else_if line) (char_in b'{' (tail_from place.line place.pos)))
        (one_sided filename linenum))

unfoldable pub else_brace_reports : Str → List Str → ℕ → Str → Option (List Report)
unfolding else_if_reports else_if_parenthesis search_regex match
else_brace_reports filename elided linenum line =
    if is_found else_if line
    then else_if_reports filename elided linenum line (else_if_parenthesis line)
    else some (
        report_if (is_found brace_else line || matches else_brace line)
          (one_sided filename linenum))

-- `\belse [^\s{]`, `\belse if\b` and `\s*do [^\s{]`
abbrev pub else_statement : Regex
else_statement = word_boundary ⨾ text (codes "else ") ⨾ none_of (codes "{" ++ blanks)

abbrev pub else_if_word : Regex
else_if_word = word_boundary ⨾ text (codes "else if") ⨾ word_boundary

abbrev pub do_statement : Regex
do_statement = star space ⨾ text (codes "do ") ⨾ none_of (codes "{" ++ blanks)

unfoldable pub one_line_reports : Str → ℕ → Str → List Report
unfolding search_regex match
one_line_reports filename linenum line =
    report_if (is_found else_statement line && not (is_found else_if_word line)) (
      report filename linenum "whitespace/newline" 4
        (codes "Else clause should never be on same line as else (use 2 lines)"))
    ++ report_if (matches do_statement line) (
        report filename linenum "whitespace/newline" 4
          (codes "do/while clauses should not be on a single line"))

-- `\b(if\s*\(|else\b)` and `\bif\s*\(`
abbrev pub if_or_else : Regex
if_or_else =
    word_boundary
    ⨾ group 1
        (either (text (codes "if") ⨾ star space ⨾ char b'(') (text (codes "else") ⨾ word_boundary))

abbrev pub if_head : Regex
if_head = word_boundary ⨾ text (codes "if") ⨾ star space ⨾ char b'('

-- `(endline, endlinenum, endpos)`: behind the condition, or behind the word
unfoldable pub head_end : List Str → ℕ → Str → Found → Option Place
unfolding search_regex close_expression
head_end elided linenum line if_else_match = elim (search_regex if_head line) [
  | none ↦ some (record { line = line; linenum = linenum; pos = some if_else_match.stop })
  | some m ↦ close_expression elided linenum (m.stop - 1)
]

-- `\s*{` and `\s*$`
abbrev pub brace_first : Regex
brace_first = star space ⨾ char b'{'

abbrev pub nothing_more : Regex
nothing_more = star space ⨾ at_end

abbrev pub line_has : Option Str → Regex → Bool
line_has none r = false
line_has (some line) r = matches r line

-- The body begins with a brace, on the line or, where that ends, on the next one.
unfoldable pub has_brace_body : List Str → Place → Bool
unfolding match
has_brace_body elided place =
    let rest = tail_from place.line place.pos in
    matches brace_first rest
    || matches nothing_more rest
      && ltb place.linenum (length elided - 1)
      && line_has (get_elem? elided (place.linenum + 1)) brace_first

-- The first of the lines with a semicolon.
unfoldable pub semicolon_line : ℕ → List Str → Option (ℕ × Str)
semicolon_line endlinenum [] = none
semicolon_line endlinenum (line ∷ lines) =
    if char_in b';' line then some (endlinenum, line) else semicolon_line (endlinenum + 1) lines

-- `while endlinenum < len(clean_lines.elided) and ';' not in ...[endpos:]`
unfoldable pub statement_end : List Str → Place → Option (ℕ × Str)
unfolding semicolon_line
statement_end elided place = elim (get_elem? elided place.linenum) [
  | none ↦ none
  | some line ↦
      if char_in b';' (tail_from line place.pos)
      then some (place.linenum, line)
      else semicolon_line (place.linenum + 1) (drop (place.linenum + 1) elided)
]

-- `;[\s}]*(\\?)$`
abbrev pub ends_statement : Regex
ends_statement =
    char b';' ⨾ star (any_of (codes "}" ++ blanks)) ⨾ group 1 (opt (char b'\\')) ⨾ at_end

-- `^[^{};]*\[[^\[\]]*\][^{}]*\{[^{}]*\}\s*\)*[;,]\s*$`
abbrev pub lambda_line : Regex
lambda_line =
    at_start
    ⨾ star (none_of (codes "{};"))
    ⨾ char b'['
    ⨾ star (none_of (codes "[]"))
    ⨾ char b']'
    ⨾ star (none_of (codes "{}"))
    ⨾ char b'{'
    ⨾ star (none_of (codes "{}"))
    ⨾ char b'}'
    ⨾ star space
    ⨾ star (char b')')
    ⨾ any_of (codes ";,")
    ⨾ star space
    ⨾ at_end

-- `\s*else\b`
abbrev pub else_first : Regex
else_first = star space ⨾ text (codes "else") ⨾ word_boundary

abbrev pub many_statements : Str → ℕ → Report
many_statements filename linenum =
    report filename linenum "readability/braces" 4
      (codes "If/else bodies with multiple statements require braces")

-- The line after the statement.
unfoldable pub next_line_reports : Str → ℕ → Str → Option Str → List Report
unfolding search_regex match get_indent_level
next_line_reports filename linenum line none = []
next_line_reports filename linenum line (some next_line) =
    let if_indent = get_indent_level line in
    let next_indent = get_indent_level next_line in
    if is_found if_head line && matches else_first next_line && not (next_indent == if_indent)
    then report filename linenum "readability/braces" 4 (
        codes "Else clause should be indented at the same level as if. "
        ++ codes "Ambiguous nested if/else chains require braces.")
      ∷ []
    else report_if (ltb if_indent next_indent) (many_statements filename linenum)

-- `endline[endline.find(';'):]`
abbrev pub from_semicolon : Str → Str
from_semicolon endline = tail_from endline (find endline (codes ";"))

unfoldable pub statement_reports : Str → List Str → ℕ → Str → Option (ℕ × Str) → List Report
unfolding match find next_line_reports
statement_reports filename elided linenum line none = []
statement_reports filename elided linenum line (some (endlinenum, endline)) =
    if not (matches ends_statement (from_semicolon endline))
    then report_if (not (matches lambda_line endline)) (many_statements filename linenum)
    else next_line_reports filename linenum line (get_elem? elided (endlinenum + 1))

unfoldable pub body_reports : Str → List Str → ℕ → Str → Option (List Report)
unfolding search_regex match head_end has_brace_body statement_end statement_reports
body_reports filename elided linenum line = elim (search_regex if_or_else line) [
  | none ↦ some []
  | some m ↦ if matches directive_line line then some [] else (do
    place ← head_end elided linenum line m
    some (
        if has_brace_body elided place
        then []
        else statement_reports filename elided linenum line (statement_end elided place)))
]

-- The last argument is the list `elided`; `none` is an index out of range.
unfoldable pub check_braces : UnicodeData → ℤ → Str → List Str → ℕ → Option (List Report)
unfolding lone_brace_reports else_line_reports else_brace_reports one_line_reports body_reports
check_braces u line_length filename elided linenum = do
  line ← get_elem? elided linenum
  lone ← lone_brace_reports u line_length filename elided linenum line
  else_line ← else_line_reports filename elided linenum line
  else_brace ← else_brace_reports filename elided linenum line
  body ← body_reports filename elided linenum line
  some (lone ++ else_line ++ else_brace ++ one_line_reports filename linenum line ++ body)
