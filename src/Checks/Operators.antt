-- ===== src/Checks/Operators.antt =====
-- `CheckOperatorSpacing`.
pub mod Masked
pub mod Total
use core_arbiter.Prelude.{
  ℕ, zero, suc, ◌+◌, Bool, not, ◌&&◌, ◌||◌, Option, none, some, List, [], ◌∷◌, ◌++◌, ◌==◌,
  if◌then◌else◌, length, get_elem?, replicate, all, is_empty,
}
use core_arbiter.Prelude.Fallible.{◌>>=◌}
use core_arbiter.Str.{Str, codes, ◌=s◌}
use core_arbiter.Regex.{
  Regex, Found, one_of, either, star, group, at_start, at_end, word_boundary, is_digit, is_none,
  char, any_char, any_of, none_of, space, word, ink, plus, opt, text, one_text, ◌⨾◌, is_upper,
  match, search_regex, matches, is_found,
}
use core_arbiter.Report.{Report, report, report_if}
use core_arbiter.Brackets.Forward.{close_expression}
use core_arbiter.Brackets.Backward.{reverse_close_expression}
use core_arbiter.Checks.Spacing.{group_of}
use core_arbiter.Prelude.{leb}

-- What `\s` stands for within a set of characters.
abbrev pub blanks : Str
blanks = codes " \t\n\r" ++ 11 ∷ 12 ∷ []

-- `^(.*\boperator\b)(\S+)(\s*\(.*)$`
abbrev pub operator_head : Regex
operator_head = star any_char ⨾ word_boundary ⨾ text (codes "operator") ⨾ word_boundary

abbrev pub operator_tail : Regex
operator_tail = star space ⨾ char b'(' ⨾ star any_char

abbrev pub operator_call : Regex
operator_call =
    at_start ⨾ group 1 operator_head ⨾ group 2 (plus ink) ⨾ group 3 operator_tail ⨾ at_end

-- The line with the name of one operator method replaced.
abbrev pub mask : Str → Found → Str
mask line m = group_of line m 1 ++ replicate (length (group_of line m 2)) b'_' ++ group_of line m 3

-- `while True`, on fuel; `none` is running out of it
unfoldable pub mask_operators : ℕ → Str → Option Str
unfolding match
mask_operators zero line = none
mask_operators (suc fuel) line = elim (match operator_call line) [
  | none ↦ some line
  | some m ↦ mask_operators fuel (mask line m)
]

-- `[\w.]=` and `=[\w.]`
abbrev pub word_or_dot : Regex
word_or_dot = either word (char b'.')

-- `\b(if|while|for) `
abbrev pub control_word : Regex
control_word =
    word_boundary ⨾ group 1 (one_text (codes "if" ∷ codes "while" ∷ codes "for" ∷ [])) ⨾ char b' '

-- `(>=|<=|==|!=|&=|\^=|\|=|\+=|\*=|\/=|\%=)`
abbrev pub compound_operator : Regex
compound_operator = group 1 (
    one_text (
      codes ">="
      ∷ codes "<="
      ∷ codes "=="
      ∷ codes "!="
      ∷ codes "&="
      ∷ codes "^="
      ∷ codes "|="
      ∷ codes "+="
      ∷ codes "*="
      ∷ codes "/="
      ∷ codes "%="
      ∷ []))

unfoldable pub is_tight_assignment : Str → Bool
unfolding search_regex
is_tight_assignment line =
    (is_found (word_or_dot ⨾ char b'=') line || is_found (char b'=' ⨾ word_or_dot) line)
    && not (is_found control_word line)
    && not (is_found compound_operator line)
    && not (is_found (text (codes "operator=")) line)

-- `[^<>=!\s](==|!=|<=|>=|\|\|)[^<>=!\s,;\)]`
abbrev pub tight_comparison : Regex
tight_comparison =
    none_of (codes "<>=!" ++ blanks)
    ⨾ group 1 (one_text (codes "==" ∷ codes "!=" ∷ codes "<=" ∷ codes ">=" ∷ codes "||" ∷ []))
    ⨾ none_of (codes "<>=!,;)" ++ blanks)

-- `#.*include`
abbrev pub include_directive : Regex
include_directive = char b'#' ⨾ star any_char ⨾ text (codes "include")

-- `^(.*[^\s<])<[^\s=<,]` and `^(.*[^-\s>])>[^\s=>,]`
abbrev pub tight_less : Regex
tight_less =
    at_start
    ⨾ group 1 (star any_char ⨾ none_of (codes "<" ++ blanks))
    ⨾ char b'<'
    ⨾ none_of (codes "=<," ++ blanks)

abbrev pub tight_greater : Regex
tight_greater =
    at_start
    ⨾ group 1 (star any_char ⨾ none_of (codes "->" ++ blanks))
    ⨾ char b'>'
    ⨾ none_of (codes "=>," ++ blanks)

abbrev pub missing_around : Str → ℕ → Str → Report
missing_around filename linenum name =
    report filename linenum "whitespace/operators" 3 (codes "Missing spaces around " ++ name)

unfoldable pub less_reports : Str → List Str → ℕ → Str → Option (List Report)
unfolding match close_expression
less_reports filename elided linenum line = elim (match tight_less line) [
  | none ↦ some []
  | some m ↦ do
    end ← close_expression elided linenum (length (group_of line m 1))
    some (report_if (is_none end.pos) (missing_around filename linenum (codes "<")))
]

unfoldable pub greater_reports : Str → List Str → ℕ → Str → Option (List Report)
unfolding match reverse_close_expression
greater_reports filename elided linenum line = elim (match tight_greater line) [
  | none ↦ some []
  | some m ↦ do
    start ← reverse_close_expression elided linenum (length (group_of line m 1))
    some (report_if (is_none start.pos) (missing_around filename linenum (codes ">")))
]

unfoldable pub comparison_reports : Str → List Str → ℕ → Str → Option (List Report)
unfolding search_regex match less_reports greater_reports
comparison_reports filename elided linenum line = elim (search_regex tight_comparison line) [
  | some m ↦ some (missing_around filename linenum (group_of line m 1) ∷ [])
  | none ↦ if matches include_directive line then some [] else (do
    less ← less_reports filename elided linenum line
    greater ← greater_reports filename elided linenum line
    some (less ++ greater))
]

-- `(operator|[^\s(<])(?:L|UL|LL|ULL|l|ul|ll|ull)?<<([^\s,=<])`
abbrev pub tight_shift : Regex
tight_shift =
    group 1 (either (text (codes "operator")) (none_of (codes "(<" ++ blanks)))
    ⨾ opt (
        one_text (
          codes "L"
          ∷ codes "UL"
          ∷ codes "LL"
          ∷ codes "ULL"
          ∷ codes "l"
          ∷ codes "ul"
          ∷ codes "ll"
          ∷ codes "ull"
          ∷ []))
    ⨾ text (codes "<<")
    ⨾ group 2 (none_of (codes ",=<" ++ blanks))

-- `s.isdigit()`, where the digits of the text are ASCII
abbrev pub is_digits : Str → Bool
is_digits s = not (is_empty s) && all is_digit s

unfoldable pub shift_reports : Str → ℕ → Str → List Report
unfolding search_regex
shift_reports filename linenum line = elim (search_regex tight_shift line) [
  | none ↦ []
  | some m ↦
      report_if
        (not (is_digits (group_of line m 1) && is_digits (group_of line m 2))
          && not (group_of line m 1 =s codes "operator" && group_of line m 2 =s codes ";"))
        (missing_around filename linenum (codes "<<"))
]

-- `>>[a-zA-Z_]`
abbrev pub right_shift : Regex
right_shift = text (codes ">>") ⨾ one_of (λ c. is_upper c || leb b'a' c && leb c b'z' || c == b'_')

-- `(!\s|~\s|[\s]--[\s;]|[\s]\+\+[\s;])`
abbrev pub spaced_unary : Regex
spaced_unary = group 1 (
    either (char b'!' ⨾ space) (
      either (char b'~' ⨾ space) (
        either (space ⨾ text (codes "--") ⨾ any_of (codes ";" ++ blanks))
          (space ⨾ text (codes "++") ⨾ any_of (codes ";" ++ blanks)))))

unfoldable pub unary_reports : Str → ℕ → Str → List Report
unfolding search_regex
unary_reports filename linenum line = elim (search_regex spaced_unary line) [
  | none ↦ []
  | some m ↦
      report filename linenum "whitespace/operators" 4
        (codes "Extra space for operator " ++ group_of line m 1)
      ∷ []
]

unfoldable pub operator_reports : Str → List Str → ℕ → Str → Option (List Report)
unfolding is_tight_assignment comparison_reports shift_reports search_regex unary_reports
operator_reports filename elided linenum line = do
  comparisons ← comparison_reports filename elided linenum line
  some (
      report_if (is_tight_assignment line)
        (report filename linenum "whitespace/operators" 4 (codes "Missing spaces around ="))
      ++ comparisons
      ++ shift_reports filename linenum line
      ++ report_if (is_found right_shift line) (missing_around filename linenum (codes ">>"))
      ++ unary_reports filename linenum line)

-- `none` is an index out of range. Each round of the loop leaves fewer characters that are not part
-- of a word, so the fuel is the length of the line and one.
unfoldable pub check_operator_spacing : Str → List Str → ℕ → Option (List Report)
unfolding mask_operators operator_reports
check_operator_spacing filename elided linenum = do
  line ← get_elem? elided linenum
  masked ← mask_operators (length line + 1) line
  operator_reports filename elided linenum masked
