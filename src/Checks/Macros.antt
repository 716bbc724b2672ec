-- ===== src/Checks/Macros.antt =====
-- `FindCheckMacro` and `CheckCheck`, with their tables.

pub mod Total
use core_arbiter.Str.{joined}
use core_arbiter.Prelude.{
  ℕ, zero, suc, ◌+◌, ◌-◌, not, ◌&&◌, ◌||◌, Option, none, some, List, [], ◌∷◌, ◌++◌, leb, ◌==◌,
  if◌then◌else◌, length, get_elem?, take, drop, is_empty,
}
use core_arbiter.Prelude.Fallible.{◌>>=◌}
use core_arbiter.Str.{Str, codes, ◌=s◌, is_in, contains, find, strip}
use core_arbiter.Regex.{
  Regex, Cursor, one_of, either, star, group, at_start, at_end, word_boundary, ahead, is_digit,
  char, any_char, any_of, none_of, space, ink, digit, plus, opt, text, one_text, ◌⨾◌, slice,
  span_of, match, run, matches,
}
use core_arbiter.Report.{Report, report, report_if}
use core_arbiter.Brackets.Forward.{closed, find_end_of_expression_in_line, close_expression}
use core_arbiter.Checks.Spacing.{group_of}

-- `_CHECK_MACROS`
abbrev pub check_macros : List Str
check_macros =
    codes "DCHECK"
    ∷ codes "CHECK"
    ∷ codes "EXPECT_TRUE"
    ∷ codes "ASSERT_TRUE"
    ∷ codes "EXPECT_FALSE"
    ∷ codes "ASSERT_FALSE"
    ∷ []

abbrev pub lookup_str : Str → List (Str × Str) → Str
lookup_str key [] = []
lookup_str key ((k, v) ∷ rows) = if k =s key then v else lookup_str key rows

abbrev pub comparison_names : List (Str × Str)
comparison_names =
    (codes "==", codes "EQ")
    ∷ (codes "!=", codes "NE")
    ∷ (codes ">=", codes "GE")
    ∷ (codes ">", codes "GT")
    ∷ (codes "<=", codes "LE")
    ∷ (codes "<", codes "LT")
    ∷ []

abbrev pub inverse_names : List (Str × Str)
inverse_names =
    (codes "==", codes "NE")
    ∷ (codes "!=", codes "EQ")
    ∷ (codes ">=", codes "LT")
    ∷ (codes ">", codes "LE")
    ∷ (codes "<=", codes "GT")
    ∷ (codes "<", codes "GE")
    ∷ []

-- `_CHECK_REPLACEMENT[macro][operator]`
abbrev pub check_replacement : Str → Str → Str
check_replacement macro operator =
    if macro =s codes "EXPECT_FALSE"
    then codes "EXPECT_" ++ lookup_str operator inverse_names
    else if macro =s codes "ASSERT_FALSE"
    then codes "ASSERT_" ++ lookup_str operator inverse_names
    else if macro =s codes "EXPECT_TRUE"
    then codes "EXPECT_" ++ lookup_str operator comparison_names
    else if macro =s codes "ASSERT_TRUE"
    then codes "ASSERT_" ++ lookup_str operator comparison_names
    else macro ++ codes "_" ++ lookup_str operator comparison_names

-- `^(.*\b` + macro + `\s*)\(`
abbrev pub macro_call : Str → Regex
macro_call macro =
    at_start ⨾ group 1 (star any_char ⨾ word_boundary ⨾ text macro ⨾ star space) ⨾ char b'('

unfoldable pub find_macro_in : Str → List Str → Option (Str × ℕ)
unfolding find match
find_macro_in line [] = none
find_macro_in line (macro ∷ macros) =
    let rest = find_macro_in line macros in
    if contains line macro
    then elim (match (macro_call macro) line) [
      | none ↦ rest
      | some m ↦ some (macro, length (group_of line m 1))
    ]
    else rest

-- `none` is `(None, -1)`.
unfoldable pub find_check_macro : Str → Option (Str × ℕ)
unfolding find_macro_in
find_check_macro line = find_macro_in line check_macros

abbrev pub operator_tokens : List Str
operator_tokens =
    codes "<<"
    ∷ codes "<<="
    ∷ codes ">>"
    ∷ codes ">>="
    ∷ codes "->*"
    ∷ codes "->"
    ∷ codes "&&"
    ∷ codes "||"
    ∷ codes "=="
    ∷ codes "!="
    ∷ codes ">="
    ∷ codes ">"
    ∷ codes "<="
    ∷ codes "<"
    ∷ codes "("
    ∷ []

-- `^\s*(<<|<<=|>>|>>=|->\*|->|&&|\|\||==|!=|>=|>|<=|<|\()(.*)$`
abbrev pub next_operator : Regex
next_operator =
    at_start ⨾ star space ⨾ group 1 (one_text operator_tokens) ⨾ group 2 (star any_char) ⨾ at_end

-- `^([^-=!<>()&|]+)(.*)$` and `^(\s*\S)(.*)$`
abbrev pub plain_operand : Regex
plain_operand =
    at_start ⨾ group 1 (plus (none_of (codes "-=!<>()&|"))) ⨾ group 2 (star any_char) ⨾ at_end

abbrev pub one_operand_char : Regex
one_operand_char = at_start ⨾ group 1 (star space ⨾ ink) ⨾ group 2 (star any_char) ⨾ at_end

-- What one round of the loop does: return from `CheckCheck`, go on with a left operand and what is
-- left of the expression, or leave the loop with them and an operator and right operand.
pub data OperandRound : Type 0 where
  give_up : OperandRound
  go_on : Str → Str → OperandRound
  found_operator : Str → Str → Str → OperandRound
  no_operator : Str → OperandRound

-- `if token == '('`
unfoldable pub parenthesized : Str → Str → OperandRound
unfolding find_end_of_expression_in_line
parenthesized lhs expression = elim (find_end_of_expression_in_line expression 0 (codes "(")) [
  | closed end ↦ go_on (lhs ++ b'(' ∷ take end expression) (drop end expression)
  | _ ↦ give_up
]

abbrev pub after_token : Str → Str → Str → OperandRound
after_token lhs token expression =
    if token =s codes "("
    then parenthesized lhs expression
    else if is_in token (codes "&&" ∷ codes "||" ∷ [])
    then give_up
    else if is_in token
        (codes "<<" ∷ codes "<<=" ∷ codes ">>" ∷ codes ">>=" ∷ codes "->*" ∷ codes "->" ∷ [])
    then go_on (lhs ++ token) expression
    else found_operator lhs token expression

unfoldable pub plain_round : Str → Str → OperandRound
unfolding match
plain_round lhs expression = elim (match plain_operand expression) [
  | some m ↦ go_on (lhs ++ group_of expression m 1) (group_of expression m 2)
  | none ↦ elim (match one_operand_char expression) [
    | some m ↦ go_on (lhs ++ group_of expression m 1) (group_of expression m 2)
    | none ↦ no_operator lhs
  ]
]

unfoldable pub operand_round : Str → Str → OperandRound
unfolding match parenthesized plain_round
operand_round lhs expression = elim (match next_operator expression) [
  | some m ↦ after_token lhs (group_of expression m 1) (group_of expression m 2)
  | none ↦ plain_round lhs expression
]

-- `(lhs, operator, rhs)`; where the loop ends with no operator, two empty texts
pub data Operands : Type 0 where
  none_replaceable : Operands
  operands : Str → Str → Str → Operands

-- `while expression`, on fuel; `none` is running out of it
unfoldable pub parse_operands : ℕ → Str → Str → Option Operands
unfolding operand_round
parse_operands fuel lhs [] = some (operands lhs [] [])
parse_operands zero lhs (c ∷ expression) = none
parse_operands (suc fuel) lhs (c ∷ expression) = elim (operand_round lhs (c ∷ expression)) [
  | give_up ↦ some none_replaceable
  | go_on lhs' rest ↦ parse_operands fuel lhs' rest
  | found_operator lhs' operator rhs ↦ some (operands lhs' operator rhs)
  | no_operator lhs' ↦ some (operands lhs' [] [])
]

-- The text between the parentheses, over one line or several.
abbrev pub expression_text : List Str → ℕ → Str → ℕ → Str → ℕ → ℕ → Str
expression_text elided linenum line start_pos last_line end_line end_pos =
    if linenum == end_line
    then slice line (start_pos + 1) (end_pos - 1)
    else drop (start_pos + 1) line
      ++ joined (take (end_line - (linenum + 1)) (drop (linenum + 1) elided))
      ++ take (end_pos - 1) last_line

-- `^([-+]?(\d+|0[xX][0-9a-fA-F]+)[lLuU]{0,3}|".*"|\'.*\')$`
abbrev pub hex_digit : Regex
hex_digit = one_of (λ c. is_digit c || leb b'a' c && leb c b'f' || leb b'A' c && leb c b'F')

abbrev pub suffix_letter : Regex
suffix_letter = any_of (codes "lLuU")

abbrev pub constant : Regex
constant =
    at_start
    ⨾ group 1 (
        either
          (opt (any_of (codes "-+"))
            ⨾ group 2 (either (plus digit) (char b'0' ⨾ any_of (codes "xX") ⨾ plus hex_digit))
            ⨾ opt (suffix_letter ⨾ opt (suffix_letter ⨾ opt suffix_letter)))
          (either (char b'"' ⨾ star any_char ⨾ char b'"')
            (char b'\'' ⨾ star any_char ⨾ char b'\'')))
    ⨾ at_end

unfoldable pub replacement_reports : Str → ℕ → Str → Operands → List Report
unfolding find strip match
replacement_reports filename linenum check_macro none_replaceable = []
replacement_reports filename linenum check_macro (operands lhs operator rhs) =
    report_if
      (not (is_empty lhs || is_empty operator || is_empty rhs)
        && not (contains rhs (codes "&&") || contains rhs (codes "||"))
        && (matches constant (strip lhs) || matches constant (strip rhs)))
      (report filename linenum "readability/check" 2 (
        codes "Consider using "
        ++ check_replacement check_macro operator
        ++ codes " instead of "
        ++ check_macro
        ++ codes "(a "
        ++ operator
        ++ codes " b)"))

-- `\s*;`
abbrev pub semicolon_next : Regex
semicolon_next = star space ⨾ char b';'

-- The call of a macro, from its opening parenthesis. Each round of the loop shortens the expression.
unfoldable pub check_macro_call : Str → List Str → ℕ → Str → Str × ℕ → Option (List Report)
unfolding close_expression match parse_operands replacement_reports
check_macro_call filename elided linenum line (check_macro, start_pos) = do
  place ← close_expression elided linenum start_pos
  elim place.pos [
    | none ↦ some []
    | some end_pos ↦ if not (matches semicolon_next (drop end_pos place.line)) then some [] else (do
      let expression =
          expression_text elided linenum line start_pos place.line place.linenum end_pos
      parsed ← parse_operands (length expression) [] expression
      some (replacement_reports filename linenum check_macro parsed))
  ]

-- `none` is an index out of range.
unfoldable pub check_check : Str → List Str → ℕ → Option (List Report)
unfolding find_check_macro check_macro_call
check_check filename elided linenum = do
  line ← get_elem? elided linenum
  elim (find_check_macro line) [
    | none ↦ some []
    | some call ↦ check_macro_call filename elided linenum line call
  ]
