-- ===== src/Brackets/Backward.antt =====
-- `FindStartOfExpressionInLine` and `ReverseCloseExpression`. The stack is a list with its top first.
pub mod Bounds
use core_arbiter.Prelude.{
  ℕ, ◌+◌, Bool, true, false, not, ◌||◌, Option, none, some, List, [], ◌∷◌, reverse, ◌==◌,
  if◌then◌else◌, length, get_elem?, take, drop,
}
use core_arbiter.Str.{Str, codes, char_in}
use core_arbiter.Regex.{Regex, char, space, text, ◌⨾◌, match, search_regex, matches, is_found}
use core_arbiter.Brackets.Forward.{pop_while, operator_at_end, last_is, pairs, Place}

-- `(i, None)`, `(-1, None)` and `(-1, stack)`
pub data StartResult : Type 0 where
  opened : ℕ → StartResult
  unmatched : StartResult
  pending : Str → StartResult

-- What the body of the loop does: go on with a stack, go on past one more character, or return.
pub data BackStep : Type 0 where
  back : Str → BackStep
  back_two : BackStep
  give : StartResult → BackStep

-- `stack.pop()`, and the given result if that empties the stack
abbrev pub pop_or_give : Str → StartResult → BackStep
pop_or_give [] r = give r
pop_or_give (c ∷ stack) r = back (c ∷ stack)

-- `if stack and stack[-1] == '>': stack.pop(); if not stack: return (i, None)`
abbrev pub pop_angle : ℕ → Str → BackStep
pop_angle i [] = back []
pop_angle i (top ∷ stack) = if top == b'>' then pop_or_give stack (opened i) else back (top ∷ stack)

-- The stack has the closing bracket on top, or the brackets are mismatched.
abbrev pub open_with : ℕ → ℕ → Str → BackStep
open_with char i [] = give unmatched
open_with char i (top ∷ stack) =
    if pairs char top then pop_or_give stack (opened i) else give unmatched

abbrev pub give_if_empty : Str → BackStep
give_if_empty [] = give unmatched
give_if_empty (c ∷ stack) = back (c ∷ stack)

-- `\s>=\s`
abbrev pub greater_or_equal : Regex
greater_or_equal = space ⨾ text (codes ">=") ⨾ space

-- The test of the branch for `>`; `before` is `line[0:i]`, last character first, and `after` is
-- `line[i:]`.
unfoldable pub is_not_template_end : Str → Str → Bool
unfolding match search_regex
is_not_template_end [] after = false
is_not_template_end (d ∷ before) after =
    d == b'-'
    || matches greater_or_equal (d ∷ after)
    || is_found operator_at_end (reverse (d ∷ before))

-- The body of the loop at `line[i] = char`, `after` being the line behind it.
unfoldable pub start_step : Str → ℕ → Str → Str → BackStep
unfolding is_not_template_end pop_while
start_step before char after stack =
    if char_in char (codes ")]}")
    then back (char ∷ stack)
    else if char == b'>'
    then (if is_not_template_end before (char ∷ after) then back_two else back (b'>' ∷ stack))
    else if char == b'<'
    then (if last_is b'<' before then back_two else pop_angle (length before) stack)
    else if char_in char (codes "([{")
    then open_with char (length before) (pop_while b'>' stack)
    else if char == b';'
    then give_if_empty (pop_while b'>' stack)
    else back stack

-- `while i >= 0`, over `line[0:i + 1]`, last character first; after a second `i -= 1` one character
-- is passed without a look at it.
unfoldable pub start_loop : Bool → Str → Str → Str → StartResult
unfolding start_step
start_loop skip [] after stack = pending stack
start_loop true (char ∷ before) after stack = start_loop false before (char ∷ after) stack
start_loop false (char ∷ before) after stack = elim (start_step before char after stack) [
  | back s ↦ start_loop false before (char ∷ after) s
  | back_two ↦ start_loop true before (char ∷ after) stack
  | give r ↦ r
]

-- `line` up to `endpos`, that one included, is read from its end. The first number is `endpos + 1`.
unfoldable pub find_start_of_expression_in_line : Str → ℕ → Str → StartResult
unfolding start_loop
find_start_of_expression_in_line line behind stack =
    start_loop false (reverse (take behind line)) (drop behind line) stack

-- `while stack and linenum > 0`: the lines before `linenum`, last first, what the search in the last
-- line gave, and that line.
unfoldable pub reverse_loop : List Str → Str → StartResult → Place
unfolding find_start_of_expression_in_line
reverse_loop earlier line (opened pos) = record {
  line = line;
  linenum = length earlier;
  pos = some pos;
}
reverse_loop earlier line unmatched = record { line = line; linenum = 0; pos = none }
reverse_loop earlier line (pending []) = record { line = line; linenum = 0; pos = none }
reverse_loop [] line (pending (c ∷ stack)) = record { line = line; linenum = 0; pos = none }
reverse_loop (previous ∷ earlier) line (pending (c ∷ stack)) =
    reverse_loop earlier previous
      (find_start_of_expression_in_line previous (length previous) (c ∷ stack))

abbrev pub reverse_from : List Str → ℕ → Str → ℕ → ℕ → Place
reverse_from elided linenum line pos c =
    if not (char_in c (codes ")}]>"))
    then record { line = line; linenum = 0; pos = none }
    else reverse_loop (reverse (take linenum elided)) line
        (find_start_of_expression_in_line line (pos + 1) [])

abbrev pub reverse_at : List Str → ℕ → Str → ℕ → Option ℕ → Option Place
reverse_at elided linenum line pos none = none
reverse_at elided linenum line pos (some c) = some (reverse_from elided linenum line pos c)

-- `ReverseCloseExpression`, given the list `elided`; `none` is the exception of an index out of range.
unfoldable pub reverse_close_expression : List Str → ℕ → ℕ → Option Place
unfolding reverse_loop
reverse_close_expression elided linenum pos = elim (get_elem? elided linenum) [
  | none ↦ none
  | some line ↦ reverse_at elided linenum line pos (get_elem? line pos)
]
