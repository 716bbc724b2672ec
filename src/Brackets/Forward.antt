-- ===== src/Brackets/Forward.antt =====
-- `FindEndOfExpressionInLine` and `CloseExpression`. The stack is a list with its top first.
pub mod Bounds
pub mod Later
pub mod Balanced
use core_arbiter.Prelude.{
  ℕ, ◌+◌, ◌≡◌, refl, Bool, false, not, ◌&&◌, ◌||◌, Option, none, some, List, [], ◌∷◌, reverse, ◌==◌,
  if◌then◌else◌, length, get_elem?, take, drop,
}
use core_arbiter.Str.{Str, codes, char_in}
use core_arbiter.Regex.{
  Regex, star, at_end, word_boundary, char, any_of, space, text, ◌⨾◌, match, search_regex, matches,
  is_found,
}
use core_arbiter.Cleanse.RawStrings.{closing}

-- `(i + 1, None)`, `(-1, None)` and `(-1, stack)`
pub data EndResult : Type 0 where
  closed : ℕ → EndResult
  unbalanced : EndResult
  still_open : Str → EndResult

-- What the body of the loop does: go on with a stack, or return.
pub data Step : Type 0 where
  go_on : Str → Step
  stop : EndResult → Step

-- `while stack and stack[-1] == c: stack.pop()`
unfoldable pub pop_while : ℕ → Str → Str
pop_while c [] = []
pop_while c (top ∷ stack) = let rest = pop_while c stack in if top == c then rest else top ∷ stack

-- `stack.pop()`, and the given result if that empties the stack
abbrev pub pop_or_stop : Str → EndResult → Step
pop_or_stop [] r = stop r
pop_or_stop (c ∷ stack) r = go_on (c ∷ stack)

-- `\boperator\s*$`
abbrev pub operator_at_end : Regex
operator_at_end = word_boundary ⨾ text (codes "operator") ⨾ star space ⨾ at_end

abbrev pub last_is : ℕ → Str → Bool
last_is c [] = false
last_is c (d ∷ before) = d == c

-- `if stack and stack[-1] == c: stack.pop(); if not stack: return r`
abbrev pub pop_if : ℕ → Str → EndResult → Step
pop_if c [] r = go_on []
pop_if c (top ∷ stack) r = if top == c then pop_or_stop stack r else go_on (top ∷ stack)

-- The stack has its opening bracket on top, or the brackets are mismatched.
abbrev pub pairs : ℕ → ℕ → Bool
pairs opening closing =
    opening == b'(' && closing == b')'
    || opening == b'[' && closing == b']'
    || opening == b'{' && closing == b'}'

abbrev pub close_with : ℕ → ℕ → Str → Step
close_with char i [] = stop unbalanced
close_with char i (top ∷ stack) =
    if pairs top char then pop_or_stop stack (closed (i + 1)) else stop unbalanced

abbrev pub stop_if_empty : Str → Step
stop_if_empty [] = stop unbalanced
stop_if_empty (c ∷ stack) = go_on (c ∷ stack)

-- `i > 0 and (line[i - 1] == '-' or Search(r'\boperator\s*$', line[0:i - 1]))`; `before` is
-- `line[0:i]`, last character first.
unfoldable pub is_arrow_or_operator : Str → Bool
unfolding search_regex
is_arrow_or_operator [] = false
is_arrow_or_operator (d ∷ before) = d == b'-' || is_found operator_at_end (reverse before)

-- `i > 0 and Search(r'\boperator\s*$', line[0:i])`
unfoldable pub is_operator_before : Str → Bool
unfolding search_regex
is_operator_before [] = false
is_operator_before (d ∷ before) = is_found operator_at_end (reverse (d ∷ before))

-- The body of the loop at `line[i] = char`.
unfoldable pub end_step : Str → ℕ → ℕ → Str → Step
unfolding is_arrow_or_operator is_operator_before pop_while
end_step before i char stack =
    if char_in char (codes "([{")
    then go_on (char ∷ stack)
    else if char == b'<'
    then (if last_is b'<' before
        then pop_if b'<' stack unbalanced
        else if is_operator_before before
        then go_on stack
        else go_on (b'<' ∷ stack))
    else if char_in char (codes ")]}")
    then close_with char i (pop_while b'<' stack)
    else if char == b'>'
    then (if is_arrow_or_operator before then go_on stack else pop_if b'<' stack (closed (i + 1)))
    else if char == b';'
    then stop_if_empty (pop_while b'<' stack)
    else go_on stack

-- `for i in xrange(startpos, len(line))`, over the rest of the line.
unfoldable pub end_loop : Str → ℕ → Str → Str → EndResult
unfolding end_step
end_loop before i [] stack = still_open stack
end_loop before i (char ∷ rest) stack = elim (end_step before i char stack) [
  | go_on s ↦ end_loop (char ∷ before) (i + 1) rest s
  | stop r ↦ r
]

unfoldable pub find_end_of_expression_in_line : Str → ℕ → Str → EndResult
unfolding end_loop
find_end_of_expression_in_line line startpos stack =
    end_loop (reverse (take startpos line)) startpos (drop startpos line) stack

-- `(line, linenum, pos)`; `none` for the position is -1.
pub record Place : Type 0 where
  pub line : Str
  pub linenum : ℕ
  pub pos : Option ℕ

-- `while stack and linenum < clean_lines.NumLines() - 1`: the lines after `linenum`, what the search
-- in the last line gave, and that line.
unfoldable pub close_loop : List Str → ℕ → ℕ → Str → EndResult → Place
unfolding find_end_of_expression_in_line
close_loop later num_lines linenum line (closed pos) = record {
  line = line;
  linenum = linenum;
  pos = some pos;
}
close_loop later num_lines linenum line unbalanced = record {
  line = line;
  linenum = num_lines;
  pos = none;
}
close_loop later num_lines linenum line (still_open []) = record {
  line = line;
  linenum = num_lines;
  pos = none;
}
close_loop [] num_lines linenum line (still_open (c ∷ stack)) = record {
  line = line;
  linenum = num_lines;
  pos = none;
}
close_loop (next ∷ later) num_lines linenum line (still_open (c ∷ stack)) =
    close_loop later num_lines (linenum + 1) next
      (find_end_of_expression_in_line next 0 (c ∷ stack))

-- `<[<=]`
abbrev pub shift_or_le : Regex
shift_or_le = char b'<' ⨾ any_of (codes "<=")

-- From the character `c` at `pos` of the line.
abbrev pub place_from : List Str → ℕ → Str → ℕ → ℕ → Place
place_from elided linenum line pos c =
    if not (char_in c (codes "({[<")) || matches shift_or_le (drop pos line)
    then record { line = line; linenum = length elided; pos = none }
    else close_loop (drop (linenum + 1) elided) (length elided) linenum line
        (find_end_of_expression_in_line line pos [])

abbrev pub close_at : List Str → ℕ → Str → ℕ → Option ℕ → Option Place
close_at elided linenum line pos none = none
close_at elided linenum line pos (some c) = some (place_from elided linenum line pos c)

-- `CloseExpression`, given the list `elided`; `none` is the exception of an index out of range.
unfoldable pub close_expression : List Str → ℕ → ℕ → Option Place
unfolding close_loop match
close_expression elided linenum pos = elim (get_elem? elided linenum) [
  | none ↦ none
  | some line ↦ close_at elided linenum line pos (get_elem? line pos)
]
