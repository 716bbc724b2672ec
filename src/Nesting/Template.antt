-- ===== src/Nesting/Template.antt =====
-- `InTemplateArgumentList`
pub mod Total
use core_arbiter.Prelude.{
  ℕ, zero, suc, ◌+◌, ◌-◌, Bool, true, false, Option, none, some, List, [], ◌∷◌, leb, ◌==◌,
  if◌then◌else◌, length, get_elem?, drop,
}
use core_arbiter.Str.{Str, codes, char_in}
use core_arbiter.Regex.{
  Regex, star, group, at_start, any_char, none_of, ◌⨾◌, Found, group_text, match,
}
use core_arbiter.Brackets.Forward.{Place, close_expression}

-- `^[^{};=\[\]\.<>]*(.)`
abbrev pub first_token : Regex
first_token = at_start ⨾ star (none_of (codes "{};=[].<>")) ⨾ group 1 any_char

-- What one round of the loop does: go on at a line and a position, return, or raise.
pub data Scan : Type 0 where
  scan_on : ℕ → ℕ → Scan
  answer : Bool → Scan
  fault : Scan

-- At a `<`: from where `CloseExpression` ends.
abbrev pub past_template : Option Place → Scan
past_template none = fault
past_template (some q) = elim q.pos [ none ↦ answer false | some p ↦ scan_on q.linenum p ]

-- The token, and the position behind it.
unfoldable pub at_token : List Str → ℕ → Str → ℕ → ℕ → Scan
unfolding close_expression
at_token elided linenum line token pos =
    if char_in token (codes "{};")
    then answer false
    else if char_in token (codes ">=[].")
    then answer true
    else if token == b'<'
    then past_template (close_expression elided linenum (pos - 1))
    else if leb (length line) (pos + 1)
    then scan_on (linenum + 1) 0
    else scan_on linenum (pos + 1)

abbrev pub token_of : Option Str → Option ℕ
token_of (some (c ∷ s)) = some c
token_of _ = none

abbrev pub at_match : List Str → ℕ → Str → ℕ → Found → Option ℕ → Scan
at_match elided linenum line pos m none = fault
at_match elided linenum line pos m (some token) = at_token elided linenum line token (pos + m.stop)

unfoldable pub scan_round : List Str → ℕ → Str → ℕ → Scan
unfolding match at_token
scan_round elided linenum line pos = elim (match first_token (drop pos line)) [
  | none ↦ scan_on (linenum + 1) 0
  | some m ↦ at_match elided linenum line pos m (token_of (group_text (drop pos line) m 1))
]

-- `while linenum < clean_lines.NumLines()`; `none` is an exception, or fuel that ran out.
unfoldable pub scan_from : ℕ → List Str → ℕ → ℕ → Option Bool
unfolding scan_round
scan_from zero elided linenum pos = none
scan_from (suc fuel) elided linenum pos = elim (get_elem? elided linenum) [
  | none ↦ some false
  | some line ↦ elim (scan_round elided linenum line pos) [
    | scan_on l p ↦ scan_from fuel elided l p
    | answer b ↦ some b
    | fault ↦ none
  ]
]

-- The characters of the lines, and one for each line: a round passes one of these.
abbrev pub size : List Str → ℕ
size [] = 0
size (line ∷ lines) = length line + 1 + size lines

unfoldable pub in_template_argument_list : List Str → ℕ → ℕ → Option Bool
unfolding scan_from
in_template_argument_list elided linenum pos = scan_from (size elided + 1) elided linenum pos
