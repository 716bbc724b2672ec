-- ===== src/Cleanse/RawStrings.antt =====
-- `CleanseRawStrings`. A result of `none` stands for an exception, or for fuel that ran out.
pub mod Shrink
pub mod Total
pub mod Chars
pub mod Start
pub mod Spec
use core_arbiter.Prelude.{
  ℕ, zero, suc, ◌+◌, ◌||◌, not, Option, none, some, List, [], ◌∷◌, ◌++◌, length, drop, ◌≡◌, refl,
  true, false,
}
use core_arbiter.Str.{Str, codes, char_in, find}
use core_arbiter.Regex.{
  Regex, one_of, either, star, lazy_star, group, at_start, at_end, word_boundary, char, any_char,
  none_of, text, is_blank, ◌⨾◌, matches, match, group_text, space,
}

-- `^(.*?)\b(?:R|u8R|uR|UR|LR)"([^\s\\()]*)\((.*)$`
abbrev pub raw_prefix : Regex
raw_prefix = either (text (codes "R")) (
    either (text (codes "u8R"))
      (either (text (codes "uR")) (either (text (codes "UR")) (text (codes "LR")))))

abbrev pub delimiter_char : Regex
delimiter_char = one_of (λ c. not (is_blank c || char_in c (codes "\\()")))

abbrev pub raw_start : Regex
raw_start =
    at_start
    ⨾ group 1 (lazy_star any_char)
    ⨾ word_boundary
    ⨾ raw_prefix
    ⨾ char b'"'
    ⨾ group 2 (star delimiter_char)
    ⨾ char b'('
    ⨾ group 3 (star any_char)
    ⨾ at_end

-- `^([^'"]|'(\\.|[^'])*'|"(\\.|[^"])*")*//`; its groups are not read
abbrev pub quoted_by : ℕ → Regex
quoted_by q = char q ⨾ star (either (char b'\\' ⨾ any_char) (none_of (q ∷ []))) ⨾ char q

abbrev pub in_line_comment : Regex
in_line_comment =
    at_start
    ⨾ star (either (none_of (codes "'\"")) (either (quoted_by b'\'') (quoted_by b'"')))
    ⨾ text (codes "//")

-- `^(\s*)\S`
abbrev pub leading_space : Regex
leading_space = at_start ⨾ group 1 (star space) ⨾ one_of (λ c. not (is_blank c))

-- One round of the loop that looks for the beginning of a raw string.
pub data Round : Type 0 where
  no_more : Round
  ended : Str → Round
  goes_on : Str → Str → Round

abbrev pub closing : Str → Str
closing name = b')' ∷ (name ++ b'"' ∷ [])

-- `matched.group(1)`, `matched.group(2)` and `matched.group(3)`
unfoldable pub take_out : Str → Str → Str → Round
take_out head name tail = elim (find tail (closing name)) [
  | none ↦ goes_on (closing name) (head ++ codes "\"\"")
  | some n ↦ ended (head ++ codes "\"\"" ++ drop (n + length (closing name)) tail)
]

abbrev pub round_at : Option Str → Option Str → Option Str → Round
round_at (some head) (some name) (some tail) = elim (matches in_line_comment head) [
  | true ↦ no_more
  | false ↦ take_out head name tail
]
round_at _ _ _ = no_more

unfoldable pub raw_round : Str → Round
unfolding take_out match
raw_round line = elim (match raw_start line) [
  | none ↦ no_more
  | some m ↦ round_at (group_text line m 1) (group_text line m 2) (group_text line m 3)
]

-- `while delimiter is None`: the delimiter and the line that the loop leaves.
unfoldable pub open_raw : ℕ → Str → Option (Option Str × Str)
unfolding raw_round
open_raw zero line = none
open_raw (suc fuel) line = elim (raw_round line) [
  | no_more ↦ some (none, line)
  | ended rest ↦ open_raw fuel rest
  | goes_on delimiter head ↦ some (some delimiter, head)
]

abbrev pub open_line : Str → Option (Option Str × Str)
open_line line = open_raw (length line + 1) line

-- The end of a raw string, at `stop` in the line: the leading space is kept.
abbrev pub resume : Option Str → Str → Option Str
resume none rest = none
resume (some lead) rest = some (lead ++ codes "\"\"" ++ rest)

abbrev pub lead_of : Str → Option Str
lead_of line = elim (match leading_space line) [ none ↦ none | some m ↦ group_text line m 1 ]

-- The body of `for line in raw_lines`.
unfoldable pub cleanse_line : Option Str → Str → Option (Option Str × Str)
unfolding open_raw find match
cleanse_line none line = open_line line
cleanse_line (some delimiter) line = elim (find line delimiter) [
  | none ↦ some (some delimiter, codes "\"\"")
  | some n ↦ elim (resume (lead_of line) (drop (n + length delimiter) line)) [
    | none ↦ none
    | some l ↦ open_line l
  ]
]

unfoldable pub cleanse_lines : Option Str → List Str → Option (List Str)
unfolding cleanse_line
cleanse_lines delimiter [] = some []
cleanse_lines delimiter (line ∷ lines) = elim (cleanse_line delimiter line) [
  | none ↦ none
  | some (d, l) ↦ elim (cleanse_lines d lines) [ none ↦ none | some ls ↦ some (l ∷ ls) ]
]

unfoldable pub cleanse_raw_strings : List Str → Option (List Str)
unfolding cleanse_lines
cleanse_raw_strings lines = cleanse_lines none lines
