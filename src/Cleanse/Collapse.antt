-- ===== src/Cleanse/Collapse.antt =====
-- `CleansedLines._CollapseStrings`: strings and character constants become `""` and `''`. A result of
-- `none` stands for an exception or for fuel that ran out.
pub mod Total
use core_arbiter.Prelude.{
  ℕ, zero, suc, ◌+◌, ◌≡◌, refl, Bool, ◌&&◌, ◌||◌, Option, none, some, [], ◌∷◌, ◌++◌, leb,
  if◌then◌else◌, length, drop,
}
use core_arbiter.Str.{Str, codes, ◌=s◌, find, replace}
use core_arbiter.Regex.{
  Regex, one_of, either, star, group, at_start, at_end, word_boundary, is_digit, is_word, char,
  any_char, any_of, none_of, space, plus, opt, text, ◌⨾◌, group_text, match, search_regex, sub,
  matches, is_found,
}

-- `_RE_PATTERN_INCLUDE`: `^\s*#\s*include\s*([<"])([^>"]*)[>"].*$`
abbrev pub include_line : Regex
include_line =
    at_start
    ⨾ star space
    ⨾ char b'#'
    ⨾ star space
    ⨾ text (codes "include")
    ⨾ star space
    ⨾ group 1 (any_of (codes "<\""))
    ⨾ group 2 (star (none_of (codes ">\"")))
    ⨾ any_of (codes ">\"")
    ⨾ star any_char
    ⨾ at_end

abbrev pub is_hex : ℕ → Bool
is_hex c = is_digit c || leb b'a' c && leb c b'f' || leb b'A' c && leb c b'F'

-- `_RE_PATTERN_CLEANSE_LINE_ESCAPES`: `\\([abfnrtv?"\\\']|\d+|x[0-9a-fA-F]+)`
abbrev pub line_escapes : Regex
line_escapes =
    char b'\\'
    ⨾ either (any_of (codes "abfnrtv?\"\\'"))
        (either (plus (one_of is_digit)) (char b'x' ⨾ plus (one_of is_hex)))

-- `^([^'"]*)(['"])(.*)$`
abbrev pub first_quote : Regex
first_quote =
    at_start
    ⨾ group 1 (star (none_of (codes "'\"")))
    ⨾ group 2 (any_of (codes "'\""))
    ⨾ group 3 (star any_char)
    ⨾ at_end

-- `\b(?:0[bBxX]?|[1-9])[0-9a-fA-F]*$`
abbrev pub ends_in_digits : Regex
ends_in_digits =
    word_boundary
    ⨾ either (char b'0' ⨾ opt (any_of (codes "bBxX"))) (one_of (λ c. leb b'1' c && leb c b'9'))
    ⨾ star (one_of is_hex)
    ⨾ at_end

-- `^((?:\'?[0-9a-zA-Z_])*)(.*)$`
abbrev pub rest_of_literal : Regex
rest_of_literal =
    at_start ⨾ group 1 (star (opt (char b'\'') ⨾ one_of is_word)) ⨾ group 2 (star any_char) ⨾ at_end

-- What one round of the loop does: an exception, the result, or the text
-- collapsed so far and the text left.
pub data Round : Type 0 where
  raised : Round
  finished : Str → Round
  goes_on : Str → Str → Round

abbrev pub quoted : Str → Str → Str → Str → ℕ → Option ℕ → Round
quoted collapsed elided head tail quote none = finished (collapsed ++ elided)
quoted collapsed elided head tail quote (some second) =
    goes_on (collapsed ++ head ++ quote ∷ quote ∷ []) (drop (second + 1) tail)

abbrev pub digits_at : Str → Str → Str → Option Str → Option Str → Round
digits_at collapsed elided head (some literal) (some rest) =
    goes_on (collapsed ++ head ++ replace literal (codes "'") []) rest
digits_at collapsed elided head _ _ = raised

-- A digit separator: the literal goes on behind the quote.
unfoldable pub separated : Str → Str → Str → Str → Round
unfolding replace match
separated collapsed elided head tail = elim (match rest_of_literal (b'\'' ∷ tail)) [
  | none ↦ raised
  | some m ↦
      digits_at collapsed elided head (group_text (b'\'' ∷ tail) m 1)
        (group_text (b'\'' ∷ tail) m 2)
]

-- At the first quote of the text, `head`, `quote` and `tail` being the groups.
abbrev pub at_quote : Str → Str → Option Str → Option Str → Option Str → Round
at_quote collapsed elided (some head) (some quote) (some tail) =
    if quote =s codes "\""
    then quoted collapsed elided head tail b'"' (find tail (codes "\""))
    else if is_found ends_in_digits head
    then separated collapsed elided head tail
    else quoted collapsed elided head tail b'\'' (find tail (codes "'"))
at_quote collapsed elided _ _ _ = raised

unfoldable pub collapse_round : Str → Str → Round
unfolding match find search_regex separated
collapse_round collapsed elided = elim (match first_quote elided) [
  | none ↦ finished (collapsed ++ elided)
  | some m ↦
      at_quote collapsed elided (group_text elided m 1) (group_text elided m 2)
        (group_text elided m 3)
]

-- `while True`
unfoldable pub collapse_from : ℕ → Str → Str → Option Str
unfolding collapse_round
collapse_from zero collapsed elided = none
collapse_from (suc fuel) collapsed elided = elim (collapse_round collapsed elided) [
  | raised ↦ none
  | finished out ↦ some out
  | goes_on done rest ↦ collapse_from fuel done rest
]

-- Each round leaves a shorter text, so its length and one is enough fuel.
unfoldable pub collapse_strings : Str → Option Str
unfolding collapse_from sub match
collapse_strings elided =
    if matches include_line elided
    then some elided
    else let plain = sub line_escapes [] elided in collapse_from (length plain + 1) [] plain
