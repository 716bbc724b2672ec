-- ===== src/Checks/AltTokens.antt =====
-- `CheckAltTokens` and its table.
pub mod Total
use core_arbiter.Checks.Macros.{lookup_str}
use core_arbiter.Str.{joined}
use core_arbiter.Prelude.{
  ℕ, zero, suc, ◌+◌, ◌-◌, not, ◌&&◌, ◌||◌, Option, none, some, List, [], ◌∷◌, ◌++◌, leb, ◌==◌,
  if◌then◌else◌, length, get_elem?, take, drop, is_empty,
}
use core_arbiter.Prelude.Fallible.{◌>>=◌}
use core_arbiter.Str.{Str, codes, ◌=s◌, is_in, contains, find, strip}
use core_arbiter.Regex.{
  Regex, Cursor, one_of, either, star, group, at_start, at_end, word_boundary, ahead, is_digit,
  char, any_char, any_of, none_of, space, ink, digit, plus, opt, text, one_text, ◌⨾◌, slice,
  span_of, match, run, matches,
}
use core_arbiter.Report.{Report, report, report_if}
use core_arbiter.Brackets.Forward.{closed, find_end_of_expression_in_line, close_expression}
use core_arbiter.Checks.Spacing.{group_of}

-- `_ALT_TOKEN_REPLACEMENT`
abbrev pub alt_token_replacement : List (Str × Str)
alt_token_replacement =
    (codes "and", codes "&&")
    ∷ (codes "bitor", codes "|")
    ∷ (codes "or", codes "||")
    ∷ (codes "xor", codes "^")
    ∷ (codes "compl", codes "~")
    ∷ (codes "bitand", codes "&")
    ∷ (codes "and_eq", codes "&=")
    ∷ (codes "or_eq", codes "|=")
    ∷ (codes "xor_eq", codes "^=")
    ∷ (codes "not", codes "!")
    ∷ (codes "not_eq", codes "!=")
    ∷ []

abbrev pub keys : List (Str × Str) → List Str
keys [] = []
keys ((k, v) ∷ rows) = k ∷ keys rows

-- `[ =()](` + '|'.join(...) + `)(?=[ (]|$)`; what follows a token admits one of them only, so that
-- their order, which is that of a dictionary, has no effect
abbrev pub alt_token : Regex
alt_token =
    any_of (codes " =()")
    ⨾ group 1 (one_text (keys alt_token_replacement))
    ⨾ ahead (either (any_of (codes " (")) at_end)

-- `finditer`, of group 1: the matches from left to right that do not overlap. The fuel is the length
-- of the text: each round passes a character.
unfoldable pub alt_tokens_from : ℕ → Str → Str → List Str
unfolding run
alt_tokens_from zero before s = []
alt_tokens_from (suc fuel) before [] = []
alt_tokens_from (suc fuel) before (x ∷ s) =
    let c : Cursor = record { before = before; after = x ∷ s; groups = [] } in
    elim (run alt_token c some) [
      | none ↦ alt_tokens_from fuel (x ∷ before) s
      | some d ↦
          elim (span_of 1 d.groups) [
            | none ↦ []
            | some (i, j) ↦ take (j - i) (drop (i - length before) (x ∷ s)) ∷ []
          ]
          ++ alt_tokens_from fuel d.before d.after
    ]

unfoldable pub alt_token_reports : Str → ℕ → List Str → List Report
alt_token_reports filename linenum [] = []
alt_token_reports filename linenum (token ∷ tokens) =
    report filename linenum "readability/alt_tokens" 2 (
      codes "Use operator "
      ++ lookup_str token alt_token_replacement
      ++ codes " instead of "
      ++ token)
    ∷ alt_token_reports filename linenum tokens

-- `^\s*#`
abbrev pub preprocessor_line : Regex
preprocessor_line = at_start ⨾ star space ⨾ char b'#'

unfoldable pub check_alt_tokens : Str → List Str → ℕ → Option (List Report)
unfolding match find alt_tokens_from alt_token_reports
check_alt_tokens filename elided linenum = do
  line ← get_elem? elided linenum
  some (
      if matches preprocessor_line line || contains line (codes "/*") || contains line (codes "*/")
      then []
      else alt_token_reports filename linenum (alt_tokens_from (length line) [] line))
