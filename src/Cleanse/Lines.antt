-- ===== src/Cleanse/Lines.antt =====
-- The constructor of the class `CleansedLines`.
pub mod Same
use core_arbiter.Prelude.{ℕ, Option, none, some, List, [], ◌∷◌, length}
use core_arbiter.Str.{Str}
use core_arbiter.Cleanse.Collapse.{collapse_strings}
use core_arbiter.Cleanse.Comments.{cleanse_comments}
use core_arbiter.Cleanse.RawStrings.{cleanse_raw_strings}

pub record CleansedLines : Type 0 where
  pub elided : List Str
  pub lines : List Str
  pub raw_lines : List Str
  pub num_lines : ℕ
  pub lines_without_raw_strings : List Str

-- The loop over `lines_without_raw_strings`: the lists `lines` and `elided`.
unfoldable pub cleanse_each : List Str → Option (List Str × List Str)
unfolding cleanse_comments collapse_strings
cleanse_each [] = some ([], [])
cleanse_each (line ∷ rest) = elim (collapse_strings line) [
  | none ↦ none
  | some collapsed ↦ elim (cleanse_each rest) [
    | none ↦ none
    | some (lines, elided) ↦
        some (cleanse_comments line ∷ lines, cleanse_comments collapsed ∷ elided)
  ]
]

abbrev pub with_lines : List Str → List Str → Option (List Str × List Str) → Option CleansedLines
with_lines raw plain none = none
with_lines raw plain (some (lines, elided)) = some (record {
  elided = elided;
  lines = lines;
  raw_lines = raw;
  num_lines = length raw;
  lines_without_raw_strings = plain;
})

unfoldable pub cleansed_lines : List Str → Option CleansedLines
unfolding cleanse_raw_strings cleanse_each
cleansed_lines raw = elim (cleanse_raw_strings raw) [
  | none ↦ none
  | some plain ↦ with_lines raw plain (cleanse_each plain)
]
