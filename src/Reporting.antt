-- ===== src/Reporting.antt =====
-- `_ShouldPrintError` and `Error`.
pub mod LastFilter
pub mod Sums
pub mod Run
use core_arbiter.Prelude.{
  ℕ, Bool, true, false, not, Option, none, some, List, [], ◌∷◌, ◌++◌, ltb, if◌then◌else◌, drop,
}
use core_arbiter.Str.Decimal.{decimal}
use core_arbiter.Str.{Str, codes, ◌=s◌, starts_with}
use core_arbiter.LintState.{LintState, increment_error_count}
use core_arbiter.Nolint.{Suppressions, is_error_suppressed_by_nolint}
use core_arbiter.Report.{Report}
use core_arbiter.Str.Decimal.{decimal}

-- The loop over the filters; `none` is the assertion that fails.
unfoldable pub filter_loop : Str → Bool → List Str → Option Bool
filter_loop category is_filtered [] = some is_filtered
filter_loop category is_filtered (one_filter ∷ filters) =
    elim (starts_with one_filter (codes "-")) [
      | true ↦
          filter_loop category
            (if starts_with category (drop 1 one_filter) then true else is_filtered) filters
      | false ↦ elim (starts_with one_filter (codes "+")) [
        | true ↦
            filter_loop category
              (if starts_with category (drop 1 one_filter) then false else is_filtered) filters
        | false ↦ none
      ]
    ]

abbrev pub negated : Option Bool → Option Bool
negated none = none
negated (some b) = some (not b)

unfoldable pub should_print_error : Suppressions → LintState → Str → ℕ → ℕ → Option Bool
should_print_error sup st category confidence linenum =
    if is_error_suppressed_by_nolint category linenum sup
    then some false
    else if ltb confidence st.verbose_level
    then some false
    else negated (filter_loop category false st.filters)

-- What `Error` writes to the standard error.
unfoldable pub error_line : Str → Report → Str
unfolding decimal
error_line output_format r =
    let tail =
      r.message
      ++ codes "  ["
      ++ r.category
      ++ codes "] ["
      ++ decimal r.confidence
      ++ codes "]\n" in
    if output_format =s codes "vs7"
    then r.filename ++ codes "(" ++ decimal r.linenum ++ codes "):  " ++ tail
    else if output_format =s codes "eclipse"
    then r.filename ++ codes ":" ++ decimal r.linenum ++ codes ": warning: " ++ tail
    else r.filename ++ codes ":" ++ decimal r.linenum ++ codes ":  " ++ tail

-- The state and the lines written, of which there is one at most; `none` is a failed assertion.
unfoldable pub error : Suppressions → Report → LintState → Option (LintState × List Str)
error sup r st = elim (should_print_error sup st r.category r.confidence r.linenum) [
  | none ↦ none
  | some false ↦ some (st, [])
  | some true ↦ some (increment_error_count r.category st, error_line st.output_format r ∷ [])
]

-- Several calls in a row.
unfoldable pub errors : Suppressions → List Report → LintState → Option (LintState × List Str)
errors sup [] st = some (st, [])
errors sup (r ∷ rs) st = elim (error sup r st) [
  | none ↦ none
  | some (st', out) ↦ elim (errors sup rs st') [
    | none ↦ none
    | some (st'', outs) ↦ some (st'', out ++ outs)
  ]
]
