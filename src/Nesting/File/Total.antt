-- ===== src/Nesting/File/Total.antt =====
-- Exceptions and fuel in the part of `ProcessFileData` that follows the blocks.

use core_arbiter.Prelude.{
  ℕ, ◌+◌, ◌≡◌, refl, ◌∙◌, inl, inr, Bool-cases, Option, none, some, List, [], ◌∷◌, ◌++◌, arith,
  length,
}
use core_arbiter.Str.{Str, codes}
use core_arbiter.Cleanse.Lines.{CleansedLines}
use core_arbiter.Cleanse.Lines.Same.{SameLength, cleansed_lines-SameLength}
use core_arbiter.Cleanse.MultiLine.{closes_comment, dummy, opens_comment}
use core_arbiter.Cleanse.MultiLine.OnePass.{Outcome, keep, outside, inside}
use core_arbiter.Cleanse.MultiLine.Refines.{behind, remove_multi_line_comments-outside}
use core_arbiter.Nesting.Blocks.{initial_nesting_state, NestingState, check_completed_blocks}
use core_arbiter.Nesting.File.{with_markers, report_if_any, prepare, block_reports}
use core_arbiter.Nesting.Update.{update_lines, enter_line}
use core_arbiter.Nesting.Update.Branches.{HasPps, run_line}
use core_arbiter.Nesting.Update.Runs.{Ends, InFile, update_lines-cons, update_lines-nil}
use core_arbiter.Prelude.Fallible.{Returns-some}
use core_arbiter.Prelude.Forall.{All, All-append}
use core_arbiter.Regex.Loops.{OneLine}
use core_arbiter.Report.{Report}
use core_arbiter.Prelude.{ap, length-append}
use core_arbiter.Cleanse.MultiLine.Result.{length-behind-outside}
use core_arbiter.Prelude.Fallible.{◌>>=◌}
use core_arbiter.Regex.Loops.{one_line}

dummy-OneLine : OneLine dummy
dummy-OneLine = (refl, (refl, (refl, (refl, tt))))

abbrev Lines : Outcome → Type 0
Lines out = All OneLine out.0

abbrev LinesIfAny : Option Outcome → Type 0
LinesIfAny none = Unit
LinesIfAny (some out) = Lines out

keep-Lines : (line : Str) (o : Outcome) → OneLine line → Lines o → Lines (keep line o)
keep-Lines line (lines, none) h k = (h, k)
keep-Lines line (lines, some n) h k = (h, k)

keep-dummy-Lines :
    (o : Option Outcome)
    → LinesIfAny o
    → LinesIfAny (elim o [ none ↦ none | some out ↦ some (keep dummy out) ])
keep-dummy-Lines none h = tt
keep-dummy-Lines (some out) h = keep-Lines dummy out dummy-OneLine h

unended_or-Lines :
    (lines : List Str) (o : Option Outcome)
    → All OneLine lines
    → LinesIfAny o
    → Lines (elim o [ none ↦ (lines, some 0) | some out ↦ keep dummy out ])
unended_or-Lines lines none h k = h
unended_or-Lines lines (some out) h k = keep-Lines dummy out dummy-OneLine k

mutual
  unfolding outside inside

  outside-Lines : (lines : List Str) → All OneLine lines → Lines (outside lines)
  outside-Lines [] h = tt
  outside-Lines (line ∷ lines) h = elim (Bool-cases (opens_comment line)) [
    | inr f ↦ rw (f, outside) (keep-Lines line (outside lines) h.0 (outside-Lines lines h.1))
    | inl t ↦ elim (Bool-cases (closes_comment line)) [
      | inl u ↦
          rw (t, outside)
            (rw u (keep-Lines dummy (outside lines) dummy-OneLine (outside-Lines lines h.1)))
      | inr v ↦
          rw (t, outside)
            (rw v (unended_or-Lines (line ∷ lines) (inside lines) h (inside-Lines lines h.1)))
    ]
  ]

  inside-Lines : (lines : List Str) → All OneLine lines → LinesIfAny (inside lines)
  inside-Lines [] h = tt
  inside-Lines (line ∷ lines) h = elim (Bool-cases (closes_comment line)) [
    | inl t ↦
        rw (t, inside) (keep-Lines dummy (outside lines) dummy-OneLine (outside-Lines lines h.1))
    | inr f ↦ rw (f, inside) (keep-dummy-Lines (inside lines) (inside-Lines lines h.1))
  ]

behind-Lines : (filename : Str) (o : Outcome) → Lines o → All OneLine (behind filename [] o).0
behind-Lines filename (lines, none) h = h
behind-Lines filename (lines, some n) h = h

-- Whatever the lines are.
update_lines-Ends :
    (filename : Str) (clean_lines : CleansedLines) (linenum : ℕ) (lines : List Str)
    (st : NestingState)
    → InFile clean_lines linenum lines
    → Ends (λ s. Unit {0}) (update_lines filename clean_lines linenum lines st)
update_lines-Ends filename clean_lines linenum [] st h =
    update_lines-nil filename clean_lines (λ s. Unit {0}) linenum st tt
update_lines-Ends filename clean_lines linenum (line ∷ lines) st (h, k) =
    let pps = (enter_line line st).pp_stack in
    update_lines-cons filename clean_lines (HasPps pps) (λ s. Unit {0}) linenum line lines st
      (run_line filename clean_lines linenum line lines st pps (h, k) refl)
      (λ s e.
        update_lines-Ends filename clean_lines (linenum + 1) lines s (omega arith, omega arith))

block_reports-Returns :
    (filename : Str) (raw : List Str) (clean_lines : CleansedLines)
    → SameLength raw clean_lines
    → (reports : List Report) × (block_reports filename clean_lines ≡ some reports)
unfolding block_reports
block_reports-Returns filename raw clean_lines same =
    let (r, e, u) =
      Returns-some (λ (r : NestingState × List Report). Unit {0})
        (update_lines filename clean_lines 0 clean_lines.elided initial_nesting_state)
        (update_lines-Ends filename clean_lines 0 clean_lines.elided initial_nesting_state (
          let e : length clean_lines.raw_lines ≡ length raw = ap length same.raw_is in
          (omega arith, omega (arith, same.elided, e)))) in
    (
      r.1 ++ check_completed_blocks filename r.0,
      ap (λ o. o >>= λ r. some (r.1 ++ check_completed_blocks filename r.0)) e,
    )

with_markers-Lines : (lines : List Str) → All OneLine lines → All OneLine (with_markers lines)
with_markers-Lines lines h = (
  one_line (codes "// marker so line numbers and indices both start at 1") refl,
  All-append OneLine lines (codes "// marker so line numbers end in a known way" ∷ []) h
      (one_line (codes "// marker so line numbers end in a known way") refl, tt),
)

length-with_markers : (lines : List Str) → length (with_markers lines) ≡ length lines + 2
length-with_markers lines =
    ground (arith, length-append lines (codes "// marker so line numbers end in a known way" ∷ []))

-- For lines without a newline in them the preparation of a file returns, with two lines more in each
-- of its lists, and on what it returns the pass of `Update` over all lines returns.
pub block_reports-prepare :
    (filename : Str) (lines : List Str)
    → All OneLine lines
    → (p : CleansedLines × List Report) × (prepare filename lines ≡ some p)
      × (length p.0.elided ≡ length lines + 2)
      × (reports : List Report) × (block_reports filename p.0 ≡ some reports)
unfolding prepare
block_reports-prepare filename lines h =
    let o : Outcome = outside (with_markers lines) in
    let left : List Str × Option Report = behind filename [] o in
    let (c, e, same) =
      cleansed_lines-SameLength left.0 (
        behind-Lines filename o
          (outside-Lines (with_markers lines) (with_markers-Lines lines h))) in
    let len : length left.0 ≡ length lines + 2 =
      length-behind-outside filename (with_markers lines) ∙ length-with_markers lines in
    let (reports, f) = block_reports-Returns filename left.0 c same in
    (
      (c, report_if_any left.1),
      rw (remove_multi_line_comments-outside filename (with_markers lines)) (rw e refl),
      same.elided ∙ len,
      reports,
      f,
    )
