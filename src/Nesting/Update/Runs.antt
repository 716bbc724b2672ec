-- ===== src/Nesting/Update/Runs.antt =====
-- Runs of `Update` over several lines.
use native.Mathlib.Nat.{add-zero}
use core_arbiter.Prelude.{
  ℕ, suc, ◌+◌, ◌≤◌, ◌≡◌, Option, none, some, List, [], ◌∷◌, ◌++◌, arith, length,
}
use core_arbiter.Str.{Str}
use core_arbiter.Cleanse.Lines.{CleansedLines}
use core_arbiter.Nesting.Blocks.{NestingState}
use core_arbiter.Nesting.Update.{update_line, update_lines}
use core_arbiter.Prelude.Fallible.{◌>>=◌, Returns, Returns-bind}
use core_arbiter.Report.{Report}

-- The run returns, and its last state has the property.
abbrev pub Ends : (NestingState → Type 0) → Option (NestingState × List Report) → Type 0
Ends P o = Returns (λ r. P r.0) o

-- The lines from `linenum` on stand in the file.
abbrev pub InFile : CleansedLines → ℕ → List Str → Type 0
InFile clean_lines linenum lines =
    (linenum + length lines ≤ length clean_lines.elided)
    × (linenum + length lines ≤ length clean_lines.raw_lines)

with_reports :
    (P : NestingState → Type 0) (reports : List Report) (o : Option (NestingState × List Report))
    → Ends P o
    → Ends P (o >>= λ r. some (r.0, reports ++ r.1))
with_reports P reports none h = h
with_reports P reports (some r) h = h

without_reports :
    (P : NestingState → Type 0) (reports : List Report) (o : Option (NestingState × List Report))
    → Ends P (o >>= λ r. some (r.0, reports ++ r.1))
    → Ends P o
without_reports P reports none h = h
without_reports P reports (some r) h = h

module _ (filename : Str) (clean_lines : CleansedLines) (P Q : NestingState → Type 0) where
  pub update_lines-cons :
      (linenum : ℕ) (line : Str) (lines : List Str) (st : NestingState)
      → Ends P (update_line filename clean_lines linenum line st)
      → ((s : NestingState)
          → P s
          → Ends Q (update_lines filename clean_lines (linenum + 1) lines s))
      → Ends Q (update_lines filename clean_lines linenum (line ∷ lines) st)
  unfolding update_lines
  update_lines-cons linenum line lines st h k =
      Returns-bind (λ r. P r.0) (λ r. Q r.0) (update_line filename clean_lines linenum line st) _ h
        (λ r p.
          with_reports Q r.1 (update_lines filename clean_lines (linenum + 1) lines r.0) (k r.0 p))

  pub update_lines-append :
      (a b : List Str) (linenum : ℕ) (st : NestingState)
      → Ends P (update_lines filename clean_lines linenum a st)
      → ((s : NestingState)
          → P s
          → Ends Q (update_lines filename clean_lines (linenum + length a) b s))
      → Ends Q (update_lines filename clean_lines linenum (a ++ b) st)
  unfolding update_lines
  update_lines-append [] b linenum st h k = rw (add-zero linenum) at (k st h)
  update_lines-append (line ∷ a) b linenum st h k =
      go (update_line filename clean_lines linenum line st) h (λ s p.
        update_lines-append a b (linenum + 1) s p (λ t q.
          let e : linenum + 1 + length a ≡ linenum + suc (length a) = omega arith in rw e (k t q)))
    where
      go :
          (o : Option (NestingState × List Report))
          → Ends P (
              o >>= λ r.
              (update_lines filename clean_lines (linenum + 1) a r.0 >>= λ q.
              some (q.0, r.1 ++ q.1)))
          → ((s : NestingState)
              → Ends P (update_lines filename clean_lines (linenum + 1) a s)
              → Ends Q (update_lines filename clean_lines (linenum + 1) (a ++ b) s))
          → Ends Q (
              o >>= λ r.
              (update_lines filename clean_lines (linenum + 1) (a ++ b) r.0 >>= λ q.
              some (q.0, r.1 ++ q.1)))
      go none h ih = h
      go (some r) h ih = with_reports Q r.1 _ (ih r.0 (without_reports P r.1 _ h))

pub update_lines-nil :
    (filename : Str) (clean_lines : CleansedLines) (P : NestingState → Type 0) (linenum : ℕ)
    (st : NestingState)
    → P st
    → Ends P (update_lines filename clean_lines linenum [] st)
unfolding update_lines
update_lines-nil filename clean_lines P linenum st h = h
