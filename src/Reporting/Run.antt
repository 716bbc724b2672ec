-- ===== src/Reporting/Run.antt =====
-- Calls of `Error` in the course of the checks of a file: the suppressions, the state of
-- `_CppLintState` and the lines written to the standard error so far.
pub mod Tallied
use core_arbiter.Prelude.{Option, some, List, ◌++◌}
use core_arbiter.Prelude.Fallible.{◌>>=◌}
use core_arbiter.Str.{Str}
use core_arbiter.LintState.{LintState}
use core_arbiter.Nolint.{Suppressions}
use core_arbiter.Report.{Report}
use core_arbiter.Reporting.{errors}

pub record Run : Type 0 where
  pub suppressions : Suppressions
  pub lint : LintState
  pub written : List Str

-- The calls of `Error` that a check makes; `none` is a failed assertion.
unfoldable pub emit : List Report → Run → Option Run
unfolding errors
emit reports run = do
  (lint, out) ← errors run.suppressions reports run.lint
  some (record run { lint = lint; written = run.written ++ out })

-- A check that raises, or whose reports are emitted.
abbrev pub emit_of : Option (List Report) → Run → Option Run
emit_of check run = check >>= λ reports. emit reports run

-- The reports of a check that changes the suppressions. What it says of a NOLINT comment is of the
-- line of that comment, and the comments after it suppress messages of later lines only.
abbrev pub emit_with : Option (Suppressions × List Report) → Run → Option Run
emit_with check run = check >>= λ r. emit r.1 (record run { suppressions = r.0 })
