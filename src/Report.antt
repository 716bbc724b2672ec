-- ===== src/Report.antt =====
-- What the checks of scripts/cpplint.py hand to the callback `error(filename, linenum, category,
-- confidence, message)`. A check returns its reports in the order of the calls.
use core_arbiter.Prelude.{ℕ, Bool, List, [], ◌∷◌, String, if◌then◌else◌}
use core_arbiter.Str.{Str, codes}

pub record Report : Type 0 where
  pub filename : Str
  pub linenum : ℕ
  pub category : Str
  pub confidence : ℕ
  pub message : Str

-- `error(filename, linenum, category, confidence, message)`
abbrev pub report : Str → ℕ → String → ℕ → Str → Report
report filename linenum category confidence message = record {
  filename = filename;
  linenum = linenum;
  category = codes category;
  confidence = confidence;
  message = message;
}

-- A call of `error` under a test.
abbrev pub report_if : Bool → Report → List Report
report_if b r = if b then r ∷ [] else []
