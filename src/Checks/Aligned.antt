-- ===== src/Checks/Aligned.antt =====
-- The four lists of `CleansedLines` side by side, and a line number within them.
use core_arbiter.Prelude.{ℕ, ◌<◌, ◌≡◌, length}
use core_arbiter.Cleanse.Lines.{CleansedLines}

pub record Aligned (c : CleansedLines) (linenum : ℕ) : Type 0 where
  pub elided : length c.elided ≡ c.num_lines
  pub lines : length c.lines ≡ c.num_lines
  pub raw_lines : length c.raw_lines ≡ c.num_lines
  pub plain : length c.lines_without_raw_strings ≡ c.num_lines
  pub within : linenum < c.num_lines
