-- ===== src/Nesting/File.antt =====
-- The part of `ProcessFileData` that follows the blocks of a file.
pub mod Total
use core_arbiter.Prelude.{Option, some, List, [], ◌∷◌, ◌++◌}
use core_arbiter.Str.{Str, codes}
use core_arbiter.Cleanse.Lines.{CleansedLines, cleansed_lines}
use core_arbiter.Cleanse.MultiLine.{remove_multi_line_comments}
use core_arbiter.Nesting.Blocks.{initial_nesting_state, NestingState, check_completed_blocks}
use core_arbiter.Nesting.Update.{update_lines}
use core_arbiter.Prelude.Fallible.{◌>>=◌}
use core_arbiter.Report.{Report}
use core_arbiter.Prelude.{none}

abbrev pub with_markers : List Str → List Str
with_markers lines =
    codes "// marker so line numbers and indices both start at 1"
    ∷ (lines ++ codes "// marker so line numbers end in a known way" ∷ [])

abbrev pub report_if_any : Option Report → List Report
report_if_any none = []
report_if_any (some r) = r ∷ []

-- What the checks of the lines read, and the report of `RemoveMultiLineComments`.
unfoldable pub prepare : Str → List Str → Option (CleansedLines × List Report)
unfolding remove_multi_line_comments cleansed_lines
prepare filename lines = do
  (left, report) ← remove_multi_line_comments filename (with_markers lines)
  clean_lines ← cleansed_lines left
  some (clean_lines, report_if_any report)

-- `Update` on every line, then `CheckCompletedBlocks`.
unfoldable pub block_reports : Str → CleansedLines → Option (List Report)
unfolding update_lines check_completed_blocks
block_reports filename clean_lines = do
  (st, reports) ← update_lines filename clean_lines 0 clean_lines.elided initial_nesting_state
  some (reports ++ check_completed_blocks filename st)
