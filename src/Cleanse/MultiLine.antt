-- ===== src/Cleanse/MultiLine.antt =====
-- `FindNextMultiLineCommentStart`, `FindNextMultiLineCommentEnd`,
-- `RemoveMultiLineCommentsFromRange` and `RemoveMultiLineComments`: multi-line comments become
-- lines that hold `/**/`.
pub mod OnePass
pub mod Search
pub mod Refines
pub mod Result
use core_arbiter.Prelude.{
  ℕ, zero, suc, ◌+◌, ◌-◌, ◌≡◌, refl, Bool, false, Option, none, some, List, [], ◌∷◌, leb,
  if◌then◌else◌, length, drop, set,
}
use core_arbiter.Str.{Str, codes, starts_with, ends_with, find_from, strip}
use core_arbiter.Regex.{is_none}
use core_arbiter.Report.{Report}
use core_arbiter.Regex.{text}

-- The test of `FindNextMultiLineCommentStart` on one line.
unfoldable pub opens_comment : Str → Bool
unfolding find_from strip
opens_comment line =
    let text = strip line in
    if starts_with text (codes "/*") then is_none (find_from text (codes "*/") 2) else false

-- The test of `FindNextMultiLineCommentEnd` on one line.
unfoldable pub closes_comment : Str → Bool
unfolding strip
closes_comment line = ends_with (strip line) (codes "*/")

-- `while lineix < len(lines)`: the first line from `lineix` on that passes the test.
unfoldable pub first_from : (Str → Bool) → List Str → ℕ → Option ℕ
first_from test [] lineix = none
first_from test (line ∷ lines) lineix =
    if test line then some lineix else first_from test lines (lineix + 1)

abbrev pub index_or_end : List Str → Option ℕ → ℕ
index_or_end lines none = length lines
index_or_end lines (some i) = i

unfoldable pub find_next_multi_line_comment_start : List Str → ℕ → ℕ
unfolding first_from
find_next_multi_line_comment_start lines lineix =
    index_or_end lines (first_from opens_comment (drop lineix lines) lineix)

unfoldable pub find_next_multi_line_comment_end : List Str → ℕ → ℕ
unfolding first_from
find_next_multi_line_comment_end lines lineix =
    index_or_end lines (first_from closes_comment (drop lineix lines) lineix)

abbrev pub dummy : Str
dummy = codes "/**/"

-- `for i in range(begin, begin + rounds)`
unfoldable pub clear_range : ℕ → ℕ → List Str → List Str
clear_range zero begin lines = lines
clear_range (suc rounds) begin lines = clear_range rounds (begin + 1) (set lines begin dummy)

unfoldable pub remove_multi_line_comments_from_range : List Str → ℕ → ℕ → List Str
unfolding clear_range
remove_multi_line_comments_from_range lines begin end = clear_range (end - begin) begin lines

abbrev pub no_end : Str → ℕ → Report
no_end filename begin = record {
  filename = filename;
  linenum = begin + 1;
  category = codes "readability/multiline_comment";
  confidence = 5;
  message = codes "Could not find end of multi-line comment";
}

-- The loop of `RemoveMultiLineComments`: the lines that it leaves and its report. `none` means that
-- the fuel ran out.
unfoldable pub remove_from : Str → ℕ → List Str → ℕ → Option (List Str × Option Report)
remove_from filename zero lines lineix = none
remove_from filename (suc fuel) lines lineix =
    let begin = find_next_multi_line_comment_start lines lineix in
    let end = find_next_multi_line_comment_end lines begin in
    let rest =
      remove_from filename fuel (remove_multi_line_comments_from_range lines begin (end + 1))
        (end + 1) in
    if leb (length lines) lineix
    then some (lines, none)
    else if leb (length lines) begin
    then some (lines, none)
    else if leb (length lines) end
    then some (lines, some (no_end filename begin))
    else rest

-- Each round passes a line at least, so the number of lines and one is enough fuel.
unfoldable pub remove_multi_line_comments : Str → List Str → Option (List Str × Option Report)
unfolding remove_from
remove_multi_line_comments filename lines = remove_from filename (length lines + 1) lines 0
