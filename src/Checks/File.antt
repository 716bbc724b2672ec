-- ===== src/Checks/File.antt =====
-- `CheckForCopyright`, `CheckForBadCharacters`, `GetIndentLevel` and `CheckForNewlineAtEOF`.
pub mod Clean
use core_arbiter.Prelude.{
  ℕ, ◌+◌, Bool, false, not, ◌||◌, Option, none, some, List, [], ◌∷◌, ◌++◌, ◌==◌, if◌then◌else◌,
  length, take, drop,
}
use core_arbiter.Str.{Str, codes, char_in, lower_char}
use core_arbiter.Regex.{
  Regex, one_of, star, group, at_start, is_blank, char, text, ◌⨾◌, group_text, match, search_regex,
  is_found,
}
use core_arbiter.Report.{Report, report, report_if}
use core_arbiter.Prelude.Fallible.{◌>>=◌}
use core_arbiter.Prelude.{get_elem?, is_empty}

-- `Copyright`, in whatever case
abbrev pub in_any_case : Str → Regex
in_any_case [] = text []
in_any_case (c ∷ s) = one_of (λ d. lower_char d == lower_char c) ⨾ in_any_case s

unfoldable pub has_copyright : List Str → Bool
unfolding search_regex
has_copyright [] = false
has_copyright (line ∷ lines) =
    is_found (in_any_case (codes "Copyright")) line || has_copyright lines

abbrev pub no_copyright : Str → Report
no_copyright filename = record {
  filename = filename;
  linenum = 0;
  category = codes "legal/copyright";
  confidence = 5;
  message =
      codes
        "No copyright message found.  You should have a line: \"Copyright [year] <Copyright Owner>\"";
}

-- `xrange(1, min(len(lines), 11))`
unfoldable pub check_for_copyright : Str → List Str → List Report
unfolding has_copyright
check_for_copyright filename lines =
    if has_copyright (take 10 (drop 1 lines)) then [] else no_copyright filename ∷ []

abbrev pub bad_utf8 : Str → ℕ → Report
bad_utf8 filename linenum = record {
  filename = filename;
  linenum = linenum;
  category = codes "readability/utf8";
  confidence = 5;
  message = codes "Line contains invalid UTF-8 (or Unicode replacement character).";
}

abbrev pub nul_byte : Str → ℕ → Report
nul_byte filename linenum = record {
  filename = filename;
  linenum = linenum;
  category = codes "readability/nul";
  confidence = 5;
  message = codes "Line contains NUL byte.";
}

-- The lines from `linenum` on.
unfoldable pub bad_characters_from : Str → ℕ → List Str → List Report
bad_characters_from filename linenum [] = []
bad_characters_from filename linenum (line ∷ lines) =
    (if char_in 0xfffd line then bad_utf8 filename linenum ∷ [] else [])
    ++ ((if char_in 0 line then nul_byte filename linenum ∷ [] else [])
        ++ bad_characters_from filename (linenum + 1) lines)

unfoldable pub check_for_bad_characters : Str → List Str → List Report
unfolding bad_characters_from
check_for_bad_characters filename lines = bad_characters_from filename 0 lines

-- `^( *)\S`
abbrev pub indent : Regex
indent = at_start ⨾ group 1 (star (char b' ')) ⨾ one_of (λ c. not (is_blank c))

abbrev pub length_or_zero : Option Str → ℕ
length_or_zero none = 0
length_or_zero (some s) = length s

unfoldable pub get_indent_level : Str → ℕ
unfolding match
get_indent_level line = elim (match indent line) [
  | none ↦ 0
  | some m ↦ length_or_zero (group_text line m 1)
]

abbrev pub no_newline : Str → ℕ → Report
no_newline filename linenum =
    report filename linenum "whitespace/ending_newline" 5
      (codes "Could not find a newline character at the end of the file.")

-- `none` is a report at a line number below 0, of fewer than two lines; `ProcessFileData` adds two lines
-- before the call.
unfoldable pub check_for_newline_at_eof : Str → List Str → Option (List Report)
check_for_newline_at_eof filename [] = none
check_for_newline_at_eof filename (line ∷ []) = none
check_for_newline_at_eof filename (line ∷ line' ∷ []) = some (no_newline filename 0 ∷ [])
check_for_newline_at_eof filename (line ∷ line' ∷ lines) = do
  let linenum = length lines
  before_last ← get_elem? (line ∷ line' ∷ lines) linenum
  some (report_if (not (is_empty before_last)) (no_newline filename linenum))
