-- ===== src/Files/Guard.antt =====
-- `GetHeaderGuardCPPVariable` and `CheckForHeaderGuard`. The argument `root` is the pattern that the
-- flag --root gives, `'^' + _root + os.sep`, compiled, where the flag is given.

pub mod Variable
pub mod Accepts
use core_arbiter.Prelude.{
  ℕ, ◌+◌, ◌-◌, Bool, false, not, ◌&&◌, ◌||◌, Option, none, some, List, [], ◌∷◌, ◌++◌, leb,
  if◌then◌else◌, length, get_elem?, take, drop, any, is_empty,
}
use core_arbiter.Prelude.Fallible.{◌>>=◌}
use core_arbiter.Str.{Str, codes, ◌=s◌, starts_with, replace, upper, words}
use core_arbiter.Regex.{
  Regex, Found, either, star, group, at_start, at_end, word_boundary, is_digit, is_upper, char,
  none_of, space, opt, text, ◌⨾◌, group_text, match, search_regex, sub, matches, is_found,
}
use core_arbiter.Report.{Report}
use core_arbiter.Cleanse.Lines.{CleansedLines}
use core_arbiter.Nolint.{Suppressions, parse_nolint_suppressions}
use core_arbiter.Files.System.{FileSystem}
use core_arbiter.Files.Info.{repository_name}

-- `_flymake\.h$`
abbrev pub flymake_header : Regex
flymake_header = text (codes "_flymake.h") ⨾ at_end

-- `/\.flymake/([^/]*)$`
abbrev pub flymake_dir : Regex
flymake_dir = text (codes "/.flymake/") ⨾ group 1 (star (none_of (codes "/"))) ⨾ at_end

abbrev pub or_nothing : Option Str → Str
or_nothing none = []
or_nothing (some s) = s

-- `re.sub(r'/\.flymake/([^/]*)$', r'/\1', s)`; a match reaches the end, so there is one at most
unfoldable pub without_flymake_dir : Str → Str
unfolding search_regex
without_flymake_dir s = elim (search_regex flymake_dir s) [
  | none ↦ s
  | some m ↦ take m.start s ++ b'/' ∷ (or_nothing (group_text s m 1) ++ drop m.stop s)
]

unfoldable pub restore_filename : Str → Str
unfolding sub without_flymake_dir replace
restore_filename filename =
    let filename' = without_flymake_dir (sub flymake_header (codes ".h") filename) in
    replace (replace filename' (codes "C++") (codes "cpp")) (codes "c++") (codes "cpp")

abbrev pub is_alnum : ℕ → Bool
is_alnum c = is_digit c || is_upper c || leb b'a' c && leb c b'z'

-- `re.sub(r'[^a-zA-Z0-9]', '_', s)`, character by character
unfoldable pub blank_out : Str → Str
blank_out [] = []
blank_out (c ∷ s) = (if is_alnum c then c else b'_') ∷ blank_out s

abbrev pub strip_root : Option Regex → Str → Str
strip_root none path = path
strip_root (some pattern) path = sub pattern [] path

-- `none` is a search for the repository that does not end.
unfoldable pub get_header_guard_cpp_variable : FileSystem → Option Regex → Str → Option Str
unfolding restore_filename repository_name sub blank_out upper
get_header_guard_cpp_variable fs root filename = do
  file_path_from_root ← repository_name fs (restore_filename filename)
  some (upper (blank_out (strip_root root file_path_from_root)) ++ codes "_")

-- `//\s*NOLINT\(build/header_guard\)`
abbrev pub guard_nolint : Regex
guard_nolint = text (codes "//") ⨾ star space ⨾ text (codes "NOLINT(build/header_guard)")

unfoldable pub is_silenced : List Str → Bool
unfolding search_regex
is_silenced raw_lines = any (is_found guard_nolint) raw_lines

-- What the loop over the lines has found.
pub record GuardLines : Type 0 where
  pub ifndef : Str
  pub ifndef_linenum : ℕ
  pub define : Str
  pub endif : Str
  pub endif_linenum : ℕ

abbrev pub no_guard_lines : GuardLines
no_guard_lines = record {
  ifndef = [];
  ifndef_linenum = 0;
  define = [];
  endif = [];
  endif_linenum = 0;
}

-- `linesplit[0]` and `linesplit[1]`, where there are two words at least
abbrev pub guard_words : ℕ → List Str → GuardLines → GuardLines
guard_words linenum [] g = g
guard_words linenum (word ∷ []) g = g
guard_words linenum (word ∷ arg ∷ rest) g =
    let g' =
      if is_empty g.ifndef && word =s codes "#ifndef"
      then record g { ifndef = arg; ifndef_linenum = linenum }
      else g in
    if is_empty g'.define && word =s codes "#define" then record g' { define = arg } else g'

unfoldable pub guard_line : ℕ → Str → GuardLines → GuardLines
unfolding words
guard_line linenum line g =
    let g' = guard_words linenum (words line) g in
    if starts_with line (codes "#endif")
    then record g' { endif = line; endif_linenum = linenum }
    else g'

unfoldable pub guard_lines : ℕ → List Str → GuardLines → GuardLines
unfolding guard_line
guard_lines linenum [] g = g
guard_lines linenum (line ∷ lines) g = guard_lines (linenum + 1) lines (guard_line linenum line g)

abbrev pub guard_report : Str → ℕ → ℕ → Str → Report
guard_report filename linenum confidence message = record {
  filename = filename;
  linenum = linenum;
  category = codes "build/header_guard";
  confidence = confidence;
  message = message;
}

abbrev pub no_guard : Str → Str → Report
no_guard filename cppvar =
    guard_report filename 0 5
      (codes "No #ifndef header guard found, suggested CPP variable is: " ++ cppvar)

-- `not ifndef or not define or ifndef != define`
abbrev pub is_unguarded : GuardLines → Bool
is_unguarded g = is_empty g.ifndef || is_empty g.define || not (g.ifndef =s g.define)

-- `#endif\s*//\s*` + cppvar + `(_)?\b`
abbrev pub line_comment_on : Str → Regex
line_comment_on cppvar =
    text (codes "#endif")
    ⨾ star space
    ⨾ text (codes "//")
    ⨾ star space
    ⨾ text cppvar
    ⨾ opt (group 1 (char b'_'))
    ⨾ word_boundary

-- `#endif\s*/\*\s*` + cppvar + `(_)?\s*\*/`
abbrev pub block_comment_on : Str → Regex
block_comment_on cppvar =
    text (codes "#endif")
    ⨾ star space
    ⨾ text (codes "/*")
    ⨾ star space
    ⨾ text cppvar
    ⨾ opt (group 1 (char b'_'))
    ⨾ star space
    ⨾ text (codes "*/")

-- `^(?:(?:'(?:\.|[^'])*')|(?:"(?:\.|[^"])*")|[^'"])*//`
abbrev pub line_comment : Regex
line_comment =
    at_start
    ⨾ star (
        either (char b'\'' ⨾ star (either (char b'.') (none_of (codes "'"))) ⨾ char b'\'') (
          either (char b'"' ⨾ star (either (char b'.') (none_of (codes "\""))) ⨾ char b'"')
            (none_of (codes "'\""))))
    ⨾ text (codes "//")

-- `xrange(1, len(raw_lines) - 1)`
abbrev pub inner_lines : List Str → List Str
inner_lines raw_lines = take (length raw_lines - 2) (drop 1 raw_lines)

-- `match.group(1) == '_'`
abbrev pub has_underscore : Option Str → Bool
has_underscore none = false
has_underscore (some s) = s =s codes "_"

-- After a match of the comment behind #endif: a message if the name has an underscore more.
abbrev pub told : Str → GuardLines → Str → Found → List Report
told filename g message m =
    if has_underscore (group_text g.endif m 1)
    then guard_report filename g.endif_linenum 0 message ∷ []
    else []

-- Where the line has no `//` comment: the file may have `/**/` comments only.
unfoldable pub block_comment_reports : Str → Str → List Str → GuardLines → List Report
unfolding match
block_comment_reports filename cppvar raw_lines g =
    if any (matches line_comment) (inner_lines raw_lines)
    then []
    else elim (match (block_comment_on cppvar) g.endif) [
      | some m ↦
          told filename g (codes "#endif line should be \"#endif  /* " ++ cppvar ++ codes " */\"") m
      | none ↦ []
    ]

unfoldable pub endif_reports : Str → Str → List Str → GuardLines → List Report
unfolding match block_comment_reports
endif_reports filename cppvar raw_lines g = elim (match (line_comment_on cppvar) g.endif) [
  | some m ↦ told filename g (codes "#endif line should be \"#endif  // " ++ cppvar ++ codes "\"") m
  | none ↦ block_comment_reports filename cppvar raw_lines g
]

abbrev pub with_more : List Report → Suppressions × List Report → Suppressions × List Report
with_more more (sup, reports) = (sup, reports ++ more)

-- `raw_lines[endif_linenum]` is an index within the lines wherever a guard was found.
unfoldable pub guard_result :
    Str → Str → List Str → GuardLines → Suppressions → Option (Suppressions × List Report)
unfolding endif_reports parse_nolint_suppressions
guard_result filename cppvar raw_lines g sup =
    if is_unguarded g then some (sup, no_guard filename cppvar ∷ []) else (do
      line ← get_elem? raw_lines g.endif_linenum
      some (
          with_more (endif_reports filename cppvar raw_lines g)
            (parse_nolint_suppressions filename line g.endif_linenum sup)))

-- `none` is an exception, or a search for the repository that does not end.
unfoldable pub check_for_header_guard :
    FileSystem
    → Option Regex
    → Str
    → CleansedLines
    → Suppressions
    → Option (Suppressions × List Report)
unfolding is_silenced get_header_guard_cpp_variable guard_result guard_lines
check_for_header_guard fs root filename clean_lines sup =
    let raw_lines = clean_lines.lines_without_raw_strings in
    if is_silenced raw_lines then some (sup, []) else (do
      cppvar ← get_header_guard_cpp_variable fs root filename
      guard_result filename cppvar raw_lines (guard_lines 0 raw_lines no_guard_lines) sup)
