-- ===== src/Checks/Line.antt =====
-- `CheckForMultilineCommentsAndStrings`, `CheckPosixThreading`, `CheckVlogArguments`,
-- `CheckInvalidIncrement`, `IsMacroDefinition`, `IsForwardClassDeclaration`, `IsDecltype`. The argument
-- of a check after the name of the file is the list `elided`.

use core_arbiter.Prelude.{zero, true, false}
use core_arbiter.Prelude.{
  ℕ, ◌+◌, ◌%◌, Bool, Option, none, some, List, [], ◌∷◌, ◌++◌, ltb, ◌==◌, if◌then◌else◌, get_elem?,
  false, suc,
}
use core_arbiter.Str.{Str, codes, count, replace}
use core_arbiter.Regex.{
  Regex, one_of, either, star, group, at_start, at_end, word_boundary, is_word, char, any_of,
  none_of, space, plus, text, ◌⨾◌, match, search_regex, matches, is_found, any_char,
}
use core_arbiter.Report.{Report}
use core_arbiter.Prelude.{take}
use core_arbiter.Brackets.Backward.{reverse_close_expression}
use core_arbiter.Brackets.Forward.{Place}

-- The reports on the line at an index.
abbrev pub at_line {ℓ} : {A : Type ℓ} → List Str → ℕ → (Str → A) → Option A
at_line lines linenum f = elim (get_elem? lines linenum) [ none ↦ none | some line ↦ some (f line) ]

abbrev pub complex_comment : Str → ℕ → Report
complex_comment filename linenum = record {
  filename = filename;
  linenum = linenum;
  category = codes "readability/multiline_comment";
  confidence = 5;
  message =
      codes "Complex multi-line /*...*/-style comment found. Lint may give bogus warnings.  "
      ++ codes "Consider replacing these with //-style comments, with #if 0...#endif, "
      ++ codes "or with more clearly structured multi-line comments.";
}

abbrev pub multi_line_string : Str → ℕ → Report
multi_line_string filename linenum = record {
  filename = filename;
  linenum = linenum;
  category = codes "readability/multiline_string";
  confidence = 5;
  message =
      codes "Multi-line string (\"...\") found.  This lint script doesn't "
      ++ codes "do well with such strings, and may give bogus warnings.  "
      ++ codes "Use C++11 raw strings or concatenation instead.";
}

-- On the line without its escaped backslashes. The difference of the counts of quotes is odd exactly
-- when their sum is.
unfoldable pub multi_line_reports : Str → ℕ → Str → List Report
unfolding replace count
multi_line_reports filename linenum line =
    (if ltb (count line (codes "*/")) (count line (codes "/*"))
      then complex_comment filename linenum ∷ []
      else [])
    ++ (if (count line (codes "\"") + count line (codes "\\\"")) % 2 == 1
        then multi_line_string filename linenum ∷ []
        else [])

unfoldable pub check_for_multiline_comments_and_strings : Str → List Str → ℕ → Option (List Report)
unfolding multi_line_reports
check_for_multiline_comments_and_strings filename elided linenum =
    at_line elided linenum
      (λ line. multi_line_reports filename linenum (replace line (codes "\\\\") []))

-- `(?:[-+*/=%^&|(<]\s*|>\s+)`
abbrev pub unsafe_func_prefix : Regex
unsafe_func_prefix = either (any_of (codes "-+*/=%^&|(<") ⨾ star space) (char b'>' ⨾ plus space)

-- A row whose pattern has an argument, `NAME\([^)]+\)`, and one whose has none, `NAME\(\)`.
abbrev pub with_argument : Str → Str × Str × Regex
with_argument name = (
  name ++ codes "(",
  name ++ codes "_r(",
  unsafe_func_prefix ⨾ text (name ++ codes "(") ⨾ plus (none_of (codes ")")) ⨾ char b')',
)

abbrev pub without_argument : Str → Str × Str × Regex
without_argument name =
    (name ++ codes "(", name ++ codes "_r(", unsafe_func_prefix ⨾ text (name ++ codes "()"))

abbrev pub threading_list : List (Str × Str × Regex)
threading_list =
    with_argument (codes "asctime")
    ∷ with_argument (codes "ctime")
    ∷ with_argument (codes "getgrgid")
    ∷ with_argument (codes "getgrnam")
    ∷ without_argument (codes "getlogin")
    ∷ with_argument (codes "getpwnam")
    ∷ with_argument (codes "getpwuid")
    ∷ with_argument (codes "gmtime")
    ∷ with_argument (codes "localtime")
    ∷ without_argument (codes "rand")
    ∷ with_argument (codes "strtok")
    ∷ with_argument (codes "ttyname")
    ∷ []

abbrev pub not_thread_safe : Str → ℕ → Str → Str → Report
not_thread_safe filename linenum single_thread_func multithread_safe_func = record {
  filename = filename;
  linenum = linenum;
  category = codes "runtime/threadsafe_fn";
  confidence = 2;
  message =
      codes "Consider using "
      ++ multithread_safe_func
      ++ codes "...) instead of "
      ++ single_thread_func
      ++ codes "...) for improved thread safety.";
}

unfoldable pub threading_reports : Str → ℕ → Str → List (Str × Str × Regex) → List Report
unfolding search_regex
threading_reports filename linenum line [] = []
threading_reports filename linenum line ((single, multi, pattern) ∷ rows) =
    (if is_found pattern line then not_thread_safe filename linenum single multi ∷ [] else [])
    ++ threading_reports filename linenum line rows

unfoldable pub check_posix_threading : Str → List Str → ℕ → Option (List Report)
unfolding threading_reports
check_posix_threading filename elided linenum =
    at_line elided linenum (λ line. threading_reports filename linenum line threading_list)

-- `\bVLOG\((INFO|ERROR|WARNING|DFATAL|FATAL)\)`
abbrev pub symbolic_vlog : Regex
symbolic_vlog =
    word_boundary
    ⨾ text (codes "VLOG(")
    ⨾ group 1 (
        either (text (codes "INFO")) (
          either (text (codes "ERROR")) (
            either (text (codes "WARNING"))
              (either (text (codes "DFATAL")) (text (codes "FATAL"))))))
    ⨾ char b')'

abbrev pub symbolic_level : Str → ℕ → Report
symbolic_level filename linenum = record {
  filename = filename;
  linenum = linenum;
  category = codes "runtime/vlog";
  confidence = 5;
  message =
      codes "VLOG() should be used with numeric verbosity level.  "
      ++ codes "Use LOG() if you want symbolic severity levels.";
}

unfoldable pub check_vlog_arguments : Str → List Str → ℕ → Option (List Report)
unfolding search_regex
check_vlog_arguments filename elided linenum =
    at_line elided linenum
      (λ line. if is_found symbolic_vlog line then symbolic_level filename linenum ∷ [] else [])

-- `^\s*\*\w+(\+\+|--);`
abbrev pub invalid_increment : Regex
invalid_increment =
    at_start
    ⨾ star space
    ⨾ char b'*'
    ⨾ plus (one_of is_word)
    ⨾ group 1 (either (text (codes "++")) (text (codes "--")))
    ⨾ char b';'

abbrev pub changes_pointer : Str → ℕ → Report
changes_pointer filename linenum = record {
  filename = filename;
  linenum = linenum;
  category = codes "runtime/invalid_increment";
  confidence = 5;
  message = codes "Changing pointer instead of value (or unused value of operator*).";
}

unfoldable pub check_invalid_increment : Str → List Str → ℕ → Option (List Report)
unfolding match
check_invalid_increment filename elided linenum =
    at_line elided linenum
      (λ line. if matches invalid_increment line then changes_pointer filename linenum ∷ [] else [])

-- `^#define` and `\\$`
abbrev pub define_directive : Regex
define_directive = at_start ⨾ text (codes "#define")

abbrev pub ends_in_backslash : Regex
ends_in_backslash = char b'\\' ⨾ at_end

-- `if linenum > 0 and Search(r'\\$', clean_lines[linenum - 1])`
abbrev pub continues : List Str → ℕ → Option Bool
continues lines zero = some false
continues lines (suc n) = at_line lines n (is_found ends_in_backslash)

unfoldable pub is_macro_definition : List Str → ℕ → Option Bool
unfolding search_regex
is_macro_definition lines linenum = elim (at_line lines linenum (is_found define_directive)) [
  | none ↦ none
  | some true ↦ some true
  | some false ↦ continues lines linenum
]

-- `^\s*(\btemplate\b)*.*class\s+\w+;\s*$`; its group is not read
abbrev pub forward_class : Regex
forward_class =
    at_start
    ⨾ star space
    ⨾ star (word_boundary ⨾ text (codes "template") ⨾ word_boundary)
    ⨾ star any_char
    ⨾ text (codes "class")
    ⨾ plus space
    ⨾ plus (one_of is_word)
    ⨾ char b';'
    ⨾ star space
    ⨾ at_end

unfoldable pub is_forward_class_declaration : List Str → ℕ → Option Bool
unfolding match
is_forward_class_declaration lines linenum = at_line lines linenum (matches forward_class)

-- `\bdecltype\s*$`
abbrev pub decltype_at_end : Regex
decltype_at_end = word_boundary ⨾ text (codes "decltype") ⨾ star space ⨾ at_end

abbrev pub ends_in_decltype : Place → Bool
ends_in_decltype q = elim q.pos [
  | none ↦ false
  | some start_col ↦ is_found decltype_at_end (take start_col q.line)
]

unfoldable pub is_decltype : List Str → ℕ → ℕ → Option Bool
unfolding reverse_close_expression search_regex
is_decltype elided linenum column = elim (reverse_close_expression elided linenum column) [
  | none ↦ none
  | some q ↦ some (ends_in_decltype q)
]
