-- ===== src/Examples/Reports.antt =====
-- Filters, suppressions, counters, function sizes and the order of headers on small inputs.

use core_arbiter.Prelude.{
  ◌≤◌, ◌≡◌, refl, true, false, not, ◌&&◌, some, List, [], ◌∷◌, ◌++◌, arith, leb,
}
use core_arbiter.Str.{Str, codes}
use core_arbiter.FunctionState.Confidence.{Confident, check-Confident}
use core_arbiter.IncludeState.Order.{
  no_errors, in_order, no_errors-in_order, run_order, section-run_order,
}
use core_arbiter.LintState.{LintState, backup_filters, restore_filters}
use core_arbiter.LintState.Filters.{add_all, restore-add-backup}
use core_arbiter.Nolint.{
  Suppressions, reset_nolint_suppressions, is_error_suppressed_by_nolint, parse_nolint_suppressions,
}
use core_arbiter.Nolint.Comment.{comment_text, asked}
use core_arbiter.Nolint.Comment.Parse.{parse_nolint-comment}
use core_arbiter.Nolint.Exact.{parse_nolint-elsewhere, parse_nolint-keeps}
use core_arbiter.Report.{Report}
use core_arbiter.Reporting.{should_print_error, errors}
use core_arbiter.Reporting.LastFilter.{last_word, or_before, should_print_error-last_word}
use core_arbiter.Reporting.Sums.{Reported, errors-Reported}
use core_arbiter.Str.Decimal.{decimal}
use core_arbiter.FunctionState.{FunctionState, check}
use core_arbiter.IncludeState.{
  other_h_section, c_sys_header, cpp_sys_header, likely_my_header, other_header,
}
use core_arbiter.IncludeState.{initial_include_state}
use core_arbiter.LintState.{initial_lint_state}
use core_arbiter.Checks.Headers.{drop_common_suffixes, classify_include}
use core_arbiter.IncludeState.{possible_my_header}
use core_arbiter.Prelude.{any, is_empty}
use core_arbiter.Checks.File.{check_for_bad_characters, check_for_newline_at_eof, no_newline}
use core_arbiter.Checks.File.Clean.{is_bad, check_for_bad_characters-is_bad}
use core_arbiter.IncludeState.{IncludeState, initial_section, find_header, reset_section}
use core_arbiter.IncludeState.Headers.{in_branch, find_header-branches}

decimal_run : decimal 1024 ≡ codes "1024"
unfolding decimal
decimal_run = refl

abbrev only_runtime : List Str
only_runtime = codes "-" ∷ codes "+runtime" ∷ codes "-runtime/int" ∷ []

abbrev strict : LintState
strict = record initial_lint_state { filters = only_runtime; counting = codes "toplevel" }

abbrev explicit_report : Report
explicit_report = record {
  filename = codes "a.cc";
  linenum = 3;
  category = codes "runtime/explicit";
  confidence = 5;
  message = codes "m";
}

abbrev int_report : Report
int_report = record explicit_report { category = codes "runtime/int" }

errors-Reported_example :
    Reported reset_nolint_suppressions strict (
      errors reset_nolint_suppressions (explicit_report ∷ int_report ∷ explicit_report ∷ []) strict)
errors-Reported_example =
    errors-Reported reset_nolint_suppressions (explicit_report ∷ int_report ∷ explicit_report ∷ [])
      strict (refl, (refl, (refl, tt)))

should_print_error-last_word_example :
    should_print_error reset_nolint_suppressions strict (codes "runtime/int") 5 3
    ≡ some (
        not (is_error_suppressed_by_nolint (codes "runtime/int") 3 reset_nolint_suppressions)
        && leb strict.verbose_level 5
        && not (or_before false (last_word (codes "runtime/int") strict.filters)))
should_print_error-last_word_example =
    should_print_error-last_word reset_nolint_suppressions strict (codes "runtime/int") 5 3
      (refl, (refl, (refl, tt)))

no_errors-in_order_example :
    no_errors
      (likely_my_header ∷ c_sys_header ∷ other_header ∷ cpp_sys_header ∷ [])
      initial_include_state
    ≡ in_order (likely_my_header ∷ c_sys_header ∷ other_header ∷ cpp_sys_header ∷ [])
no_errors-in_order_example =
    no_errors-in_order (likely_my_header ∷ c_sys_header ∷ other_header ∷ cpp_sys_header ∷ [])
      initial_include_state (omega arith)

section-run_order_example :
    (initial_include_state.section
      ≤ (run_order (other_header ∷ c_sys_header ∷ []) initial_include_state).section)
    × ((run_order (other_header ∷ c_sys_header ∷ []) initial_include_state).section
        ≤ other_h_section)
section-run_order_example =
    section-run_order (other_header ∷ c_sys_header ∷ []) initial_include_state (omega arith)

abbrev long_function : FunctionState
long_function = record {
  in_a_function = true;
  lines_in_function = 1001;
  current_function = codes "f";
}

check-Confident_example : Confident long_function 1 (check long_function (codes "a.cc") 9 1)
check-Confident_example = check-Confident long_function (codes "a.cc") 9 1

restore-add-backup_example :
    restore_filters (add_all (codes "-a" ∷ codes "b" ∷ []) (backup_filters strict))
    ≡ backup_filters strict
restore-add-backup_example = restore-add-backup (codes "-a" ∷ codes "b" ∷ []) strict

abbrev next_line : Str
next_line = codes "x;  // NOLINTNEXTLINE(runtime/int)"

parse_run :
    parse_nolint_suppressions (codes "f") next_line 4 reset_nolint_suppressions
    ≡ (record { lines = (some (codes "runtime/int"), 5) ∷ []; globals = [] }, [])
unfolding parse_nolint_suppressions
parse_run = refl

parse_nolint-comment_example :
    parse_nolint_suppressions
      (codes "f")
      (codes "x;  // " ++ (comment_text true (some (codes "runtime/int")) ++ codes " y"))
      4
      reset_nolint_suppressions
    ≡ asked (codes "f") 4 5 (some (codes "runtime/int")) reset_nolint_suppressions
parse_nolint-comment_example =
    parse_nolint-comment (codes "f") (codes "x;  // ") (codes " y") true
      (some (codes "runtime/int")) 4 reset_nolint_suppressions refl refl (refl, refl)

parse_nolint-elsewhere_example :
    is_error_suppressed_by_nolint
      (codes "runtime/int")
      7
      (parse_nolint_suppressions (codes "f") next_line 4 reset_nolint_suppressions).0
    ≡ is_error_suppressed_by_nolint (codes "runtime/int") 7 reset_nolint_suppressions
parse_nolint-elsewhere_example =
    parse_nolint-elsewhere (codes "f") next_line (codes "runtime/int") 4 7 reset_nolint_suppressions
      (ground arith) (ground arith)

abbrev everywhere : Suppressions
everywhere = record { lines = []; globals = codes "runtime/int" ∷ [] }

suppressed_everywhere : is_error_suppressed_by_nolint (codes "runtime/int") 7 everywhere ≡ true
unfolding is_error_suppressed_by_nolint
suppressed_everywhere = refl

parse_nolint-keeps_example :
    is_error_suppressed_by_nolint
      (codes "runtime/int")
      7
      (parse_nolint_suppressions (codes "f") next_line 4 everywhere).0
    ≡ true
parse_nolint-keeps_example =
    parse_nolint-keeps (codes "f") next_line (codes "runtime/int") 4 7 everywhere
      suppressed_everywhere

classified :
    (classify_include (codes "foo/foo.cc") (codes "stdio.h") true ≡ c_sys_header)
    × (classify_include (codes "foo/foo.cc") (codes "string") true ≡ cpp_sys_header)
    × (classify_include (codes "foo/foo.cc") (codes "foo/foo.h") false ≡ likely_my_header)
    × (classify_include (codes "foo/foo_unknown_extension.cc") (codes "bar/foo_other_ext.h") false
        ≡ possible_my_header)
    × (classify_include (codes "foo/foo.cc") (codes "foo/bar.h") false ≡ other_header)
    × (classify_include (codes "a/foo.cc") (codes "public/foo-inl.h") false ≡ likely_my_header)
unfolding classify_include
classified = (refl, refl, refl, refl, refl, refl)

suffixes_dropped :
    (drop_common_suffixes (codes "foo/foo-inl.h") ≡ codes "foo/foo")
    × (drop_common_suffixes (codes "foo/bar/foo.cc") ≡ codes "foo/bar/foo")
    × (drop_common_suffixes (codes "foo/foo_internal.h") ≡ codes "foo/foo")
    × (drop_common_suffixes (codes "foo/foo_unusualinternal.h") ≡ codes "foo/foo_unusualinternal")
unfolding drop_common_suffixes
suffixes_dropped = (refl, refl, refl, refl)

check_for_bad_characters-is_bad_example :
    is_empty (check_for_bad_characters (codes "f") (codes "a" ∷ (0 ∷ []) ∷ []))
    ≡ not (any is_bad (codes "a" ∷ (0 ∷ []) ∷ []))
check_for_bad_characters-is_bad_example =
    check_for_bad_characters-is_bad (codes "f") (codes "a" ∷ (0 ∷ []) ∷ [])

newline_missing :
    (check_for_newline_at_eof (codes "f") (codes "//" ∷ codes "a" ∷ codes "//" ∷ [])
      ≡ some (no_newline (codes "f") 1 ∷ []))
    × (check_for_newline_at_eof (codes "f") (codes "//" ∷ codes "a" ∷ [] ∷ codes "//" ∷ [])
        ≡ some [])
unfolding check_for_newline_at_eof
newline_missing = (refl, refl)

abbrev two_branches : IncludeState
two_branches = record initial_include_state {
  include_list = ((codes "a.h", 3) ∷ []) ∷ ((codes "b.h", 5) ∷ []) ∷ [];
}

abbrev in_first : IncludeState
in_first = in_branch (codes "ifdef") ((codes "c.h", 8) ∷ (codes "a.h", 9) ∷ []) two_branches

find_header-branches_example :
    (find_header (codes "a.h") in_first.include_list ≡ some 3)
    × (find_header (codes "a.h") (reset_section (codes "else") in_first).include_list ≡ some 3)
    × ((reset_section (codes "else") in_first).section ≡ initial_section)
    × ((reset_section (codes "else") in_first).last_header ≡ [])
unfolding find_header
find_header-branches_example =
    find_header-branches (codes "ifdef") (codes "else") (codes "a.h")
      ((codes "c.h", 8) ∷ (codes "a.h", 9) ∷ []) two_branches refl refl
