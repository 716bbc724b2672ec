-- ===== src/Examples/Styles.antt =====
-- Lines of a small file.
use core_arbiter.Prelude.{◌+◌, ◌≡◌, refl, none, some, List, [], ◌∷◌, length, arith, false}
use core_arbiter.Str.{Str, codes}
use core_arbiter.Cleanse.Lines.{CleansedLines}
use core_arbiter.Nolint.{reset_nolint_suppressions}
use core_arbiter.LintState.{initial_lint_state}
use core_arbiter.Nesting.Blocks.{initial_nesting_state}
use core_arbiter.Context.{Context}
use core_arbiter.Settings.{initial_settings}
use core_arbiter.Files.System.{FileSystem}
use core_arbiter.Files.Guard.{get_header_guard_cpp_variable}
use core_arbiter.Checks.Aligned.{Aligned}
use core_arbiter.Checks.Operators.{mask_operators}
use core_arbiter.Checks.Operators.Masked.{mask_operators-returns}
use core_arbiter.Checks.Macros.{parse_operands, operands}
use core_arbiter.Checks.Macros.Total.{parse_operands-Given}
use core_arbiter.Prelude.{◌≤◌}
use mathlib.Core.Option.{map}
use core_arbiter.Prelude.Fallible.{Given}
use core_arbiter.Reporting.Run.{Run}
use core_arbiter.Reporting.Run.Tallied.{RunsFrom}
use core_arbiter.Style.{check_style}
use core_arbiter.Style.Total.{check_style-RunsFrom}

abbrev sources : FileSystem
sources = record {
  cwd = codes "/w";
  exists = λ p. false;
  is_file = λ p. false;
  read_lines = λ p. none;
}

abbrev ascii_context : Context
ascii_context = record {
  files = sources;
  unicode = record { normalize = λ s. s; is_wide = λ c. false; is_combining = λ c. false };
  settings = initial_settings;
  root_pattern = none;
}

abbrev two_lines : List Str
two_lines = codes "// marker" ∷ codes "int x=1,y;; " ∷ []

abbrev small_file : CleansedLines
small_file = record {
  elided = two_lines;
  lines = two_lines;
  raw_lines = two_lines;
  num_lines = length two_lines;
  lines_without_raw_strings = two_lines;
}

abbrev second_line : Aligned small_file 1
second_line = record {
  elided = refl;
  lines = refl;
  raw_lines = refl;
  plain = refl;
  within = omega arith;
}

abbrev first_run : Run
first_run = record {
  suppressions = reset_nolint_suppressions;
  lint = initial_lint_state;
  written = [];
}

source_guard : get_header_guard_cpp_variable sources none (codes "a.cc") ≡ some (codes "_W_A_CC_")
unfolding get_header_guard_cpp_variable
source_guard = refl

check_style-RunsFrom_example : RunsFrom first_run (
    check_style ascii_context
      (codes "a.cc")
      small_file
      1
      (codes "cc")
      initial_nesting_state
      first_run)
check_style-RunsFrom_example =
    check_style-RunsFrom ascii_context small_file 1 second_line (codes "a.cc") (codes "cc")
      initial_nesting_state first_run (omega arith) tt (codes "_W_A_CC_", source_guard) (refl, tt)

masked_line :
    mask_operators 24 (codes "int operator<<(int) a<b") ≡ some (codes "int operator__(int) a<b")
unfolding mask_operators
masked_line = refl

mask_operators-returns_example :
    (r : Str) × (mask_operators (length (codes "f operator==(a)") + 1) (codes "f operator==(a)")
      ≡ some r)
    × (length r ≤ length (codes "f operator==(a)"))
mask_operators-returns_example = mask_operators-returns (codes "f operator==(a)")

unequal_operands :
    parse_operands 6 [] (codes "a != b") ≡ some (operands (codes "a ") (codes "!=") (codes " b"))
unfolding parse_operands
unequal_operands = refl

parse_operands-Given_example : Given (parse_operands 6 [] (codes "a != b"))
parse_operands-Given_example = parse_operands-Given 6 [] (codes "a != b") (omega arith)

-- No spaces around `=`, none after `,`, and a space at the end; the confidence of the message on two
-- commands in a line is too low.
style_of_second_line :
    map
      (λ r. length r.written)
      (check_style ascii_context
        (codes "a.cc")
        small_file
        1
        (codes "cc")
        initial_nesting_state
        first_run)
    ≡ some 3
unfolding check_style core_arbiter.Reporting.error core_arbiter.Reporting.should_print_error
    core_arbiter.Nolint.is_error_suppressed_by_nolint core_arbiter.Reporting.filter_loop
    core_arbiter.LintState.increment_error_count
style_of_second_line = refl
