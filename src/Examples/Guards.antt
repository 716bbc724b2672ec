-- ===== src/Examples/Guards.antt =====
-- Header guards of small headers.
use core_arbiter.Prelude.{◌+◌, ◌≡◌, refl, false, none, some, List, [], ◌∷◌, length}
use core_arbiter.Prelude.Forall.{All}
use core_arbiter.Str.{Str, codes}
use core_arbiter.Cleanse.Lines.{CleansedLines}
use core_arbiter.Report.{Report}
use core_arbiter.Nolint.{Suppressions, reset_nolint_suppressions}
use core_arbiter.Files.System.{FileSystem}
use core_arbiter.Files.Info.{repository_name}
use core_arbiter.Files.Guard.{
  restore_filename, strip_root, get_header_guard_cpp_variable, is_silenced, check_for_header_guard,
}
use core_arbiter.Files.Guard.Variable.{IsGuardChar, get_header_guard_cpp_variable-IsGuardChar}
use core_arbiter.Files.Guard.Accepts.{is_guarded, Verdict, check_for_header_guard-is_guarded}

abbrev empty_system : FileSystem
empty_system = record {
  cwd = codes "/w";
  exists = λ p. false;
  is_file = λ p. false;
  read_lines = λ p. none;
}

abbrev of_lines : List Str → CleansedLines
of_lines lines = record {
  elided = lines;
  lines = lines;
  raw_lines = lines;
  num_lines = length lines;
  lines_without_raw_strings = lines;
}

guard_name :
    get_header_guard_cpp_variable empty_system none (codes "s/.flymake/c++-a_flymake.h")
    ≡ some (codes "_W_S_CPP_A_H_")
unfolding get_header_guard_cpp_variable
guard_name = refl

guard_path :
    repository_name empty_system (restore_filename (codes "s/a-1.h")) ≡ some (codes "/w/s/a-1.h")
unfolding repository_name restore_filename
guard_path = refl

get_header_guard_cpp_variable-IsGuardChar_example :
    (v : Str) × (get_header_guard_cpp_variable empty_system none (codes "s/a-1.h") ≡ some v)
    × All IsGuardChar v
    × (length v ≡ length (strip_root none (codes "/w/s/a-1.h")) + 1)
get_header_guard_cpp_variable-IsGuardChar_example =
    get_header_guard_cpp_variable-IsGuardChar empty_system none (codes "s/a-1.h")
      (codes "/w/s/a-1.h") guard_path

abbrev guarded_header : CleansedLines
guarded_header = of_lines (
    codes "// a"
    ∷ codes "#ifndef ANY_NAME"
    ∷ codes "  #define ANY_NAME  1"
    ∷ codes "#endif  // _W_A_H__"
    ∷ [])

short_name : get_header_guard_cpp_variable empty_system none (codes "a.h") ≡ some (codes "_W_A_H_")
unfolding get_header_guard_cpp_variable
short_name = refl

not_silenced : is_silenced guarded_header.lines_without_raw_strings ≡ false
unfolding is_silenced
not_silenced = refl

check_for_header_guard-is_guarded_example :
    (r : Suppressions × List Report) × (check_for_header_guard empty_system none
        (codes "a.h")
        guarded_header
        reset_nolint_suppressions
      ≡ some r)
    × Verdict
        (codes "a.h")
        (codes "_W_A_H_")
        reset_nolint_suppressions
        (is_guarded guarded_header.lines_without_raw_strings)
        r
check_for_header_guard-is_guarded_example =
    check_for_header_guard-is_guarded empty_system none (codes "a.h") guarded_header
      reset_nolint_suppressions short_name not_silenced
