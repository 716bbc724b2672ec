-- ===== src/Checks/Access.antt =====
-- `CheckAccess`.
pub mod Total
use core_arbiter.Prelude.{
  ℕ, zero, suc, ◌+◌, ◌-◌, Bool, false, not, ◌&&◌, ◌||◌, Option, none, some, List, [], ◌∷◌, ◌++◌,
  ltb, ◌==◌, if◌then◌else◌, length, get_elem?, drop,
}
use core_arbiter.Prelude.Int.{ℤ, pos, negsuc, ◌+ℤ◌, lt_int}
use core_arbiter.Prelude.Fallible.{◌>>=◌}
use core_arbiter.Str.{Str, codes, ◌=s◌, char_in, contains, find, find_from}
use core_arbiter.Regex.{
  Regex, Found, either, star, group, at_start, at_end, word_boundary, differs, char, any_of,
  none_of, space, opt, text, one_text, ◌⨾◌, match, search_regex, matches, is_found,
}
use core_arbiter.Report.{Report, report, report_if}
use core_arbiter.Brackets.Forward.{Place, close_expression}
use core_arbiter.Nesting.Blocks.{NestingState, BlockInfo, class_info}
use core_arbiter.Checks.Blank.{get_previous_non_blank_line}
use core_arbiter.Checks.File.{get_indent_level}
use core_arbiter.Checks.Operators.{blanks}
use core_arbiter.Checks.Spacing.{group_of}
use core_arbiter.Checks.Width.{UnicodeData, get_line_width}

-- `\s*(DISALLOW_COPY_AND_ASSIGN|DISALLOW_IMPLICIT_CONSTRUCTORS)`
abbrev pub disallow_use : Regex
disallow_use =
    star space
    ⨾ group 1
        (one_text (codes "DISALLOW_COPY_AND_ASSIGN" ∷ codes "DISALLOW_IMPLICIT_CONSTRUCTORS" ∷ []))

-- The top of the stack is a class whose section is not private.
abbrev pub outside_private : List BlockInfo → Bool
outside_private [] = false
outside_private (b ∷ stack) = elim b.block_class [
  | class_info c ↦ not (c.access =s codes "private")
  | _ ↦ false
]

unfoldable pub check_access : Str → List Str → ℕ → NestingState → Option (List Report)
unfolding match
check_access filename elided linenum nesting_state = do
  line ← get_elem? elided linenum
  some (elim (match disallow_use line) [
    | none ↦ []
    | some m ↦ report_if (outside_private nesting_state.stack) (
        report filename linenum "readability/constructors" 3
          (group_of line m 1 ++ codes " must be in the private: section"))
  ])
