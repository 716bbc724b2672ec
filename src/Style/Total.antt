-- ===== src/Style/Total.antt =====
-- That `CheckStyle` returns.
use core_arbiter.Prelude.{
  ℕ, zero, suc, ◌<◌, refl, Option, none, some, List, [], arith, length, get_elem?, get_elem?-some,
}
use core_arbiter.Prelude.Fallible.{Given, Given-bind, Given-if}
use core_arbiter.Str.{Str}
use core_arbiter.Cleanse.Lines.{CleansedLines}
use core_arbiter.Context.{Context}
use core_arbiter.Settings.{is_header_extension}
use core_arbiter.Reporting.Run.{Run}
use core_arbiter.Reporting.Run.Tallied.{RunsFrom, Signed, ◌then◌, emit_of-Keeps, emit_with-Keeps}
use core_arbiter.Report.{Report}
use core_arbiter.Nesting.Blocks.{NestingState, BlockInfo, BlockClass, class_info, innermost_class}
use core_arbiter.Files.Guard.{get_header_guard_cpp_variable}
use core_arbiter.Checks.Aligned.{Aligned}
use core_arbiter.Checks.Calls.{check_spacing_for_function_call}
use core_arbiter.Checks.Spacing.Total.{
  elided-line, plain-line, check_spacing-Given, check_parenthesis_spacing-Given,
  check_comma_spacing-Given,
}
use core_arbiter.Checks.Operators.Total.{check_operator_spacing-Given}
use core_arbiter.Checks.Braces.Total.{previous_text-Given, check_braces-Given}
use core_arbiter.Checks.Access.Total.{check_access-Given}
use core_arbiter.Checks.Semicolons.{check_trailing_semicolon}
use core_arbiter.Checks.Semicolons.Total.{check_trailing_semicolon-Given}
use core_arbiter.Checks.Types.Total.{StartWithin}
use core_arbiter.Checks.BraceSpacing.Total.{check_braces_spacing-Given, check_section_spacing-Given}
use core_arbiter.Checks.BraceSpacing.{check_section_spacing}
use core_arbiter.Checks.Macros.Total.{check_check-Given}
use core_arbiter.Checks.AltTokens.Total.{check_alt_tokens-Given}
use core_arbiter.Style.{line_above, is_header_guard, line_reports, section_spacing, check_style}

line_above-Given :
    (raw_lines : List Str) (n : ℕ) → n < length raw_lines → Given (line_above raw_lines n)
line_above-Given raw_lines zero h = (_, refl)
line_above-Given raw_lines (suc n) h = get_elem?-some raw_lines n (omega arith)

is_header_guard-Given :
    (cx : Context) (filename ext line : Str)
    → Given (get_header_guard_cpp_variable cx.files cx.root_pattern filename)
    → Given (is_header_guard cx filename ext line)
unfolding is_header_guard
is_header_guard-Given cx filename ext line g =
    Given-if (is_header_extension ext cx.settings) _ _ (λ _. Given-bind _ _ g (λ v _. (_, refl)))
      (λ _. (_, refl))

check_spacing_for_function_call-Given :
    (filename : Str) (elided : List Str) (n : ℕ)
    → Given (get_elem? elided n)
    → Given (check_spacing_for_function_call filename elided n)
unfolding check_spacing_for_function_call
check_spacing_for_function_call-Given filename elided n g = Given-bind _ _ g (λ line _. (_, refl))

module _ (cx : Context) (c : CleansedLines) (linenum : ℕ) (a : Aligned c linenum) where
  line_reports-Given :
      (filename ext : Str)
      → Given (get_header_guard_cpp_variable cx.files cx.root_pattern filename)
      → Given (line_reports cx filename c linenum ext)
  unfolding line_reports
  line_reports-Given filename ext g = Given-bind _ _ (plain-line c linenum a) λ line _.
      Given-bind _ _
        (line_above-Given c.lines_without_raw_strings linenum (omega (arith, a.plain, a.within)))
        λ prev _. Given-bind _ _ (elided-line c linenum a) λ cleansed _.
          Given-bind _ _ (get_elem?-some c.raw_lines linenum (omega (arith, a.raw_lines, a.within)))
            λ raw _. Given-bind _ _ (is_header_guard-Given cx filename ext line g) λ guard _.
              Given-bind _ _
                (previous_text-Given c.elided linenum (omega (arith, a.elided, a.within)))
                λ prevline _. (_, refl)

  section_spacing-Given :
      (filename : Str) (o : Option BlockInfo) → Given (section_spacing filename c o linenum)
  section_spacing-Given filename none = (_, refl)
  section_spacing-Given filename (some b) = of_class b.block_class
    where
      of_class :
          (k : BlockClass)
          → Given {A = List Report} (elim k [
            | class_info i ↦ check_section_spacing filename c b.starting_linenum i linenum
            | _ ↦ some []
          ])
      of_class (class_info i) =
          check_section_spacing-Given c linenum a filename b.starting_linenum i
      of_class BlockClass.plain_block = (_, refl)
      of_class BlockClass.extern_c = (_, refl)
      of_class (BlockClass.namespace_info name) = (_, refl)

  -- `CheckStyle` returns, for a line number above 0 that is within the four lists of the file, if
  -- the blocks on the stack start at lines of the file, the name of the header guard is found and
  -- every filter starts with `+` or `-`. The lines it writes come after those written before, the
  -- total of errors grows by their number, and of the rest of `_CppLintState` only the counts by
  -- category change.
  pub check_style-RunsFrom :
      (filename ext : Str) (st : NestingState) (run : Run)
      → 0 < linenum
      → StartWithin c.elided st.stack
      → Given (get_header_guard_cpp_variable cx.files cx.root_pattern filename)
      → Signed run
      → RunsFrom run (check_style cx filename c linenum ext st run)
  unfolding check_style
  check_style-RunsFrom filename ext st run pos within g =
      let (line, at) = elided-line c linenum a in
      let lt : linenum < length c.elided = omega (arith, a.elided, a.within) in
      (emit_of-Keeps (line_reports-Given filename ext g)
          then emit_of-Keeps (
              check_braces-Given c.elided linenum line at lt cx.unicode cx.settings.line_length
                filename)
          then emit_with-Keeps (check_trailing_semicolon filename c linenum)
              (λ sup. check_trailing_semicolon-Given filename c linenum sup a pos)
          then emit_of-Keeps (check_access-Given c.elided linenum line at filename st)
          then emit_of-Keeps (check_spacing-Given c linenum a filename st)
          then emit_of-Keeps (check_operator_spacing-Given c.elided linenum line at filename)
          then emit_of-Keeps (check_parenthesis_spacing-Given c linenum a filename)
          then emit_of-Keeps (check_comma_spacing-Given c linenum a filename)
          then emit_of-Keeps (check_braces_spacing-Given c linenum a filename st within)
          then emit_of-Keeps (
              check_spacing_for_function_call-Given filename c.elided linenum
                (elided-line c linenum a))
          then emit_of-Keeps (check_check-Given c.elided linenum line at filename)
          then emit_of-Keeps (check_alt_tokens-Given c.elided linenum line at filename)
          then emit_of-Keeps (section_spacing-Given filename (innermost_class st)))
        run
