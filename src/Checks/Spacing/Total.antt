-- ===== src/Checks/Spacing/Total.antt =====
-- That `CheckSpacing`, `CheckParenthesisSpacing` and `CheckCommaSpacing` return.
use core_arbiter.Prelude.{
  ℕ, zero, suc, ◌+◌, ◌-◌, ◌≤◌, ◌<◌, refl, false, not, ◌&&◌, List, arith, inl, inr, Bool-cases, ltb,
  ltb→lt, length, get_elem?, get_elem?-some,
}
use core_arbiter.Prelude.Fallible.{Given, Given-bind, Given-if}
use core_arbiter.Str.{Str}
use core_arbiter.Cleanse.Lines.{CleansedLines}
use core_arbiter.IncludeState.{line_before}
use core_arbiter.Regex.{matches}
use core_arbiter.Nesting.Blocks.{NestingState, in_namespace_body, in_extern_c}
use core_arbiter.Checks.Blank.{is_blank_line}
use core_arbiter.Checks.Aligned.{Aligned}
use core_arbiter.Checks.Spacing.{
  six_spaces, after_initializer, is_exception, leaves_open, block_start_reports, next_raw,
  blank_line_reports, check_spacing, check_parenthesis_spacing, check_comma_spacing,
}

after_initializer-Given :
    (elided : List Str) (n : ℕ) → n ≤ length elided → Given (after_initializer elided n)
unfolding after_initializer
after_initializer-Given elided zero h = (false, refl)
after_initializer-Given elided (suc n) h =
    let (line, e) = get_elem?-some elided n (omega arith) in
    elim (Bool-cases (matches six_spaces line)) [
      | inl t ↦ rw (e, t, after_initializer) (after_initializer-Given elided n (omega arith))
      | inr f ↦ rw (e, f, after_initializer) (_, refl)
    ]

line_before-Given : (elided : List Str) (n : ℕ) → n < length elided → Given (line_before elided n)
line_before-Given elided zero h = get_elem?-some elided (length elided - 1) (omega arith)
line_before-Given elided (suc n) h = get_elem?-some elided n (omega arith)

module _ (c : CleansedLines) (linenum : ℕ) (a : Aligned c linenum) where
  pub next_raw-Given : Given (next_raw c linenum)
  next_raw-Given =
      Given-if (ltb (linenum + 1) c.num_lines) _ _
        (λ t.
          let (line, e) =
            get_elem?-some c.lines_without_raw_strings (linenum + 1)
              (omega (arith, a.plain, ltb→lt (linenum + 1) c.num_lines t)) in
          rw e (_, refl))
        (λ _. (_, refl))

  is_exception-Given : (prev : Str) → Given (is_exception c.elided linenum prev)
  unfolding is_exception
  is_exception-Given prev =
      Given-if (matches six_spaces prev) _ _
        (λ _. after_initializer-Given c.elided (linenum - 1) (omega (arith, a.elided, a.within)))
        (λ _. (_, refl))

  block_start_reports-Given :
      (filename prev : Str) → Given (block_start_reports filename c.elided linenum prev)
  unfolding block_start_reports
  block_start_reports-Given filename prev =
      Given-if (leaves_open prev) _ _
        (λ _. Given-bind _ _ (is_exception-Given prev) (λ exception _. (_, refl))) (λ _. (_, refl))

  blank_line_reports-Given : (filename : Str) → Given (blank_line_reports filename c linenum)
  unfolding blank_line_reports
  blank_line_reports-Given filename =
      Given-bind _ _ (line_before-Given c.elided linenum (omega (arith, a.elided, a.within)))
        λ prev _.
          Given-bind _ _ (block_start_reports-Given filename prev)
            λ starts _. Given-bind _ _ next_raw-Given (λ next _. (_, refl))

  pub elided-line : Given (get_elem? c.elided linenum)
  elided-line = get_elem?-some c.elided linenum (omega (arith, a.elided, a.within))

  pub plain-line : Given (get_elem? c.lines_without_raw_strings linenum)
  plain-line = get_elem?-some c.lines_without_raw_strings linenum (omega (arith, a.plain, a.within))

  pub check_spacing-Given :
      (filename : Str) (st : NestingState) → Given (check_spacing filename c linenum st)
  unfolding check_spacing
  check_spacing-Given filename st = Given-bind _ _ plain-line λ line _.
      Given-bind _ _
        (Given-if (is_blank_line line && not (in_namespace_body st) && not (in_extern_c st)) _ _
          (λ _. blank_line_reports-Given filename) (λ _. (_, refl)))
        λ blank _.
          Given-bind _ _ next_raw-Given λ next _. Given-bind _ _ elided-line (λ line' _. (_, refl))

  pub check_parenthesis_spacing-Given :
      (filename : Str) → Given (check_parenthesis_spacing filename c.elided linenum)
  unfolding check_parenthesis_spacing
  check_parenthesis_spacing-Given filename = Given-bind _ _ elided-line (λ line _. (_, refl))

  pub check_comma_spacing-Given : (filename : Str) → Given (check_comma_spacing filename c linenum)
  unfolding check_comma_spacing
  check_comma_spacing-Given filename =
      Given-bind _ _ elided-line (λ line _. Given-bind _ _ plain-line (λ raw _. (_, refl)))
