-- ===== src/Checks/Operators/Total.antt =====
-- That `CheckOperatorSpacing` returns.
use core_arbiter.Prelude.{
  ℕ, ◌≤◌, ◌<◌, ◌≡◌, refl, some, List, arith, inl, inr, Option-cases, length, get_elem?,
  get_elem?-some,
}
use core_arbiter.Prelude.Fallible.{Given, Given-bind, Given-if}
use core_arbiter.Str.{Str, codes}
use core_arbiter.Prelude.{◌++◌, ◌==◌}
use core_arbiter.Checks.Operators.{blanks}
use core_arbiter.Regex.{Found, star, any_char, none_of, ◌⨾◌, match, search_regex, matches}
use core_arbiter.Regex.Groups.{match-group_char_more}
use core_arbiter.Brackets.Forward.{Place, close_expression}
use core_arbiter.Brackets.Forward.Bounds.{Ends, close_expression-Ends}
use core_arbiter.Brackets.Backward.{reverse_close_expression}
use core_arbiter.Brackets.Backward.Bounds.{Begins, reverse_close_expression-Begins}
use core_arbiter.Checks.Spacing.{group_of}
use core_arbiter.Checks.Operators.{
  tight_less, tight_greater, tight_comparison, include_directive, less_reports, greater_reports,
  comparison_reports, operator_reports, check_operator_spacing,
}
use core_arbiter.Checks.Operators.Masked.{mask_operators-returns}

tight_less-short :
    (s : Str) (m : Found) → match tight_less s ≡ some m → length (group_of s m 1) < length s
tight_less-short s m e =
    match-group_char_more (star any_char ⨾ none_of (codes "<" ++ blanks))
      (none_of (codes "=<," ++ blanks)) (λ d. b'<' == d) s m refl e

tight_greater-short :
    (s : Str) (m : Found) → match tight_greater s ≡ some m → length (group_of s m 1) < length s
tight_greater-short s m e =
    match-group_char_more (star any_char ⨾ none_of (codes "->" ++ blanks))
      (none_of (codes "=>," ++ blanks)) (λ d. b'>' == d) s m refl e

module _ (elided : List Str) (linenum : ℕ) (line : Str)
    (at : get_elem? elided linenum ≡ some line) where
  -- Brackets are matched from every place of the line.
  pub close_expression-Given :
      (pos : ℕ)
      → pos < length line
      → (q : Place) × (close_expression elided linenum pos ≡ some q) × Ends elided linenum q
  close_expression-Given pos lt =
      let (c, e) = get_elem?-some line pos lt in
      close_expression-Ends elided linenum pos line c at e

  pub reverse_close_expression-Given :
      (pos : ℕ)
      → pos < length line
      → (q : Place) × (reverse_close_expression elided linenum pos ≡ some q)
        × Begins elided linenum q
  reverse_close_expression-Given pos lt =
      let (c, e) = get_elem?-some line pos lt in
      reverse_close_expression-Begins elided linenum pos line c at e

  module _ (filename masked : Str) (le : length masked ≤ length line) where
    less_reports-Given : Given (less_reports filename elided linenum masked)
    unfolding less_reports
    less_reports-Given = elim (Option-cases (match tight_less masked)) [
      | inl e ↦ rw e (_, refl)
      | inr (m, e) ↦
          let lt = tight_less-short masked m e in
          let (q, f, ends) =
            close_expression-Given (length (group_of masked m 1)) (omega (arith, lt)) in
          rw e (Given-bind _ _ (q, f) (λ p _. (_, refl)))
    ]

    greater_reports-Given : Given (greater_reports filename elided linenum masked)
    unfolding greater_reports
    greater_reports-Given = elim (Option-cases (match tight_greater masked)) [
      | inl e ↦ rw e (_, refl)
      | inr (m, e) ↦
          let lt = tight_greater-short masked m e in
          let (q, f, begins) =
            reverse_close_expression-Given (length (group_of masked m 1)) (omega (arith, lt)) in
          rw e (Given-bind _ _ (q, f) (λ p _. (_, refl)))
    ]

    comparison_reports-Given : Given (comparison_reports filename elided linenum masked)
    unfolding comparison_reports
    comparison_reports-Given = elim (Option-cases (search_regex tight_comparison masked)) [
      | inl e ↦
          rw (e, comparison_reports)
            (Given-if (matches include_directive masked) _ _ (λ _. (_, refl))
              λ _.
                Given-bind _ _ less_reports-Given
                  λ less _. Given-bind _ _ greater_reports-Given λ greater _. (_, refl))
      | inr (m, e) ↦ rw (e, comparison_reports) (_, refl)
    ]

    operator_reports-Given : Given (operator_reports filename elided linenum masked)
    unfolding operator_reports
    operator_reports-Given = Given-bind _ _ comparison_reports-Given (λ r _. (_, refl))

  pub check_operator_spacing-Given :
      (filename : Str) → Given (check_operator_spacing filename elided linenum)
  unfolding check_operator_spacing
  check_operator_spacing-Given filename =
      let (masked, e, le) = mask_operators-returns line in
      rw at (rw e (operator_reports-Given filename masked le))
