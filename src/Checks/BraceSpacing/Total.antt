-- ===== src/Checks/BraceSpacing/Total.antt =====
-- That `CheckBracesSpacing` and `CheckSectionSpacing` return.
use core_arbiter.Prelude.{
  ℕ, ◌+◌, ◌-◌, ◌<◌, ◌≡◌, refl, ◌||◌, some, arith, inl, inr, Option-cases, ◌==◌, leb, length,
  get_elem?, get_elem?-some,
}
use core_arbiter.Prelude.Fallible.{Given, Given-bind, Given-if}
use core_arbiter.Prelude.{[], List, Option, none, some}
use core_arbiter.Prelude.Fallible.{◌>>=◌}
use core_arbiter.Report.{Report}
use core_arbiter.Checks.BraceSpacing.{section_reports}
use core_arbiter.Str.{Str, codes}
use core_arbiter.Regex.{Found, match, matches, star, any_char, none_of, ◌⨾◌}
use core_arbiter.Regex.Groups.{match-group_char}
use core_arbiter.Cleanse.Lines.{CleansedLines}
use core_arbiter.Nesting.Blocks.{NestingState, ClassInfo}
use core_arbiter.Checks.Aligned.{Aligned}
use core_arbiter.Checks.Operators.Total.{close_expression-Given}
use core_arbiter.Checks.Spacing.{group_of, access_label}
use core_arbiter.Checks.Types.Total.{StartWithin, is_type-Given}
use core_arbiter.Checks.BraceSpacing.{
  tight_brace, initializer_follows, trailing_text, initializer_reports, check_braces_spacing,
  check_section_spacing,
}

tight_brace-short :
    (s : Str) (m : Found) → match tight_brace s ≡ some m → length (group_of s m 1) < length s
tight_brace-short s m e =
    match-group_char (star any_char ⨾ none_of (codes " ({>")) (λ d. b'{' == d) s m e

module _ (c : CleansedLines) (linenum : ℕ) (a : Aligned c linenum) where
  initializer_reports-Given :
      (filename line : Str) (st : NestingState)
      → get_elem? c.elided linenum ≡ some line
      → StartWithin c.elided st.stack
      → Given (initializer_reports filename c linenum st line)
  unfolding initializer_reports
  initializer_reports-Given filename line st at within =
      elim (Option-cases (match tight_brace line)) [
        | inl e ↦ rw (e, initializer_reports) (_, refl)
        | inr (m, e) ↦
            let text = group_of line m 1 in
            let (q, f, ends) =
              close_expression-Given c.elided linenum line at (length text)
                (tight_brace-short line m e) in
            rw (e, initializer_reports)
              (Given-bind _ _ (q, f)
                λ place _.
                  Given-if (matches initializer_follows (trailing_text c place)) _ _
                    (λ _. (_, refl))
                    λ _.
                      Given-bind _ _ (is_type-Given c.elided st.stack text within)
                        (λ t _. (_, refl)))
      ]

  pub check_braces_spacing-Given :
      (filename : Str) (st : NestingState)
      → StartWithin c.elided st.stack
      → Given (check_braces_spacing filename c linenum st)
  unfolding check_braces_spacing
  check_braces_spacing-Given filename st within =
      let (line, at) = get_elem?-some c.elided linenum (omega (arith, a.elided, a.within)) in
      rw at
        (Given-bind _ _ (initializer_reports-Given filename line st at within) (λ r _. (_, refl)))

  labelled :
      (filename line prev : Str) (start : ℕ) (o : Option Found)
      → get_elem? c.lines (linenum - 1) ≡ some prev
      → Given {A = List Report} (elim o [
        | none ↦ some []
        | some m ↦ get_elem? c.lines (linenum - 1) >>= λ prev_line.
            some (section_reports filename c.lines start linenum (group_of line m 1) prev_line)
      ])
  labelled filename line prev start none e = (_, refl)
  labelled filename line prev start (some m) e = rw e (_, refl)

  pub check_section_spacing-Given :
      (filename : Str) (start : ℕ) (k : ClassInfo)
      → Given (check_section_spacing filename c start k linenum)
  unfolding check_section_spacing
  check_section_spacing-Given filename start k =
      Given-if (leb k.last_line (start + 24) || leb linenum start) _ _ (λ _. (_, refl))
        λ _.
          let (line, at) = get_elem?-some c.lines linenum (omega (arith, a.lines, a.within)) in
          let (prev, at') =
            get_elem?-some c.lines (linenum - 1) (omega (arith, a.lines, a.within)) in
          rw at (labelled filename line prev start (match access_label line) at')
