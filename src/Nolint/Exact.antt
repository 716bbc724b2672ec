-- ===== src/Nolint/Exact.antt =====
-- Which lines and categories a NOLINT comment suppresses.

use core_arbiter.Prelude.{
  ℕ, ◌+◌, ◌≡◌, refl, sym, ◌⊎◌, inl, inr, Bool, true, false, not, ◌&&◌, Option, none, some, List, [],
  ◌∷◌, if◌then◌else◌, Option-cases, if_cases,
}
use core_arbiter.Str.{Str, codes, ◌=s◌, is_in, starts_with, ends_with}
use core_arbiter.Regex.{group_text, search_regex}
use core_arbiter.Nolint.{
  Suppressions, nolint_comment, add, inner, unknown_category, suppress_category, suppress, is_given,
  parse_nolint_suppressions,
}
use core_arbiter.Report.{Report}
use core_arbiter.Tables.{error_categories, legacy_error_categories}
use core_arbiter.Prelude.{ap, ◌∙◌, ◌≢◌, ◌||◌, arith, ◌==◌}
use core_arbiter.Nolint.{is_error_suppressed_by_nolint}

-- What `ParseNolintSuppressions` can do on line `linenum`.
pub data Effect (filename : Str) (linenum : ℕ) (s : Suppressions) (r : Suppressions × List Report)
    : Type 0 where
  nothing : r ≡ (s, []) → Effect filename linenum s r
  every_category :
      (line : ℕ)
      → (line ≡ linenum) ⊎ (line ≡ linenum + 1)
      → r ≡ (add none line s, [])
      → Effect filename linenum s r
  one_category :
      (category : Str) (line : ℕ)
      → (line ≡ linenum) ⊎ (line ≡ linenum + 1)
      → is_in category error_categories ≡ true
      → r ≡ (add (some category) line s, [])
      → Effect filename linenum s r
  unknown :
      (category : Str)
      → is_in category error_categories ≡ false
      → is_in category legacy_error_categories ≡ false
      → r ≡ (s, unknown_category filename linenum category ∷ [])
      → Effect filename linenum s r

module _ (filename : Str) (linenum : ℕ) (s : Suppressions) where
  suppress_category-Effect :
      (line : ℕ) (category : Str)
      → (line ≡ linenum) ⊎ (line ≡ linenum + 1)
      → Effect filename linenum s (suppress_category filename linenum line category s)
  unfolding suppress_category
  suppress_category-Effect line category h =
      if_cases (Effect filename linenum s)
        (starts_with category (codes "(") && ends_with category (codes ")")) _ _
        (λ _.
          if_cases (Effect filename linenum s) (is_in (inner category) error_categories) _ _
            (λ e. one_category (inner category) line h e refl)
            λ e.
              if_cases (Effect filename linenum s)
                (not (is_in (inner category) legacy_error_categories)) _ _
                (λ k. unknown (inner category) e (not_true _ k) refl) (λ _. nothing refl))
        (λ _. nothing refl)
    where
      not_true : (b : Bool) → not b ≡ true → b ≡ false
      not_true true k = sym k
      not_true false k = refl

  suppress-Effect :
      (line : ℕ) (key : Option Str)
      → (line ≡ linenum) ⊎ (line ≡ linenum + 1)
      → Effect filename linenum s (suppress filename linenum line key s)
  unfolding suppress
  suppress-Effect line none h = every_category line h refl
  suppress-Effect line (some category) h =
      if_cases (Effect filename linenum s) (category =s codes "(*)") _ _
        (λ _. every_category line h refl) (λ _. suppress_category-Effect line category h)

  -- A call of `ParseNolintSuppressions` does nothing, or suppresses every category, or one that is
  -- known, on this line or the next, or reports a category that is neither known nor a legacy one.
  pub parse_nolint-Effect :
      (raw_line : Str)
      → Effect filename linenum s (parse_nolint_suppressions filename raw_line linenum s)
  unfolding parse_nolint_suppressions
  parse_nolint-Effect raw_line = elim (Option-cases (search_regex nolint_comment raw_line)) [
    | inl e ↦ rw (e, parse_nolint_suppressions) (nothing refl)
    | inr (m, e) ↦
        rw (e, parse_nolint_suppressions)
          (suppress-Effect _ (group_text raw_line m 2)
            (line_choice (is_given (group_text raw_line m 1))))
  ]
    where
      line_choice :
          (b : Bool)
          → ((if b then linenum + 1 else linenum) ≡ linenum)
            ⊎ ((if b then linenum + 1 else linenum) ≡ linenum + 1)
      line_choice true = inr refl
      line_choice false = inl refl

-- The pair `(key, line)` suppresses this category on this line.
abbrev pub covers : Option Str → ℕ → Str → ℕ → Bool
covers none line category linenum = line == linenum
covers (some k) line category linenum = k =s category && line == linenum

add-suppresses :
    (key : Option Str) (line : ℕ) (s : Suppressions) (category : Str) (linenum : ℕ)
    → is_error_suppressed_by_nolint category linenum (add key line s)
      ≡ (covers key line category linenum || is_error_suppressed_by_nolint category linenum s)
unfolding is_error_suppressed_by_nolint
add-suppresses none line s category linenum = ground arith
add-suppresses (some k) line s category linenum = ground arith

elsewhere :
    (key : Option Str) (line linenum m : ℕ) (category : Str)
    → (line ≡ linenum) ⊎ (line ≡ linenum + 1)
    → m ≢ linenum
    → m ≢ linenum + 1
    → covers key line category m ≡ false
elsewhere none line linenum m category h a b = ground arith
elsewhere (some k) line linenum m category h a b = ground arith

abbrev suppressed_after : Str → ℕ → Suppressions × List Report → Bool
suppressed_after category m r = is_error_suppressed_by_nolint category m r.0

-- A call of `ParseNolintSuppressions` on a line changes nothing on other lines but the next: what is
-- suppressed there and what is not stays the same.
pub parse_nolint-elsewhere :
    (filename raw_line category : Str) (linenum m : ℕ) (s : Suppressions)
    → m ≢ linenum
    → m ≢ linenum + 1
    → is_error_suppressed_by_nolint category m
        (parse_nolint_suppressions filename raw_line linenum s).0
      ≡ is_error_suppressed_by_nolint category m s
parse_nolint-elsewhere filename raw_line category linenum m s a b =
    go (parse_nolint_suppressions filename raw_line linenum s)
      (parse_nolint-Effect filename linenum s raw_line)
  where
    go :
        (r : Suppressions × List Report)
        → Effect filename linenum s r
        → is_error_suppressed_by_nolint category m r.0 ≡ is_error_suppressed_by_nolint category m s
    go r (nothing e) = ap (suppressed_after category m) e
    go r (every_category line h e) =
        ap (suppressed_after category m) e
        ∙ add-suppresses none line s category m
        ∙ ap (λ c. c || is_error_suppressed_by_nolint category m s)
            (elsewhere none line linenum m category h a b)
    go r (one_category k line h known e) =
        ap (suppressed_after category m) e
        ∙ add-suppresses (some k) line s category m
        ∙ ap (λ c. c || is_error_suppressed_by_nolint category m s)
            (elsewhere (some k) line linenum m category h a b)
    go r (unknown k u v e) = ap (suppressed_after category m) e

or_stays : (a b : Bool) → b ≡ true → (a || b) ≡ true
or_stays true b h = refl
or_stays false b h = h

-- What is suppressed stays suppressed over a call of `ParseNolintSuppressions`.
pub parse_nolint-keeps :
    (filename raw_line category : Str) (linenum m : ℕ) (s : Suppressions)
    → is_error_suppressed_by_nolint category m s ≡ true
    → is_error_suppressed_by_nolint category m
        (parse_nolint_suppressions filename raw_line linenum s).0
      ≡ true
parse_nolint-keeps filename raw_line category linenum m s h =
    go (parse_nolint_suppressions filename raw_line linenum s)
      (parse_nolint-Effect filename linenum s raw_line)
  where
    go :
        (r : Suppressions × List Report)
        → Effect filename linenum s r
        → is_error_suppressed_by_nolint category m r.0 ≡ true
    go r (nothing e) = ap (suppressed_after category m) e ∙ h
    go r (every_category line k e) =
        ap (suppressed_after category m) e ∙ add-suppresses none line s category m ∙ or_stays _ _ h
    go r (one_category c line k known e) =
        ap (suppressed_after category m) e
        ∙ add-suppresses (some c) line s category m
        ∙ or_stays _ _ h
    go r (unknown c u v e) = ap (suppressed_after category m) e ∙ h
