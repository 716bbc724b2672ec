-- ===== src/Reporting/LastFilter.antt =====
-- The filters that `_ShouldPrintError` reads, and which of them decides.

use core_arbiter.Prelude.{◌≡◌, refl, Bool, Option, none, some, List, [], ◌∷◌, if◌then◌else◌, drop}
use core_arbiter.Str.{Str, codes, starts_with}
use core_arbiter.LintState.Filters.{AllSigned}
use core_arbiter.Reporting.{filter_loop}
use core_arbiter.Prelude.{ℕ, ap, ◌∙◌, inl, inr, true, false, not, ◌&&◌, arith, leb, Bool-cases}
use core_arbiter.LintState.{LintState, is_signed}
use core_arbiter.Nolint.{Suppressions, is_error_suppressed_by_nolint}
use core_arbiter.Reporting.{should_print_error}
use core_arbiter.Prelude.{sym}

-- What the last filter that applies says: `true` for `-`.
abbrev pub last_word : Str → List Str → Option Bool
last_word category [] = none
last_word category (f ∷ fs) = elim (last_word category fs) [
  | some b ↦ some b
  | none ↦ if starts_with category (drop 1 f) then some (starts_with f (codes "-")) else none
]

abbrev pub or_before : Bool → Option Bool → Bool
or_before b none = b
or_before b (some c) = c

sign_cases :
    (f : Str)
    → is_signed f ≡ true
    → starts_with f (codes "-") ≡ false
    → starts_with f (codes "+") ≡ true
sign_cases f h e = ground arith

step_word :
    (b here minus : Bool) (o : Option Bool)
    → or_before (if here then minus else b) o
      ≡ or_before b (elim o [ some c ↦ some c | none ↦ if here then some minus else none ])
step_word b true minus none = refl
step_word b false minus none = refl
step_word b here minus (some c) = refl

filter_loop-last_word :
    (category : Str) (b : Bool) (fs : List Str)
    → AllSigned fs
    → filter_loop category b fs ≡ some (or_before b (last_word category fs))
unfolding filter_loop
filter_loop-last_word category b [] h = refl
filter_loop-last_word category b (f ∷ fs) h =
    let here : Bool = starts_with category (drop 1 f) in
    elim (Bool-cases (starts_with f (codes "-"))) [
      | inl e ↦
          rw (e, filter_loop)
            (filter_loop-last_word category (if here then true else b) fs h.1
              ∙ ap (λ m. some (or_before (if here then m else b) (last_word category fs))) (sym e)
              ∙ ap some (step_word b here (starts_with f (codes "-")) (last_word category fs)))
      | inr e ↦
          rw (e, sign_cases f h.0 e, filter_loop)
            (filter_loop-last_word category (if here then false else b) fs h.1
              ∙ ap (λ m. some (or_before (if here then m else b) (last_word category fs))) (sym e)
              ∙ ap some (step_word b here (starts_with f (codes "-")) (last_word category fs)))
    ]

-- Where all filters have their sign, `_ShouldPrintError` raises nothing, and it accepts a message
-- exactly when it is not suppressed, its confidence reaches the verbosity level, and the last filter
-- that applies to its category, if there is one, is not a `-`.
pub should_print_error-last_word :
    (sup : Suppressions) (st : LintState) (category : Str) (confidence linenum : ℕ)
    → AllSigned st.filters
    → should_print_error sup st category confidence linenum
      ≡ some (
          not (is_error_suppressed_by_nolint category linenum sup)
          && leb st.verbose_level confidence
          && not (or_before false (last_word category st.filters)))
unfolding should_print_error
should_print_error-last_word sup st category confidence linenum h =
    ground (arith, filter_loop-last_word category false st.filters h)
