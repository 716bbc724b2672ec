-- ===== src/Reporting/Sums.antt =====
-- The counters of `Error` and the lines it writes.

use core_arbiter.Prelude.{ℕ, ◌+◌, ◌≡◌, refl, Bool, true, ◌||◌, List, [], ◌∷◌, arith}
use core_arbiter.Str.{Str, codes, ◌=s◌}
use core_arbiter.LintState.{LintState, bump, top_level, increment_error_count}
use core_arbiter.Prelude.{ap, ◌∙◌, false, Option, some, ◌++◌, length, length-append}
use core_arbiter.LintState.Filters.{AllSigned}
use core_arbiter.Nolint.{Suppressions}
use core_arbiter.Report.{Report}
use core_arbiter.Reporting.{should_print_error, error_line, error, errors}
use core_arbiter.Reporting.LastFilter.{should_print_error-last_word}
use core_arbiter.Prelude.{if◌then◌else◌}
use core_arbiter.Prelude.{if_cases}

abbrev pub sum_counts : List (Str × ℕ) → ℕ
sum_counts [] = 0
sum_counts ((c, n) ∷ counts) = n + sum_counts counts

sum-bump :
    (category : Str) (counts : List (Str × ℕ))
    → sum_counts (bump category counts) ≡ sum_counts counts + 1
unfolding bump
sum-bump category [] = refl
sum-bump category ((c, n) ∷ counts) = ground (arith, sum-bump category counts)

abbrev pub counts_by_category : LintState → Bool
counts_by_category st = st.counting =s codes "toplevel" || st.counting =s codes "detailed"

-- From the first state to the second `written` lines have been written.
pub record Tally (st st' : LintState) (written : ℕ) : Type 0 where
  pub total : st'.error_count ≡ st.error_count + written
  pub by_category :
      sum_counts st'.errors_by_category
      ≡ sum_counts st.errors_by_category + (if counts_by_category st then written else 0)
  pub rest_same :
      st' ≡ record st { error_count = st'.error_count; errors_by_category = st'.errors_by_category }

by_one : (b : Bool) (m n : ℕ) → b ≡ true → m ≡ n + 1 → m ≡ n + (if b then 1 else 0)
by_one b m n h e = ground arith

by_none : (b : Bool) (n : ℕ) → b ≡ false → n ≡ n + (if b then 1 else 0)
by_none b n h = ground arith

by_both :
    (b c : Bool) (x y z m n : ℕ)
    → c ≡ b
    → y ≡ x + (if b then m else 0)
    → z ≡ y + (if c then n else 0)
    → z ≡ x + (if b then m + n else 0)
by_both b c x y z m n h p q = ground arith

or_left : (a b : Bool) → a ≡ true → (a || b) ≡ true
or_left a b h = ground arith

or_right : (a b : Bool) → b ≡ true → (a || b) ≡ true
or_right a b h = ground arith

or_neither : (a b : Bool) → a ≡ false → b ≡ false → (a || b) ≡ false
or_neither a b h k = ground arith

increment-Tally : (category : Str) (st : LintState) → Tally st (increment_error_count category st) 1
unfolding increment_error_count
increment-Tally category st =
    let a : Bool = st.counting =s codes "toplevel" in
    let b : Bool = st.counting =s codes "detailed" in
    let counts : List (Str × ℕ) = st.errors_by_category in
    if_cases (λ st'. Tally st st' 1) a _ _
      (λ e. record {
        total = refl;
        by_category =
            by_one (counts_by_category st) _ _ (or_left a b e)
              (sum-bump (top_level category) counts);
        rest_same = refl;
      })
      λ e.
        if_cases (λ st'. Tally st st' 1) b _ _
          (λ d. record {
            total = refl;
            by_category =
                by_one (counts_by_category st) _ _ (or_right a b d) (sum-bump category counts);
            rest_same = refl;
          })
          (λ d. record {
            total = refl;
            by_category = by_none (counts_by_category st) (sum_counts counts) (or_neither a b e d);
            rest_same = refl;
          })

pub Tally-refl : (st : LintState) → Tally st st 0
Tally-refl st = record { total = omega arith; by_category = ground arith; rest_same = refl }

pub Tally-trans : {a b c : LintState} {m n : ℕ} → Tally a b m → Tally b c n → Tally a c (m + n)
Tally-trans {a} {b} {c} {m} {n} s t =
    let same : counts_by_category b ≡ counts_by_category a = ap counts_by_category s.rest_same in
    record {
      total = omega (arith, s.total, t.total);
      by_category =
          by_both (counts_by_category a) (counts_by_category b) _ _ _ m n same s.by_category
            t.by_category;
      rest_same =
          t.rest_same
          ∙ ap
              (λ (r : LintState). record r {
                error_count = c.error_count;
                errors_by_category = c.errors_by_category;
              })
              s.rest_same;
    }

-- What a call of `Error`, or several, has done.
pub record Reported (sup : Suppressions) (st : LintState) (o : Option (LintState × List Str))
    : Type 0 where
  pub state : LintState
  pub written : List Str
  pub ran : o ≡ some (state, written)
  pub tally : Tally st state (length written)

error-Reported :
    (sup : Suppressions) (r : Report) (st : LintState)
    → AllSigned st.filters
    → Reported sup st (error sup r st)
unfolding error
error-Reported sup r st h =
    go _ (should_print_error-last_word sup st r.category r.confidence r.linenum h)
  where
    go :
        (b : Bool)
        → should_print_error sup st r.category r.confidence r.linenum ≡ some b
        → Reported sup st (error sup r st)
    go true e = record {
      state = increment_error_count r.category st;
      written = error_line st.output_format r ∷ [];
      ran = rw (e, error);
      tally = increment-Tally r.category st;
    }
    go false e = record { state = st; written = []; ran = rw (e, error); tally = Tally-refl st }

-- Where all filters have their sign, any sequence of calls of `Error` raises nothing; the error count
-- grows by the number of lines written, and so does the sum of the counts by category where the
-- counting style keeps them; the rest of the state stays as it was.
pub errors-Reported :
    (sup : Suppressions) (rs : List Report) (st : LintState)
    → AllSigned st.filters
    → Reported sup st (errors sup rs st)
unfolding errors
errors-Reported sup [] st h = record { state = st; written = []; ran = refl; tally = Tally-refl st }
errors-Reported sup (r ∷ rs) st h =
    let a : Reported sup st (error sup r st) = error-Reported sup r st h in
    let signed : AllSigned a.state.filters =
      rw (ap (λ (s : LintState). s.filters) a.tally.rest_same) h in
    let b : Reported sup a.state (errors sup rs a.state) = errors-Reported sup rs a.state signed in
    record {
      state = b.state;
      written = a.written ++ b.written;
      ran = rw (a.ran, errors) (rw (b.ran));
      tally = rw (length-append a.written b.written) (Tally-trans a.tally b.tally);
    }
