-- ===== src/Reporting/Run/Tallied.antt =====
-- What a row of checks does to the counters and to the lines written.
use core_arbiter.Prelude.{
  ◌≡◌, refl, ap, ◌∙◌, Option, none, some, List, ◌++◌, arith, length, length-append,
}
use mathlib.Core.List.{append_assoc}
use core_arbiter.Prelude.Fallible.{◌>>=◌, Given}
use core_arbiter.Str.{Str}
use core_arbiter.LintState.{LintState}
use core_arbiter.Nolint.{Suppressions}
use core_arbiter.Report.{Report}
use core_arbiter.LintState.Filters.{AllSigned}
use core_arbiter.Reporting.Sums.{Tally, Tally-trans, Reported, errors-Reported}
use core_arbiter.Reporting.{errors}
use core_arbiter.Reporting.Run.{Run, emit, emit_of, emit_with}

-- Lines are added to those written, and counted.
pub record Tallied (before after : Run) : Type 0 where
  pub more : List Str
  pub written_is : after.written ≡ before.written ++ more
  pub tally : Tally before.lint after.lint (length more)

-- The checks return, and have done so.
abbrev pub RunsFrom : Run → Option Run → Type 0
RunsFrom run m = (r : Run) × (m ≡ some r) × Tallied run r

abbrev pub Signed : Run → Type 0
Signed run = AllSigned run.lint.filters

after-Signed : (before after : Run) → Tallied before after → Signed before → Signed after
after-Signed before after t h = rw (ap (λ (s : LintState). s.filters) t.tally.rest_same) h

Tallied-trans : (a b c : Run) → Tallied a b → Tallied b c → Tallied a c
Tallied-trans a b c s t = record {
  more = s.more ++ t.more;
  written_is =
      t.written_is ∙ ap (λ w. w ++ t.more) s.written_is ∙ append_assoc a.written s.more t.more;
  tally = rw (length-append s.more t.more) (Tally-trans s.tally t.tally);
}

RunsFrom-bind :
    (run : Run) (m : Option Run) (f : Run → Option Run)
    → Signed run
    → RunsFrom run m
    → ((r : Run) → Signed r → RunsFrom r (f r))
    → RunsFrom run (m >>= f)
RunsFrom-bind run none f h (r, e, t) k = cc
RunsFrom-bind run (some a) f h (r, e, t) k =
    let same : Tallied run a = ground arith in
    let (r', e', t') = k a (after-Signed run a same h) in (r', e', Tallied-trans run a r' same t')

emit-RunsFrom : (reports : List Report) (run : Run) → Signed run → RunsFrom run (emit reports run)
unfolding emit
emit-RunsFrom reports run h =
    let a : Reported run.suppressions run.lint (errors run.suppressions reports run.lint) =
      errors-Reported run.suppressions reports run.lint h in
    (
      record run { lint = a.state; written = run.written ++ a.written },
      rw (a.ran) refl,
      record { more = a.written; written_is = refl; tally = a.tally },
    )

emit_of-RunsFrom :
    (check : Option (List Report)) (run : Run)
    → Signed run
    → Given check
    → RunsFrom run (emit_of check run)
emit_of-RunsFrom none run h (r, e) = cc
emit_of-RunsFrom (some reports) run h g = emit-RunsFrom reports run h

emit_with-RunsFrom :
    (check : Option (Suppressions × List Report)) (run : Run)
    → Signed run
    → Given check
    → RunsFrom run (emit_with check run)
emit_with-RunsFrom none run h (r, e) = cc
emit_with-RunsFrom (some (sup, reports)) run h g =
    let (r, e, t) = emit-RunsFrom reports (record run { suppressions = sup }) h in
    (r, e, record { more = t.more; written_is = t.written_is; tally = t.tally })

-- A step from a run whose filters have signs.
abbrev pub Keeps : (Run → Option Run) → Type 0
Keeps f = (run : Run) → Signed run → RunsFrom run (f run)

infixr 4 ◌then◌
pub ◌then◌ : {f g : Run → Option Run} → Keeps f → Keeps g → Keeps (λ run. f run >>= g)
◌then◌ {f} {g} p q run h = RunsFrom-bind run (f run) g h (p run h) q

pub emit_of-Keeps : {check : Option (List Report)} → Given check → Keeps (emit_of check)
emit_of-Keeps g run h = emit_of-RunsFrom _ run h g

pub emit_with-Keeps :
    (check : Suppressions → Option (Suppressions × List Report))
    → ((sup : Suppressions) → Given (check sup))
    → Keeps (λ run. emit_with (check run.suppressions) run)
emit_with-Keeps check g run h = emit_with-RunsFrom _ run h (g run.suppressions)
