-- ===== src/Nesting/Update/Branches.antt =====
-- What `NestingState` keeps of the branches of #if, #else and #endif.

use core_arbiter.Prelude.{ℕ, ◌≡◌, refl, false, List, [], ◌∷◌, ◌++◌, arith}
use core_arbiter.Str.{Str}
use core_arbiter.Cleanse.Lines.{CleansedLines}
use core_arbiter.Nesting.Blocks.{PreprocessorInfo, NestingState}
use core_arbiter.Nesting.Preprocessor.{
  begins_if, begins_else, ends_if, no_directive, directive_of, deep_copy, mark_else, restore_if,
  pop_endif, update_preprocessor,
}
use core_arbiter.Nesting.Update.{top_of, enter_line, update_line}
use core_arbiter.Nesting.Update.Runs.{Ends, InFile}
use core_arbiter.Nesting.Update.Total.{keeps_through, update_line-Keeps}
use core_arbiter.Prelude.{◌+◌, ◌∙◌, length, length-append}
use core_arbiter.Nesting.Update.{update_lines}
use core_arbiter.Nesting.Update.Runs.{update_lines-cons, update_lines-append}
use core_arbiter.Prelude.{some}
use core_arbiter.Nesting.Update.Runs.{update_lines-nil}
use core_arbiter.Prelude.Fallible.{Returns-some}
use core_arbiter.Report.{Report}

-- Lines whose directives are nested: none of them ends or divides a branch that begins before.
-- `Closes` is what follows the first branch of an #if: further branches, its #endif, and more lines.
mutual
  pub data Nested : List Str → Type 0 where
    finished : Nested []
    plain_line :
        (line : Str) {lines : List Str}
        → directive_of line ≡ no_directive
        → Nested lines
        → Nested (line ∷ lines)
    if_block :
        (line : Str) {body lines : List Str}
        → directive_of line ≡ begins_if
        → Nested body
        → Closes lines
        → Nested (line ∷ (body ++ lines))

  pub data Closes : List Str → Type 0 where
    endif_line :
        (line : Str) {lines : List Str}
        → directive_of line ≡ ends_if
        → Nested lines
        → Closes (line ∷ lines)
    else_branch :
        (line : Str) {body lines : List Str}
        → directive_of line ≡ begins_else
        → Nested body
        → Closes lines
        → Closes (line ∷ (body ++ lines))

-- The preprocessor stack behind a directive.
pub after_plain :
    (line : Str) (st : NestingState)
    → directive_of line ≡ no_directive
    → (enter_line line st).pp_stack ≡ st.pp_stack
unfolding enter_line update_preprocessor
after_plain line st h = rw (h, update_preprocessor) refl

pub after_if :
    (line : Str) (st : NestingState)
    → directive_of line ≡ begins_if
    → (enter_line line st).pp_stack
      ≡ record {
        stack_before_if = deep_copy st.objects st.stack;
        stack_before_else = [];
        seen_else = false;
      }
        ∷ st.pp_stack
unfolding enter_line update_preprocessor
after_if line st h = rw (h, update_preprocessor) refl

restore_pp_stack :
    (o pps : List PreprocessorInfo) (p : PreprocessorInfo) (st : NestingState)
    → o ≡ p ∷ pps
    → (restore_if o st).pp_stack ≡ mark_else st.stack st.objects p ∷ pps
restore_pp_stack o pps p st e = rw e refl

pop_pp_stack :
    (o pps : List PreprocessorInfo) (p : PreprocessorInfo) (st : NestingState)
    → o ≡ p ∷ pps
    → (pop_endif o st).pp_stack ≡ pps
pop_pp_stack o pps p st e = rw e refl

pub after_else :
    (line : Str) (st : NestingState) (p : PreprocessorInfo) (pps : List PreprocessorInfo)
    → directive_of line ≡ begins_else
    → st.pp_stack ≡ p ∷ pps
    → (enter_line line st).pp_stack ≡ mark_else st.stack st.objects p ∷ pps
unfolding enter_line update_preprocessor
after_else line st p pps h e =
    rw (h, update_preprocessor)
      (restore_pp_stack st.pp_stack pps p (record st { previous_stack_top = top_of st.stack }) e)

pub after_endif :
    (line : Str) (st : NestingState) (p : PreprocessorInfo) (pps : List PreprocessorInfo)
    → directive_of line ≡ ends_if
    → st.pp_stack ≡ p ∷ pps
    → (enter_line line st).pp_stack ≡ pps
unfolding enter_line update_preprocessor
after_endif line st p pps h e =
    rw (h, update_preprocessor)
      (pop_pp_stack st.pp_stack pps p (record st { previous_stack_top = top_of st.stack }) e)

abbrev pub HasPps : List PreprocessorInfo → NestingState → Type 0
HasPps pps s = s.pp_stack ≡ pps

module _ (filename : Str) (clean_lines : CleansedLines) where
  pub run_line :
      (linenum : ℕ) (line : Str) (lines : List Str) (st : NestingState)
      (pps : List PreprocessorInfo)
      → InFile clean_lines linenum (line ∷ lines)
      → (enter_line line st).pp_stack ≡ pps
      → Ends (HasPps pps) (update_line filename clean_lines linenum line st)
  run_line linenum line lines st pps (h, k) e =
      keeps_through (update_line filename clean_lines linenum line st) e
        (update_line-Keeps filename clean_lines linenum line st (omega arith) (omega arith))

  mutual
    pub Nested-Keeps :
        {lines : List Str} (linenum : ℕ) (st : NestingState)
        → Nested lines
        → InFile clean_lines linenum lines
        → Ends (HasPps st.pp_stack) (update_lines filename clean_lines linenum lines st)
    Nested-Keeps linenum st finished h =
        update_lines-nil filename clean_lines (HasPps st.pp_stack) linenum st refl
    Nested-Keeps linenum st (plain_line line {lines = lines} d n) (h, k) =
        update_lines-cons filename clean_lines (HasPps st.pp_stack) (HasPps st.pp_stack) linenum
          line lines st (run_line linenum line lines st st.pp_stack (h, k) (after_plain line st d))
          (λ s e.
            keeps_through (update_lines filename clean_lines (linenum + 1) lines s) e
              (Nested-Keeps (linenum + 1) s n (omega arith)))
    Nested-Keeps linenum st (if_block line {body = body} {lines = lines} d n c) (h, k) =
        let p : PreprocessorInfo = record {
          stack_before_if = deep_copy st.objects st.stack;
          stack_before_else = [];
          seen_else = false;
        } in
        update_lines-cons filename clean_lines (HasPps (p ∷ st.pp_stack)) (HasPps st.pp_stack)
          linenum line (body ++ lines) st
          (run_line linenum line (body ++ lines) st (p ∷ st.pp_stack) (h, k) (after_if line st d))
          (λ s e.
            update_lines-append filename clean_lines (HasPps s.pp_stack) (HasPps st.pp_stack) body
              lines (linenum + 1) s
              (Nested-Keeps (linenum + 1) s n (omega (arith, length-append body lines)))
              (λ t f.
                Closes-Keeps (linenum + 1 + length body) t p st.pp_stack c (f ∙ e)
                  (omega (arith, length-append body lines))))

    Closes-Keeps :
        {lines : List Str} (linenum : ℕ) (st : NestingState) (p : PreprocessorInfo)
        (pps : List PreprocessorInfo)
        → Closes lines
        → st.pp_stack ≡ p ∷ pps
        → InFile clean_lines linenum lines
        → Ends (HasPps pps) (update_lines filename clean_lines linenum lines st)
    Closes-Keeps linenum st p pps (endif_line line {lines = lines} d n) e (h, k) =
        update_lines-cons filename clean_lines (HasPps pps) (HasPps pps) linenum line lines st
          (run_line linenum line lines st pps (h, k) (after_endif line st p pps d e))
          (λ s f.
            keeps_through (update_lines filename clean_lines (linenum + 1) lines s) f
              (Nested-Keeps (linenum + 1) s n (omega arith)))
    Closes-Keeps linenum st p pps (else_branch line {body = body} {lines = lines} d n c) e (h, k) =
        let q : PreprocessorInfo = mark_else st.stack st.objects p in
        update_lines-cons filename clean_lines (HasPps (q ∷ pps)) (HasPps pps) linenum line
          (body ++ lines) st
          (run_line linenum line (body ++ lines) st (q ∷ pps) (h, k) (after_else line st p pps d e))
          (λ s f.
            update_lines-append filename clean_lines (HasPps s.pp_stack) (HasPps pps) body lines
              (linenum + 1) s
              (Nested-Keeps (linenum + 1) s n (omega (arith, length-append body lines)))
              (λ t g.
                Closes-Keeps (linenum + 1 + length body) t q pps c (g ∙ f)
                  (omega (arith, length-append body lines))))

  -- On lines of the file whose directives are nested, `Update` returns on every line, and the
  -- preprocessor stack behind them is the one before them.
  pub update_lines-Nested :
      {lines : List Str} (linenum : ℕ) (st : NestingState)
      → Nested lines
      → InFile clean_lines linenum lines
      → (r : NestingState × List Report) × (update_lines filename clean_lines linenum lines st
          ≡ some r)
        × (r.0.pp_stack ≡ st.pp_stack)
  update_lines-Nested {lines} linenum st n h =
      Returns-some (λ r. r.0.pp_stack ≡ st.pp_stack)
        (update_lines filename clean_lines linenum lines st) (Nested-Keeps linenum st n h)
