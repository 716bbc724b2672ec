-- ===== src/Nesting/Update/Starts.antt =====
-- The stack of blocks at the start of a branch.

use core_arbiter.Prelude.{ℕ, ◌≡◌, ◌∙◌, List, ◌∷◌, ◌++◌, some, false, []}
use core_arbiter.Str.{Str}
use core_arbiter.Cleanse.Lines.{CleansedLines}
use core_arbiter.Nesting.Blocks.{BlockInfo, PreprocessorInfo, NestingState}
use core_arbiter.Nesting.Preprocessor.{
  begins_if, begins_else, directive_of, deep_copy, mark_else, restore_if, update_preprocessor,
}
use core_arbiter.Nesting.Update.{update_lines}
use core_arbiter.Nesting.Update.Branches.{after_if, Nested}
use core_arbiter.Nesting.Update.Restores.{anonymous, anonymous-deep_copy}
use core_arbiter.Nesting.Update.Runs.{InFile}
use core_arbiter.Nesting.Update.Tops.{FurtherBranches, Top, one_branch, else_branches-Top}
use core_arbiter.Prelude.Fallible.{Returns-some}
use core_arbiter.Report.{Report}
use core_arbiter.Prelude.{true, if_cases}

-- `stack` was kept of the time before the #if.
abbrev Opened : List BlockInfo → PreprocessorInfo → Type 0
Opened stack p = anonymous p.stack_before_if ≡ anonymous stack

mark_else-Opened :
    (stack s : List BlockInfo) (n : ℕ) (p : PreprocessorInfo)
    → Opened stack p
    → Opened stack (mark_else s n p)
mark_else-Opened stack s n p h =
    if_cases (Opened stack) p.seen_else p
      (record p { seen_else = true; stack_before_else = deep_copy n s }) (λ _. h) (λ _. h)

restored_stack :
    (o pps : List PreprocessorInfo) (p : PreprocessorInfo) (st : NestingState)
    → o ≡ p ∷ pps
    → anonymous (restore_if o st).stack ≡ anonymous p.stack_before_if
restored_stack o pps p st e = rw e (anonymous-deep_copy _ p.stack_before_if)

opened :
    (line : Str) (stack : List BlockInfo) (pps : List PreprocessorInfo) (s : NestingState)
    → directive_of line ≡ begins_else
    → Top (Opened stack) pps s
    → anonymous (update_preprocessor line s).stack ≡ anonymous stack
unfolding update_preprocessor
opened line stack pps s d h =
    rw (d, update_preprocessor) (restored_stack s.pp_stack pps h.info s h.top_is ∙ h.has)

-- On an #if and its branches so far, each with nested directives, `Update` returns, and a further
-- #else or #elif behind them starts its branch with the stack of blocks of before the #if, up to
-- the identities of the objects, whatever blocks the branches so far opened and closed.
pub branches_start :
    (filename : Str) (clean_lines : CleansedLines) (linenum : ℕ) (line next : Str)
    {body lines : List Str} (st : NestingState)
    → directive_of line ≡ begins_if
    → Nested body
    → FurtherBranches lines
    → directive_of next ≡ begins_else
    → InFile clean_lines linenum (line ∷ (body ++ lines))
    → (r : NestingState × List Report) × (update_lines filename clean_lines linenum
          (line ∷ (body ++ lines))
          st
        ≡ some r)
      × (anonymous (update_preprocessor next r.0).stack ≡ anonymous st.stack)
branches_start filename clean_lines linenum line next {body} {lines} st d n more i h =
    let (r, ran, s) =
      Returns-some (λ (r : NestingState × List Report). Top (Opened st.stack) st.pp_stack r.0)
        (update_lines filename clean_lines linenum (line ∷ (body ++ lines)) st)
        (one_branch filename clean_lines (Opened st.stack) st.pp_stack linenum line body lines st
          record {
            stack_before_if = deep_copy st.objects st.stack;
            stack_before_else = [];
            seen_else = false;
          }
          (anonymous-deep_copy st.objects st.stack) (after_if line st d) n h
          (λ m t u j.
            else_branches-Top filename clean_lines (Opened st.stack) st.pp_stack m t
              (mark_else-Opened st.stack) more u j)) in
    (r, ran, opened next st.stack st.pp_stack r.0 i s)
