-- ===== src/Nesting/Update/Restores.antt =====
-- The stack of blocks in the branches of an #if and behind its #endif.

use core_arbiter.Prelude.{ℕ, suc, ◌≡◌, refl, ap, ◌∙◌, true, false, some, List, [], ◌∷◌, ◌++◌}
use core_arbiter.Str.{Str}
use core_arbiter.Cleanse.Lines.{CleansedLines}
use core_arbiter.Nesting.Blocks.{BlockInfo, PreprocessorInfo, NestingState}
use core_arbiter.Nesting.Preprocessor.{
  begins_else, ends_if, directive_of, deep_copy, mark_else, pop_endif, update_preprocessor,
}
use core_arbiter.Nesting.Update.{update_lines}
use core_arbiter.Nesting.Update.Branches.{after_else, Nested}
use core_arbiter.Nesting.Update.Runs.{InFile}
use core_arbiter.Prelude.Fallible.{Returns-some}
use core_arbiter.Report.{Report}
use core_arbiter.Nesting.Update.Tops.{FurtherBranches, Top, one_branch, else_branches-Top}

-- The blocks of a stack without their identities.
abbrev pub anonymous : List BlockInfo → List BlockInfo
anonymous [] = []
anonymous (b ∷ stack) = record b { identity = 0 } ∷ anonymous stack

pub anonymous-deep_copy :
    (n : ℕ) (stack : List BlockInfo) → anonymous (deep_copy n stack) ≡ anonymous stack
anonymous-deep_copy n [] = refl
anonymous-deep_copy n (b ∷ stack) =
    ap (◌∷◌ (record b { identity = 0 })) (anonymous-deep_copy (suc n) stack)

-- The first branch is over, and `stack` was kept of it.
abbrev pub Kept : List BlockInfo → PreprocessorInfo → Type 0
Kept stack p = (p.seen_else ≡ true) × (anonymous p.stack_before_else ≡ anonymous stack)

mark_seen :
    (stack : List BlockInfo) (n : ℕ) (p : PreprocessorInfo)
    → p.seen_else ≡ true
    → mark_else stack n p ≡ p
mark_seen stack n p h = rw (h, mark_else) refl

mark_else-Kept :
    (stack s : List BlockInfo) (n : ℕ) (p : PreprocessorInfo)
    → Kept stack p
    → Kept stack (mark_else s n p)
mark_else-Kept stack s n p h = rw (mark_seen s n p h.0) h

-- What #endif makes of the state.
restore_stack :
    (o pps : List PreprocessorInfo) (p : PreprocessorInfo) (st : NestingState)
    → o ≡ p ∷ pps
    → p.seen_else ≡ true
    → ((pop_endif o st).stack ≡ p.stack_before_else) × ((pop_endif o st).pp_stack ≡ pps)
restore_stack o pps p st e h = rw e (rw (h, pop_endif) (refl, refl))

pub restored :
    (endif : Str) (stack : List BlockInfo) (pps : List PreprocessorInfo) (s : NestingState)
    → directive_of endif ≡ ends_if
    → Top (Kept stack) pps s
    → (anonymous (update_preprocessor endif s).stack ≡ anonymous stack)
      × ((update_preprocessor endif s).pp_stack ≡ pps)
unfolding update_preprocessor
restored endif stack pps s d h =
    let (a, b) = restore_stack s.pp_stack pps h.info s h.top_is h.has.0 in
    rw (d, update_preprocessor) (ap anonymous a ∙ h.has.1, b)

-- In the first branch of an #if, with the stack of blocks `st.stack`: on the branches that begin
-- with #else or #elif `Update` returns, and whatever blocks they open and close, their #endif brings
-- back the stack that the first branch left, up to the identities of the objects, and takes the
-- #if off the preprocessor stack.
pub else_branches_restore :
    (filename : Str) (clean_lines : CleansedLines) (linenum : ℕ) (line endif : Str)
    {body lines : List Str} (st : NestingState) (p : PreprocessorInfo) (pps : List PreprocessorInfo)
    → st.pp_stack ≡ p ∷ pps
    → p.seen_else ≡ false
    → directive_of line ≡ begins_else
    → Nested body
    → FurtherBranches lines
    → directive_of endif ≡ ends_if
    → InFile clean_lines linenum (line ∷ (body ++ lines))
    → (r : NestingState × List Report) × (update_lines filename clean_lines linenum
          (line ∷ (body ++ lines))
          st
        ≡ some r)
      × (anonymous (update_preprocessor endif r.0).stack ≡ anonymous st.stack)
      × ((update_preprocessor endif r.0).pp_stack ≡ pps)
else_branches_restore filename clean_lines linenum line endif {body} {lines} st p pps e f d n more i
      h =
    let q : PreprocessorInfo = record p {
      seen_else = true;
      stack_before_else = deep_copy st.objects st.stack;
    } in
    let marked : mark_else st.stack st.objects p ≡ q = rw (f, mark_else) refl in
    let (r, ran, s) =
      Returns-some (λ (r : NestingState × List Report). Top (Kept st.stack) pps r.0)
        (update_lines filename clean_lines linenum (line ∷ (body ++ lines)) st)
        (one_branch filename clean_lines (Kept st.stack) pps linenum line body lines st q
          (refl, anonymous-deep_copy st.objects st.stack)
          (after_else line st p pps d e ∙ ap (λ p. p ∷ pps) marked) n h
          (λ m t u j.
            else_branches-Top filename clean_lines (Kept st.stack) pps m t (mark_else-Kept st.stack)
              more u j)) in
    let (a, b) = restored endif st.stack pps r.0 i s in (r, ran, a, b)
