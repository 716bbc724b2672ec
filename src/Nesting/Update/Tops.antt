-- ===== src/Nesting/Update/Tops.antt =====
-- What the innermost #if of the preprocessor stack keeps over further branches.

use core_arbiter.Prelude.{ℕ, ◌+◌, ◌≡◌, ◌∙◌, List, ◌∷◌, ◌++◌, arith, length, length-append}
use core_arbiter.Str.{Str}
use core_arbiter.Cleanse.Lines.{CleansedLines}
use core_arbiter.Nesting.Blocks.{BlockInfo, PreprocessorInfo, NestingState}
use core_arbiter.Nesting.Preprocessor.{begins_else, directive_of, mark_else}
use core_arbiter.Nesting.Update.{enter_line, update_lines}
use core_arbiter.Nesting.Update.Branches.{after_else, HasPps, run_line, Nested-Keeps, Nested}
use core_arbiter.Nesting.Update.Runs.{
  Ends, InFile, update_lines-cons, update_lines-append, update_lines-nil,
}
use core_arbiter.Prelude.{[]}

-- Further branches of an #if, up to its #endif.
pub data FurtherBranches : List Str → Type 0 where
  no_more : FurtherBranches []
  one_more :
      (line : Str) {body lines : List Str}
      → directive_of line ≡ begins_else
      → Nested body
      → FurtherBranches lines
      → FurtherBranches (line ∷ (body ++ lines))

-- The innermost #if has the property, and `pps` stands below it.
pub record Top (P : PreprocessorInfo → Type 0) (pps : List PreprocessorInfo) (s : NestingState)
    : Type 0 where
  pub info : PreprocessorInfo
  pub top_is : s.pp_stack ≡ info ∷ pps
  pub has : P info

module _ (filename : Str) (clean_lines : CleansedLines) (P : PreprocessorInfo → Type 0)
    (pps : List PreprocessorInfo) where
  -- A branch, from its first line on.
  pub one_branch :
      (linenum : ℕ) (line : Str) (body lines : List Str) (st : NestingState) (q : PreprocessorInfo)
      → P q
      → (enter_line line st).pp_stack ≡ q ∷ pps
      → Nested body
      → InFile clean_lines linenum (line ∷ (body ++ lines))
      → ((m : ℕ) (s : NestingState)
          → Top P pps s
          → InFile clean_lines m lines
          → Ends (Top P pps) (update_lines filename clean_lines m lines s))
      → Ends (Top P pps) (update_lines filename clean_lines linenum (line ∷ (body ++ lines)) st)
  one_branch linenum line body lines st q has e n (h, k) later =
      update_lines-cons filename clean_lines (HasPps (q ∷ pps)) (Top P pps) linenum line
        (body ++ lines) st
        (run_line filename clean_lines linenum line (body ++ lines) st (q ∷ pps) (h, k) e)
        (λ s f.
          update_lines-append filename clean_lines (HasPps s.pp_stack) (Top P pps) body lines
            (linenum + 1) s
            (Nested-Keeps filename clean_lines (linenum + 1) s n
              (omega (arith, length-append body lines)))
            (λ t g.
              later (linenum + 1 + length body) t (record { info = q; top_is = g ∙ f; has = has })
                (omega (arith, length-append body lines))))

  -- Where a mark at #else keeps the property.
  pub else_branches-Top :
      {lines : List Str} (linenum : ℕ) (st : NestingState)
      → ((stack : List BlockInfo) (n : ℕ) (p : PreprocessorInfo) → P p → P (mark_else stack n p))
      → FurtherBranches lines
      → Top P pps st
      → InFile clean_lines linenum lines
      → Ends (Top P pps) (update_lines filename clean_lines linenum lines st)
  else_branches-Top linenum st keep no_more s h =
      update_lines-nil filename clean_lines (Top P pps) linenum st s
  else_branches-Top linenum st keep (one_more line {body = body} {lines = lines} d n more) s h =
      one_branch linenum line body lines st (mark_else st.stack st.objects s.info)
        (keep st.stack st.objects s.info s.has) (after_else line st s.info pps d s.top_is) n h
        (λ m t u i. else_branches-Top m t keep more u i)
