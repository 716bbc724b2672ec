-- ===== src/Nesting/Update/Total.antt =====
-- `Update`: exceptions and fuel of its loops, and what it does to the preprocessor stack.

use core_arbiter.Prelude.Fallible.{◌>>=◌}
use core_arbiter.Prelude.{
  ℕ, zero, suc, ◌+◌, ◌≤◌, ◌<◌, ◌≡◌, refl, ◌∙◌, true, ◌||◌, Option, none, some, List, [], ◌∷◌, ◌++◌,
  arith, length, drop, length-drop, if_cases,
}
use core_arbiter.Str.{Str, codes, ◌=s◌, find}
use core_arbiter.Cleanse.Lines.{CleansedLines}
use core_arbiter.Nesting.Blocks.{
  BlockInfo, PreprocessorInfo, NestingState, new_namespace, seen_open_brace,
}
use core_arbiter.Nesting.Ends.{check_end}
use core_arbiter.Nesting.Ends.Total.{check_end-Done}
use core_arbiter.Nesting.Update.{
  push, NamespaceRound, no_namespace, namespace_at, namespace_fault, namespace_round,
  consume_namespaces, end_head, close_brace_on, brace_step, BraceRound, no_brace, brace_at,
  brace_fault, consume_braces, open_namespace, open_brace,
}
use core_arbiter.Nesting.Update.Rounds.{NamespaceRest, namespace_round-Rest, BraceRest}
use core_arbiter.Prelude.Fallible.{Returns, Returns-bind}
use core_arbiter.Report.{Report}
use core_arbiter.Nesting.Update.{with_stack, begin_checks, update_access, brace_round, finish_line}
use core_arbiter.Nesting.Update.Rounds.{brace_round-Rest}
use core_arbiter.Nesting.Update.{consume_class, enter_line, update_line}
use core_arbiter.Nesting.Update.Classes.{consume_class-Keeps}

abbrev Keeps {ℓ} : {A : Type ℓ} → (A → NestingState) → List PreprocessorInfo → Option A → Type 0
Keeps state pps = Returns (λ r. (state r).pp_stack ≡ pps)

abbrev KeepsPair : List PreprocessorInfo → Option (Str × NestingState) → Type 0
KeepsPair = Keeps (λ r. r.1)

abbrev pub KeepsState : List PreprocessorInfo → Option (NestingState × List Report) → Type 0
KeepsState pps = Returns (λ r. r.0.pp_stack ≡ pps)

open_namespace-pp_stack :
    (linenum : ℕ) (name : Option Str) (rest : Str) (st : NestingState)
    → ((open_namespace linenum name rest st).1.pp_stack ≡ st.pp_stack)
      × (length (open_namespace linenum name rest st).0 ≤ length rest)
unfolding open_namespace
open_namespace-pp_stack linenum name rest st = go (find rest (codes "{"))
  where
    go :
        (o : Option ℕ)
        → let r : Str × NestingState = elim o [
          | none ↦ (rest, push (λ n. new_namespace n name linenum) st)
          | some k ↦ (
            drop (k + 1) rest,
            push (λ n. record (new_namespace n name linenum) { seen_open_brace = true }) st,
          )
        ] in
          (r.1.pp_stack ≡ st.pp_stack) × (length r.0 ≤ length rest)
    go none = (refl, omega arith)
    go (some k) = (refl, omega (arith, length-drop (k + 1) rest))

module _ (fuel linenum : ℕ) (line : Str) (st : NestingState) (lt : length line < suc fuel)
    (later : (l : Str) (s : NestingState)
      → length l < fuel
      → KeepsPair s.pp_stack (consume_namespaces fuel linenum l s)) where
  namespaces_on :
      (r : NamespaceRound)
      → NamespaceRest line r
      → KeepsPair st.pp_stack (elim r [
        | no_namespace ↦ some (line, st)
        | namespace_at name rest ↦
            consume_namespaces fuel linenum
              (open_namespace linenum name rest st).0
              (open_namespace linenum name rest st).1
        | namespace_fault ↦ none
      ])
  namespaces_on no_namespace h = refl
  namespaces_on (namespace_at name rest) h =
      let (same, le) = open_namespace-pp_stack linenum name rest st in
      rw same at (
        later (open_namespace linenum name rest st).0 (open_namespace linenum name rest st).1
          (omega arith))
  namespaces_on namespace_fault h = h

consume_namespaces-Keeps :
    (fuel linenum : ℕ) (line : Str) (st : NestingState)
    → length line < fuel
    → KeepsPair st.pp_stack (consume_namespaces fuel linenum line st)
unfolding consume_namespaces
consume_namespaces-Keeps zero linenum line st lt = absurd (omega arith)
consume_namespaces-Keeps (suc fuel) linenum line st lt =
    namespaces_on fuel linenum line st lt (λ l s h. consume_namespaces-Keeps fuel linenum l s h)
      (namespace_round line) (namespace_round-Rest line)

module _ (fuel : ℕ) (filename : Str) (clean_lines : CleansedLines) (linenum : ℕ)
    (in_elided : linenum < length clean_lines.elided)
    (in_raw : linenum < length clean_lines.raw_lines) where
  close_brace-Keeps :
      (st : NestingState) (stack : List BlockInfo)
      → KeepsState st.pp_stack (close_brace_on filename clean_lines linenum st stack)
  close_brace-Keeps st [] = refl
  close_brace-Keeps st (b ∷ stack) =
      Returns-bind (λ (r : List Report). Unit {0}) (λ r. r.0.pp_stack ≡ st.pp_stack)
        (check_end filename clean_lines linenum b) _
        (check_end-Done filename clean_lines linenum b in_elided in_raw) (λ r u. refl)

  brace_step-Keeps :
      (line token : Str) (st : NestingState)
      → KeepsState st.pp_stack (brace_step filename clean_lines linenum line token st)
  unfolding brace_step open_brace end_head
  brace_step-Keeps line token st =
      if_cases (KeepsState st.pp_stack) (token =s codes "{") _ _
        (λ _.
          if_cases (λ (s : NestingState). s.pp_stack ≡ st.pp_stack) (seen_open_brace st) _ _
            (λ _. refl) (λ _. refl))
        λ _.
          if_cases (KeepsState st.pp_stack) (token =s codes ";" || token =s codes ")") _ _
            (λ _.
              if_cases (λ (s : NestingState). s.pp_stack ≡ st.pp_stack) (seen_open_brace st) _ _
                (λ _. refl) (λ _. refl))
            (λ _. close_brace-Keeps st st.stack)

  module _ (line : Str) (st : NestingState) (lt : length line < suc fuel)
      (later : (l : Str) (s : NestingState)
        → length l < fuel
        → KeepsState s.pp_stack (consume_braces fuel filename clean_lines linenum l s)) where
    braces_on :
        (r : BraceRound)
        → BraceRest line r
        → KeepsState st.pp_stack (elim r [
          | no_brace ↦ some (st, [])
          | brace_at token rest ↦ do
            (st', reports) ← brace_step filename clean_lines linenum line token st
            (st'', more) ← consume_braces fuel filename clean_lines linenum rest st'
            some (st'', reports ++ more)
          | brace_fault ↦ none
        ])
    braces_on no_brace h = refl
    braces_on (brace_at token rest) h =
        Returns-bind (λ r. r.0.pp_stack ≡ st.pp_stack) (λ r. r.0.pp_stack ≡ st.pp_stack)
          (brace_step filename clean_lines linenum line token st) _ (brace_step-Keeps line token st)
          (λ r e.
            Returns-bind (λ q. q.0.pp_stack ≡ r.0.pp_stack) (λ q. q.0.pp_stack ≡ st.pp_stack)
              (consume_braces fuel filename clean_lines linenum rest r.0) _
              (later rest r.0 (omega arith)) (λ q f. f ∙ e))
    braces_on brace_fault h = h

consume_braces-Keeps :
    (fuel : ℕ) (filename : Str) (clean_lines : CleansedLines) (linenum : ℕ) (line : Str)
    (st : NestingState)
    → linenum < length clean_lines.elided
    → linenum < length clean_lines.raw_lines
    → length line < fuel
    → KeepsState st.pp_stack (consume_braces fuel filename clean_lines linenum line st)
unfolding consume_braces
consume_braces-Keeps zero filename clean_lines linenum line st h k lt = absurd (omega arith)
consume_braces-Keeps (suc fuel) filename clean_lines linenum line st h k lt =
    braces_on fuel filename clean_lines linenum h k line st lt
      (λ l s b. consume_braces-Keeps fuel filename clean_lines linenum l s h k b) (brace_round line)
      (brace_round-Rest line)

finish_line-Keeps :
    (filename : Str) (clean_lines : CleansedLines) (linenum : ℕ) (line rest : Str)
    (st : NestingState)
    → linenum < length clean_lines.elided
    → linenum < length clean_lines.raw_lines
    → KeepsState st.pp_stack (finish_line filename clean_lines linenum line rest st)
unfolding finish_line
finish_line-Keeps filename clean_lines linenum line rest st h k =
    let accessed : List BlockInfo × List Report =
      update_access filename linenum rest (begin_checks line st.stack) in
    Returns-bind (λ r. r.0.pp_stack ≡ st.pp_stack) (λ r. r.0.pp_stack ≡ st.pp_stack)
      (consume_braces (length rest + 1) filename clean_lines linenum rest
        (with_stack accessed.0 st))
      _
      (consume_braces-Keeps (length rest + 1) filename clean_lines linenum rest
        (with_stack accessed.0 st) h k (omega arith))
      (λ r e. e)

pub keeps_through :
    {pps qs : List PreprocessorInfo} (o : Option (NestingState × List Report))
    → pps ≡ qs
    → KeepsState pps o
    → KeepsState qs o
keeps_through none e h = h
keeps_through (some r) e h = h ∙ e

-- On a line of the file `Update` returns, and after the preprocessor's part it leaves the
-- preprocessor stack alone.
pub update_line-Keeps :
    (filename : Str) (clean_lines : CleansedLines) (linenum : ℕ) (line : Str) (st : NestingState)
    → linenum < length clean_lines.elided
    → linenum < length clean_lines.raw_lines
    → KeepsState (enter_line line st).pp_stack (update_line filename clean_lines linenum line st)
unfolding update_line
update_line-Keeps filename clean_lines linenum line st h k =
    let pps : List PreprocessorInfo = (enter_line line st).pp_stack in
    Returns-bind (λ r. r.1.pp_stack ≡ pps) (λ r. r.0.pp_stack ≡ pps)
      (consume_namespaces (length line + 1) linenum line (enter_line line st)) _
      (consume_namespaces-Keeps (length line + 1) linenum line (enter_line line st) (omega arith))
      (λ r e.
        Returns-bind (λ q. q.1.pp_stack ≡ r.1.pp_stack) (λ q. q.0.pp_stack ≡ pps)
          (consume_class clean_lines linenum r.0 r.1) _
          (consume_class-Keeps clean_lines linenum r.0 r.1 k)
          (λ q f.
            keeps_through (finish_line filename clean_lines linenum line q.0 q.1) (f ∙ e)
              (finish_line-Keeps filename clean_lines linenum line q.0 q.1 h k)))
