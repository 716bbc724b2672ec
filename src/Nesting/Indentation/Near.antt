-- ===== src/Nesting/Indentation/Near.antt =====
-- Which lines `CheckForNamespaceIndentation` reports.
use core_arbiter.Prelude.Fallible.{Returns, Returns-bind, Returns-some}
use core_arbiter.Nesting.Blocks.{BlockInfo, NestingState, is_namespace}
use core_arbiter.Nesting.Indentation.{
  top_is_namespace, second_is_namespace, is_block_in_name_space, should_check_namespace_indentation,
  is_namespace_indent_item, leading_space, indented_in_namespace,
  check_item_indentation_in_namespace, check_for_namespace_indentation,
}
use core_arbiter.Prelude.{◌≡◌, refl, Bool, true, false, List, [], ◌∷◌, take, any}
use core_arbiter.Prelude.{
  ℕ, zero, suc, ◌<◌, ◌⊎◌, inl, inr, not, ◌&&◌, ◌||◌, Option, some, arith, if◌then◌else◌, length,
  get_elem?-some, if_cases,
}
use core_arbiter.Str.{Str}
use core_arbiter.Regex.{matches, is_found}
use core_arbiter.Checks.Line.{
  at_line, define_directive, is_macro_definition, forward_class, is_forward_class_declaration,
}
use core_arbiter.Cleanse.Lines.{CleansedLines}
use core_arbiter.Report.{Report}
use core_arbiter.Prelude.{ap, none, get_elem?}
use core_arbiter.Checks.Line.{ends_in_backslash, continues}

-- One of the two innermost blocks is a namespace.
abbrev pub near_namespace : List BlockInfo → Bool
near_namespace stack = any (λ b. is_namespace b.block_class) (take 2 stack)

top-near : (stack : List BlockInfo) → top_is_namespace stack ≡ true → near_namespace stack ≡ true
top-near [] h = h
top-near (b ∷ stack) h = rw h refl

second-near :
    (stack : List BlockInfo) → second_is_namespace stack ≡ true → near_namespace stack ≡ true
second-near [] h = h
second-near (b ∷ []) h = ground arith
second-near (b ∷ c ∷ stack) h = ground arith

block-near :
    (st : NestingState) (forward : Bool)
    → is_block_in_name_space st forward ≡ true
    → near_namespace st.stack ≡ true
unfolding is_block_in_name_space
block-near st true h = top-near st.stack h
block-near st false h = second-near st.stack h

-- Where the check is made.
abbrev Near : NestingState → Bool → Type 0
Near st checked = checked ≡ true → near_namespace st.stack ≡ true

at_line-Returns {ℓ} :
    {A : Type ℓ} (P : A → Type 0) (lines : List Str) (n : ℕ) (f : Str → A)
    → n < length lines
    → ((line : Str) → get_elem? lines n ≡ some line → P (f line))
    → Returns P (at_line lines n f)
at_line-Returns P lines n f h k =
    let (line, e) = get_elem?-some lines n h in rw (e, at_line) (k line e)

abbrev Ran : Option Bool → Type 0
Ran = Returns (λ (b : Bool). Unit {0})

macro_test :
    (tested before : Option Bool)
    → Ran tested
    → Ran before
    → Ran (elim tested [ none ↦ none | some true ↦ some true | some false ↦ before ])
macro_test none before h k = h
macro_test (some true) before h k = tt
macro_test (some false) before h k = k

continues-Ran :
    (lines : List Str) (linenum : ℕ) → linenum < length lines → Ran (continues lines linenum)
continues-Ran lines zero h = tt
continues-Ran lines (suc n) h =
    at_line-Returns (λ (b : Bool). Unit {0}) lines n (is_found ends_in_backslash) (omega arith)
      (λ line e. tt)

macro-Ran :
    (lines : List Str) (linenum : ℕ)
    → linenum < length lines
    → Ran (is_macro_definition lines linenum)
unfolding is_macro_definition
macro-Ran lines linenum h =
    macro_test (at_line lines linenum (is_found define_directive)) (continues lines linenum)
      (at_line-Returns (λ (b : Bool). Unit {0}) lines linenum (is_found define_directive) h
        (λ line e. tt))
      (continues-Ran lines linenum h)

and-right : (a b : Bool) → (not a && b) ≡ true → b ≡ true
and-right a b h = ground arith

should_check-Near :
    (st : NestingState) (item : Bool) (lines : List Str) (linenum : ℕ)
    → linenum < length lines
    → Returns (Near st) (should_check_namespace_indentation st item lines linenum)
unfolding should_check_namespace_indentation is_forward_class_declaration
should_check-Near st item lines linenum h =
    Returns-bind (λ (b : Bool). Unit {0}) (Near st) (is_forward_class_declaration lines linenum) _
      (at_line-Returns (λ (b : Bool). Unit {0}) lines linenum (matches forward_class) h
        (λ line e. tt))
      (λ forward u.
        Returns-bind (λ (b : Bool). Unit {0}) (Near st)
          (if item || forward then is_macro_definition lines linenum else some true) _
          (if_cases Ran (item || forward) _ _ (λ _. macro-Ran lines linenum h) (λ _. tt))
          (λ m v k. block-near st forward (and-right m _ k)))

-- What the check may answer on a line.
abbrev pub NearReport : Str → NestingState → List Str → ℕ → List Report → Type 0
NearReport filename st lines linenum reports =
    (reports ≡ [])
    ⊎ ((reports ≡ indented_in_namespace filename linenum ∷ [])
        × (near_namespace st.stack ≡ true)
        × (at_line lines linenum (matches leading_space) ≡ some true))

item-NearReport :
    (filename : Str) (st : NestingState) (lines : List Str) (linenum : ℕ)
    → linenum < length lines
    → near_namespace st.stack ≡ true
    → Returns
        (NearReport filename st lines linenum)
        (check_item_indentation_in_namespace filename lines linenum)
unfolding check_item_indentation_in_namespace
item-NearReport filename st lines linenum h k =
    at_line-Returns (NearReport filename st lines linenum) lines linenum _ h (λ line e.
      if_cases (NearReport filename st lines linenum) (matches leading_space line) _ _
        (λ t. inr (refl, k, rw (e, at_line) (ap some t))) (λ f. inl refl))

-- On a line of the file `CheckForNamespaceIndentation` raises nothing, and reports nothing, or once
-- that the line is indented; then the line begins with white space and one of the two innermost
-- blocks is a namespace.
pub check_for_namespace_indentation-near :
    (filename : Str) (st : NestingState) (clean_lines : CleansedLines) (linenum : ℕ)
    → linenum < length clean_lines.elided
    → (reports : List Report) × (check_for_namespace_indentation filename st clean_lines linenum
        ≡ some reports)
      × NearReport filename st clean_lines.elided linenum reports
unfolding check_for_namespace_indentation
check_for_namespace_indentation-near filename st clean_lines linenum h =
    Returns-some (NearReport filename st clean_lines.elided linenum) _ (
      Returns-bind (Near st) (NearReport filename st clean_lines.elided linenum)
        (should_check_namespace_indentation st (is_namespace_indent_item st) clean_lines.elided
          linenum)
        _ (should_check-Near st (is_namespace_indent_item st) clean_lines.elided linenum h)
        (λ checked near.
          if_cases (Returns (NearReport filename st clean_lines.elided linenum)) checked _ _
            (λ t. item-NearReport filename st clean_lines.elided linenum h (near t))
            (λ _. inl refl)))
