-- ===== src/Checks/Types/Total.antt =====
-- That `_IsType` returns, for blocks that start within the lines.
use core_arbiter.Prelude.{
  ℕ, zero, suc, ◌+◌, ◌≤◌, ◌<◌, refl, Bool, true, Option, none, some, List, [], ◌∷◌, arith, ltb,
  if◌then◌else◌, length, get_elem?-some, any,
}
use core_arbiter.Prelude.Fallible.{Given, Given-if}
use core_arbiter.Prelude.Forall.{All}
use core_arbiter.Str.{Str, codes, contains}
use core_arbiter.Regex.{matches, is_found}
use core_arbiter.Nesting.Blocks.{BlockInfo, is_namespace}
use core_arbiter.Checks.Types.{
  types, token_of_type, typename_pattern, template_line, next_start, lines_between,
  is_template_type, is_type,
}

template_line-Given :
    (elided : List Str) (next n : ℕ) → n ≤ length elided → Given (template_line elided next n)
unfolding template_line
template_line-Given elided next zero h = (_, refl)
template_line-Given elided next (suc n) h =
    let (line, e) = get_elem?-some elided n (omega arith) in
    Given-if (ltb n next) _ _ (λ _. (_, refl))
      λ _. rw e (
        Given-if (contains line (codes "template")) _ _ (λ _. (_, refl))
          λ _. template_line-Given elided next n (omega arith))

-- Every block starts within the lines.
abbrev pub StartWithin : List Str → List BlockInfo → Type 0
StartWithin elided stack = All (λ b. b.starting_linenum < length elided) stack

is_template_type-Given :
    (elided : List Str) (token : Str) (stack : List BlockInfo)
    → StartWithin elided stack
    → Given (is_template_type elided token stack)
unfolding is_template_type
is_template_type-Given elided token [] h = (_, refl)
is_template_type-Given elided token (b ∷ stack) h =
    let rest = is_template_type-Given elided token stack h.1 in
    let (o, e) =
      template_line-Given elided (next_start stack) (b.starting_linenum + 1) (omega (arith, h.0)) in
    Given-if (is_namespace b.block_class) _ _ (λ _. (_, refl)) (λ _. rw e (go rest o))
  where
    go :
        Given (is_template_type elided token stack)
        → (o : Option ℕ)
        → Given {A = Bool} (elim (some o) [
          | none ↦ none
          | some none ↦ is_template_type elided token stack
          | some (some first_line) ↦
              if any
                (is_found (typename_pattern token))
                (lines_between elided first_line b.starting_linenum)
              then some true
              else is_template_type elided token stack
        ])
    go rest none = rest
    go rest (some n) =
        Given-if
          (any (is_found (typename_pattern token)) (lines_between elided n b.starting_linenum))
          (some true) (is_template_type elided token stack) (λ _. (true, refl)) (λ _. rest)

pub is_type-Given :
    (elided : List Str) (stack : List BlockInfo) (expr : Str)
    → StartWithin elided stack
    → Given (is_type elided stack expr)
unfolding is_type
is_type-Given elided stack expr h =
    Given-if (matches types (token_of_type expr)) _ _ (λ _. (_, refl))
      λ _. is_template_type-Given elided (token_of_type expr) stack h
