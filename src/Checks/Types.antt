-- ===== src/Checks/Types.antt =====
-- `_IsType`.
pub mod Total
use core_arbiter.Prelude.{
  ℕ, zero, suc, ◌+◌, ◌-◌, Bool, true, false, Option, none, some, List, [], ◌∷◌, ltb, if◌then◌else◌,
  get_elem?, take, drop, any,
}
use core_arbiter.Str.{Str, codes, contains, find}
use core_arbiter.Regex.{
  Regex, empty, either, star, group, at_start, at_end, word_boundary, char, any_char, space, ink,
  plus, opt, text, one_text, ◌⨾◌, match, search_regex, matches, is_found,
}
use core_arbiter.Nesting.Blocks.{BlockInfo, is_namespace}
use core_arbiter.Checks.Spacing.{group_of}

-- `_TYPES`, whose last alternative is the empty text
abbrev pub types : Regex
types =
    at_start
    ⨾ either
        (group 1
          (text (codes "char") ⨾ opt (group 2 (one_text (codes "16_t" ∷ codes "32_t" ∷ [])))))
        (either
          (one_text (
            codes "wchar_t"
            ∷ codes "bool"
            ∷ codes "short"
            ∷ codes "int"
            ∷ codes "long"
            ∷ codes "signed"
            ∷ codes "unsigned"
            ∷ codes "float"
            ∷ codes "double"
            ∷ []))
          (either
            (group 3 (
              one_text (
                codes "ptrdiff_t" ∷ codes "size_t" ∷ codes "max_align_t" ∷ codes "nullptr_t" ∷ [])))
            (either
              (group 4 (
                opt (char b'u')
                ⨾ text (codes "int")
                ⨾ opt (group 5 (one_text (codes "_fast" ∷ codes "_least" ∷ [])))
                ⨾ group 6 (one_text (codes "8" ∷ codes "16" ∷ codes "32" ∷ codes "64" ∷ []))
                ⨾ text (codes "_t")))
              (either
                (group 7 (
                  opt (char b'u')
                  ⨾ text (codes "int")
                  ⨾ group 8 (one_text (codes "max" ∷ codes "ptr" ∷ []))
                  ⨾ text (codes "_t")))
                empty))))
    ⨾ at_end

-- `^.*(\b\S+)$`
abbrev pub last_token : Regex
last_token = at_start ⨾ star any_char ⨾ group 1 (word_boundary ⨾ plus ink) ⨾ at_end

unfoldable pub token_of_type : Str → Str
unfolding match
token_of_type expr = elim (match last_token expr) [ none ↦ expr | some m ↦ group_of expr m 1 ]

-- `\b(?:typename|class|struct)\s+` + re.escape(token) + `\b`
abbrev pub typename_pattern : Str → Regex
typename_pattern token =
    word_boundary
    ⨾ one_text (codes "typename" ∷ codes "class" ∷ codes "struct" ∷ [])
    ⨾ plus space
    ⨾ text token
    ⨾ word_boundary

-- `while first_line >= next_block_start`: the line with `template`. The number is one more than
-- `first_line`; `none` is an index out of range.
unfoldable pub template_line : List Str → ℕ → ℕ → Option (Option ℕ)
unfolding find
template_line elided next_block_start zero = some none
template_line elided next_block_start (suc first_line) =
    let rest = template_line elided next_block_start first_line in
    if ltb first_line next_block_start then some none else elim (get_elem? elided first_line) [
      | none ↦ none
      | some line ↦ if contains line (codes "template") then some (some first_line) else rest
    ]

abbrev pub next_start : List BlockInfo → ℕ
next_start [] = 0
next_start (b ∷ stack) = b.starting_linenum

-- `xrange(first_line, last_line + 1, 1)`
abbrev pub lines_between : List Str → ℕ → ℕ → List Str
lines_between elided first_line last_line =
    take (last_line + 1 - first_line) (drop first_line elided)

-- `while block_index >= 0`, from the top of the stack
unfoldable pub is_template_type : List Str → Str → List BlockInfo → Option Bool
unfolding template_line search_regex
is_template_type elided token [] = some false
is_template_type elided token (b ∷ stack) =
    let rest = is_template_type elided token stack in
    if is_namespace b.block_class
    then some false
    else elim (template_line elided (next_start stack) (b.starting_linenum + 1)) [
      | none ↦ none
      | some none ↦ rest
      | some (some first_line) ↦
          if any (is_found (typename_pattern token))
            (lines_between elided first_line b.starting_linenum)
          then some true
          else rest
    ]

unfoldable pub is_type : List Str → List BlockInfo → Str → Option Bool
unfolding token_of_type is_template_type match
is_type elided stack expr =
    let token = token_of_type expr in
    if matches types token then some true else is_template_type elided token stack
