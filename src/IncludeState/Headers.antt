-- ===== src/IncludeState/Headers.antt =====
-- `FindHeader` over the branches of an #if.

use core_arbiter.Prelude.{
  ℕ, ◌≡◌, refl, sym, ap, ◌∙◌, true, none, some, Option, List, [], ◌∷◌, ◌++◌, arith, if_cases,
}
use mathlib.Core.List.{append_assoc, append-nil}
use core_arbiter.Str.{Str, codes, is_in}
use core_arbiter.IncludeState.{
  IncludeState, initial_section, find_in, find_header, clear_last, reset_section, append_to_last,
  add_include,
}

-- The first of two places where a header may have been found.
abbrev pub found_or : Option ℕ → Option ℕ → Option ℕ
found_or none later = later
found_or (some line) later = some line

-- The headers of a branch, in their order.
pub add_includes : List (Str × ℕ) → IncludeState → IncludeState
add_includes [] st = st
add_includes ((include, linenum) ∷ rest) st = add_includes rest (add_include include linenum st)

append_to_last-snoc :
    (entry : Str × ℕ) (lists : List (List (Str × ℕ))) (fs : List (Str × ℕ))
    → append_to_last entry (lists ++ fs ∷ []) ≡ lists ++ (fs ++ entry ∷ []) ∷ []
append_to_last-snoc entry [] fs = refl
append_to_last-snoc entry (gs ∷ []) fs = refl
append_to_last-snoc entry (gs ∷ hs ∷ lists) fs =
    ap (λ ls. gs ∷ ls) (append_to_last-snoc entry (hs ∷ lists) fs)

clear_last-snoc :
    (lists : List (List (Str × ℕ))) (fs : List (Str × ℕ))
    → clear_last (lists ++ fs ∷ []) ≡ lists ++ [] ∷ []
clear_last-snoc [] fs = refl
clear_last-snoc (gs ∷ []) fs = refl
clear_last-snoc (gs ∷ hs ∷ lists) fs = ap (λ ls. gs ∷ ls) (clear_last-snoc (hs ∷ lists) fs)

find_header-snoc :
    (header : Str) (lists : List (List (Str × ℕ))) (fs : List (Str × ℕ))
    → find_header header (lists ++ fs ∷ [])
      ≡ found_or (find_header header lists) (find_in header fs)
unfolding find_header
find_header-snoc header [] fs = ground arith
find_header-snoc header (gs ∷ lists) fs = ground (arith, find_header-snoc header lists fs)

found_or-none : (o : Option ℕ) → found_or o none ≡ o
found_or-none none = refl
found_or-none (some line) = refl

add_includes-list :
    (includes : List (Str × ℕ)) (lists : List (List (Str × ℕ))) (fs : List (Str × ℕ))
    (st : IncludeState)
    → st.include_list ≡ lists ++ fs ∷ []
    → (add_includes includes st).include_list ≡ lists ++ (fs ++ includes) ∷ []
unfolding add_includes add_include
add_includes-list [] lists fs st e = e ∙ ap (λ gs. lists ++ gs ∷ []) (sym (append-nil fs))
add_includes-list ((include, linenum) ∷ rest) lists fs st e =
    let entry : Str × ℕ = (include, linenum) in
    add_includes-list rest lists (fs ++ entry ∷ []) (add_include include linenum st)
      (ap (append_to_last entry) e ∙ append_to_last-snoc entry lists fs)
    ∙ ap (λ gs. lists ++ gs ∷ []) (append_assoc fs (entry ∷ []) rest)

reset_section-if :
    (directive : Str) (st : IncludeState)
    → is_in directive (codes "if" ∷ codes "ifdef" ∷ codes "ifndef" ∷ []) ≡ true
    → (reset_section directive st).include_list ≡ st.include_list ++ [] ∷ []
unfolding reset_section
reset_section-if directive st h = rw h refl

not_both :
    (directive : Str)
    → is_in directive (codes "if" ∷ codes "ifdef" ∷ codes "ifndef" ∷ []) ≡ true
    → is_in directive (codes "else" ∷ codes "elif" ∷ []) ≡ true
    → ⊥
not_both [] h k = cc
not_both (c ∷ s) h k = ground arith

reset_section-else :
    (directive : Str) (st : IncludeState)
    → is_in directive (codes "else" ∷ codes "elif" ∷ []) ≡ true
    → (reset_section directive st).include_list ≡ clear_last st.include_list
unfolding reset_section
reset_section-else directive st h =
    if_cases (λ (ls : List (List (Str × ℕ))). ls ≡ clear_last st.include_list)
      (is_in directive (codes "if" ∷ codes "ifdef" ∷ codes "ifndef" ∷ [])) _ _
      (λ t. absurd (not_both directive t h)) (λ _. rw h refl)

-- The state in a branch that begins with the directive, after these headers.
abbrev pub in_branch : Str → List (Str × ℕ) → IncludeState → IncludeState
in_branch directive includes st = add_includes includes (reset_section directive st)

-- From an #if, with the headers of its first branch put down after it: FindHeader finds the headers
-- from before the #if where it found them before, and of the others those of the branch at their
-- first lines. At the #else or #elif it finds what it found before the #if, at the same lines, and
-- nothing of the branch, and the section and the last header are the initial ones.
pub find_header-branches :
    (if_directive else_directive header : Str) (includes : List (Str × ℕ)) (st : IncludeState)
    → is_in if_directive (codes "if" ∷ codes "ifdef" ∷ codes "ifndef" ∷ []) ≡ true
    → is_in else_directive (codes "else" ∷ codes "elif" ∷ []) ≡ true
    → (find_header header (in_branch if_directive includes st).include_list
        ≡ found_or (find_header header st.include_list) (find_in header includes))
      × (find_header header
            (reset_section else_directive (in_branch if_directive includes st)).include_list
          ≡ find_header header st.include_list)
      × ((reset_section else_directive (in_branch if_directive includes st)).section
          ≡ initial_section)
      × ((reset_section else_directive (in_branch if_directive includes st)).last_header ≡ [])
unfolding find_header reset_section
find_header-branches if_directive else_directive header includes st h k =
    let branch = in_branch if_directive includes st in
    let lists : branch.include_list ≡ st.include_list ++ includes ∷ [] =
      add_includes-list includes st.include_list [] (reset_section if_directive st)
        (reset_section-if if_directive st h) in
    (
      ap (find_header header) lists ∙ find_header-snoc header st.include_list includes,
      ap (find_header header) (
            reset_section-else else_directive branch k
            ∙ ap clear_last lists
            ∙ clear_last-snoc st.include_list includes)
          ∙ find_header-snoc header st.include_list []
          ∙ found_or-none (find_header header st.include_list),
      refl,
      refl,
    )
