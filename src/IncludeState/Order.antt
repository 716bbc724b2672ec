-- ===== src/IncludeState/Order.antt =====
-- `CheckNextIncludeOrder` over a sequence of headers.

use core_arbiter.Prelude.{
  ◌≡◌, refl, Bool, true, false, not, ◌&&◌, ◌||◌, List, [], ◌∷◌, if◌then◌else◌, all, is_empty,
}
use core_arbiter.IncludeState.{
  IncludeState, other_h_section, HeaderType, c_sys_header, cpp_sys_header, likely_my_header,
  possible_my_header, other_header, check_next_include_order,
}
use core_arbiter.Prelude.{◌≤◌, arith}
use core_arbiter.IncludeState.{my_h_section, c_section, cpp_section}
use core_arbiter.Prelude.{leb}
use core_arbiter.IncludeState.{move_to}

-- Whether each call returns the empty text.
unfoldable pub no_errors : List HeaderType → IncludeState → Bool
no_errors [] st = true
no_errors (t ∷ ts) st =
    is_empty (check_next_include_order t st).1 && no_errors ts (check_next_include_order t st).0

abbrev is_my : HeaderType → Bool
is_my likely_my_header = true
is_my possible_my_header = true
is_my _ = false

abbrev is_c : HeaderType → Bool
is_c c_sys_header = true
is_c _ = false

abbrev is_cpp : HeaderType → Bool
is_cpp cpp_sys_header = true
is_cpp _ = false

abbrev is_system : HeaderType → Bool
is_system t = is_c t || is_cpp t

abbrev drop_while : (HeaderType → Bool) → List HeaderType → List HeaderType
drop_while p [] = []
drop_while p (t ∷ ts) = if p t then drop_while p ts else t ∷ ts

-- First headers that may be the file's own, then C system headers, then C++ system headers, and
-- then no system header any more.
abbrev pub in_order : List HeaderType → Bool
in_order ts =
    all (λ t. not (is_system t)) (drop_while is_cpp (drop_while is_c (drop_while is_my ts)))

no_errors-other :
    (ts : List HeaderType) (st : IncludeState)
    → st.section ≡ other_h_section
    → no_errors ts st ≡ all (λ t. not (is_system t)) ts
unfolding no_errors check_next_include_order
no_errors-other [] st h = refl
no_errors-other (c_sys_header ∷ ts) st h = rw (h, no_errors)
no_errors-other (cpp_sys_header ∷ ts) st h = rw (h, no_errors)
no_errors-other (likely_my_header ∷ ts) st h = no_errors-other ts _ (ground arith)
no_errors-other (possible_my_header ∷ ts) st h = no_errors-other ts _ (ground arith)
no_errors-other (other_header ∷ ts) st h = no_errors-other ts _ refl

no_errors-cpp :
    (ts : List HeaderType) (st : IncludeState)
    → st.section ≡ cpp_section
    → no_errors ts st ≡ all (λ t. not (is_system t)) (drop_while is_cpp ts)
unfolding no_errors check_next_include_order
no_errors-cpp [] st h = refl
no_errors-cpp (c_sys_header ∷ ts) st h = rw (h, no_errors)
no_errors-cpp (cpp_sys_header ∷ ts) st h = rw (h, no_errors) (no_errors-cpp ts _ refl)
no_errors-cpp (likely_my_header ∷ ts) st h = no_errors-other ts _ (ground arith)
no_errors-cpp (possible_my_header ∷ ts) st h = no_errors-other ts _ (ground arith)
no_errors-cpp (other_header ∷ ts) st h = no_errors-other ts _ refl

no_errors-c :
    (ts : List HeaderType) (st : IncludeState)
    → st.section ≡ c_section
    → no_errors ts st ≡ all (λ t. not (is_system t)) (drop_while is_cpp (drop_while is_c ts))
unfolding no_errors check_next_include_order
no_errors-c [] st h = refl
no_errors-c (c_sys_header ∷ ts) st h = rw (h, no_errors) (no_errors-c ts _ refl)
no_errors-c (cpp_sys_header ∷ ts) st h = rw (h, no_errors) (no_errors-cpp ts _ refl)
no_errors-c (likely_my_header ∷ ts) st h = no_errors-other ts _ (ground arith)
no_errors-c (possible_my_header ∷ ts) st h = no_errors-other ts _ (ground arith)
no_errors-c (other_header ∷ ts) st h = no_errors-other ts _ refl

-- From a state that has seen at most the file's own headers, a sequence of headers gives no error
-- message exactly when it has first headers that may be the file's own, then C system headers, then
-- C++ system headers, and then no system header any more.
pub no_errors-in_order :
    (ts : List HeaderType) (st : IncludeState)
    → st.section ≤ my_h_section
    → no_errors ts st ≡ in_order ts
unfolding no_errors check_next_include_order
no_errors-in_order [] st h = refl
no_errors-in_order (c_sys_header ∷ ts) st h =
    let e : leb st.section c_section ≡ true = ground arith in
    rw (e, no_errors) (no_errors-c ts (move_to c_section st) refl)
no_errors-in_order (cpp_sys_header ∷ ts) st h =
    let e : leb st.section cpp_section ≡ true = ground arith in
    rw (e, no_errors) (no_errors-cpp ts (move_to cpp_section st) refl)
no_errors-in_order (likely_my_header ∷ ts) st h = no_errors-in_order ts _ (ground arith)
no_errors-in_order (possible_my_header ∷ ts) st h = no_errors-in_order ts _ (ground arith)
no_errors-in_order (other_header ∷ ts) st h = no_errors-other ts _ refl

-- The state after a sequence of headers.
abbrev pub run_order : List HeaderType → IncludeState → IncludeState
run_order [] st = st
run_order (t ∷ ts) st = run_order ts (check_next_include_order t st).0

step_forward :
    (t : HeaderType) (st : IncludeState)
    → st.section ≤ other_h_section
    → (st.section ≤ (check_next_include_order t st).0.section)
      × ((check_next_include_order t st).0.section ≤ other_h_section)
unfolding check_next_include_order
step_forward c_sys_header st h = ground arith
step_forward cpp_sys_header st h = ground arith
step_forward likely_my_header st h = ground arith
step_forward possible_my_header st h = ground arith
step_forward other_header st h = ground arith

-- Over any sequence of headers, out of order or not, the section never moves back, and it stays
-- among the five.
pub section-run_order :
    (ts : List HeaderType) (st : IncludeState)
    → st.section ≤ other_h_section
    → (st.section ≤ (run_order ts st).section) × ((run_order ts st).section ≤ other_h_section)
section-run_order [] st h = omega arith
section-run_order (t ∷ ts) st h =
    let (a, b) = step_forward t st h in
    let (c, d) = section-run_order ts (check_next_include_order t st).0 b in (omega arith, d)
