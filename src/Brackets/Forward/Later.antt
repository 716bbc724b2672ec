-- ===== src/Brackets/Forward/Later.antt =====
-- How far behind its start `CloseExpression` ends.

use core_arbiter.Prelude.{
  ℕ, suc, ◌+◌, ◌≤◌, ◌<◌, ◌≡◌, refl, sym, ap, ◌∙◌, not, ◌||◌, none, some, List, [], ◌∷◌, arith,
  length, get_elem?, drop, get_elem?-lt, get_elem?-some, if_cases,
}
use core_arbiter.Str.{Str, codes, char_in}
use core_arbiter.Regex.{matches}
use core_arbiter.Brackets.Forward.{
  EndResult, closed, unbalanced, still_open, find_end_of_expression_in_line, Place, close_loop,
  shift_or_le, place_from, close_expression,
}
use core_arbiter.Brackets.Forward.Bounds.{
  PointsBehind, get_elem?-drop, find_end-PointsBehind, Ends, not_found, found, find_end-Points,
  close_loop-Ends,
}

-- The place is not found, or behind the start on its line, or on a later line.
pub data Later (elided : List Str) (linenum pos : ℕ) (line : Str) (q : Place) : Type 0 where
  gave_up : q.pos ≡ none → Later elided linenum pos line q
  same_line :
      (p : ℕ)
      → q.pos ≡ some p
      → q.linenum ≡ linenum
      → pos < p
      → p ≤ length line
      → Later elided linenum pos line q
  later_line :
      (p : ℕ) (l : Str)
      → q.pos ≡ some p
      → linenum < q.linenum
      → get_elem? elided q.linenum ≡ some l
      → p ≤ length l
      → Later elided linenum pos line q

below :
    (elided : List Str) (linenum pos : ℕ) (line : Str) (q : Place)
    → Ends elided (linenum + 1) q
    → Later elided linenum pos line q
below elided linenum pos line q (not_found e f) = gave_up e
below elided linenum pos line q (found p e le at h) = later_line p q.line e (omega arith) at (
    let lt : h.at < length q.line = get_elem?-lt q.line h.at h.holds in
    let b : p ≡ h.at + 1 = h.behind in omega arith)

module _ (elided : List Str) (linenum pos : ℕ) (line : Str) where
  lines_below :
      (c : ℕ) (stack : Str) (later : List Str)
      → ((k : ℕ) → get_elem? later k ≡ get_elem? elided (linenum + 1 + k))
      → Later elided linenum pos line
          (close_loop later (length elided) linenum line (still_open (c ∷ stack)))
  unfolding close_loop
  lines_below c stack [] h = gave_up refl
  lines_below c stack (next ∷ later) h = below elided linenum pos line _ (
      close_loop-Ends elided (linenum + 1) later (linenum + 1) next
        (find_end_of_expression_in_line next 0 (c ∷ stack)) (omega arith)
        (let e : linenum + 1 + 0 ≡ linenum + 1 = omega arith in sym (rw e at (h 0)))
        (λ k.
          let e : linenum + 1 + suc k ≡ linenum + 1 + 1 + k = omega arith in
          h (suc k) ∙ ap (get_elem? elided) e)
        (find_end-Points next 0 (c ∷ stack)))

  from_result :
      (r : EndResult)
      → find_end_of_expression_in_line line pos [] ≡ r
      → Later elided linenum pos line
          (close_loop (drop (linenum + 1) elided) (length elided) linenum line r)
  unfolding close_loop
  from_result (closed p) e =
      let h : PointsBehind line pos p = find_end-PointsBehind line pos [] p e in
      let lt : h.at < length line = get_elem?-lt line h.at h.holds in
      let b : p ≡ h.at + 1 = h.behind in
      let s : pos ≤ h.at = h.starts in same_line p refl refl (omega arith) (omega arith)
  from_result unbalanced e = gave_up refl
  from_result (still_open []) e = gave_up refl
  from_result (still_open (c ∷ stack)) e =
      lines_below c stack (drop (linenum + 1) elided) (λ k. get_elem?-drop (linenum + 1) k elided)

pub close_expression-Later :
    (elided : List Str) (linenum pos : ℕ) (line : Str)
    → get_elem? elided linenum ≡ some line
    → pos < length line
    → (q : Place) × (close_expression elided linenum pos ≡ some q) × Later elided linenum pos line q
unfolding close_expression
close_expression-Later elided linenum pos line e lt =
    let (c, h) = get_elem?-some line pos lt in
    (
      place_from elided linenum line pos c,
      rw (e, close_expression) (rw h),
      if_cases (Later elided linenum pos line)
          (not (char_in c (codes "({[<")) || matches shift_or_le (drop pos line)) _ _
          (λ _. gave_up refl)
          (λ _.
            from_result elided linenum pos line (find_end_of_expression_in_line line pos []) refl),
    )
