-- ===== src/Brackets/Backward/Bounds.antt =====
-- Where `FindStartOfExpressionInLine` and `ReverseCloseExpression` point.
use mathlib.Core.List.{append_assoc, reverse-reverse, reverse-cons}
use core_arbiter.Prelude.{
  ℕ, zero, suc, ◌+◌, ◌≤◌, ◌≡◌, refl, sym, ap, ◌∙◌, Bool, true, false, not, none, some, List, [],
  ◌∷◌, ◌++◌, reverse, arith, ◌==◌, length, get_elem?, take, drop, length-reverse, length-take-le,
  take-append-drop, if_cases,
}
use core_arbiter.Str.{Str, codes, char_in}
use core_arbiter.Brackets.Backward.{
  StartResult, opened, unmatched, pending, BackStep, back, back_two, give, pop_or_give, pop_angle,
  give_if_empty, is_not_template_end, start_step, start_loop, find_start_of_expression_in_line,
  reverse_loop, reverse_from, reverse_close_expression, open_with,
}
use core_arbiter.Brackets.Forward.{pop_while, last_is, pairs, Place}

abbrev pub is_opener : ℕ → Bool
is_opener c = char_in c (codes "([{<")

-- A result at one character: its position is that of the character, which opens something.
abbrev GivesAt : ℕ → ℕ → BackStep → Type 0
GivesAt i c (back s) = Unit
GivesAt i c back_two = Unit
GivesAt i c (give (opened p)) = (p ≡ i) × (is_opener c ≡ true)
GivesAt i c (give unmatched) = Unit
GivesAt i c (give (pending s)) = ⊥

pop_or_give-GivesAt :
    (i c : ℕ) (stack : Str) → is_opener c ≡ true → GivesAt i c (pop_or_give stack (opened i))
pop_or_give-GivesAt i c [] h = (refl, h)
pop_or_give-GivesAt i c (t ∷ stack) h = tt

pop_angle-GivesAt : (i c : ℕ) (stack : Str) → is_opener c ≡ true → GivesAt i c (pop_angle i stack)
pop_angle-GivesAt i c [] h = tt
pop_angle-GivesAt i c (top ∷ stack) h =
    if_cases (GivesAt i c) (top == b'>') _ _ (λ _. pop_or_give-GivesAt i c stack h) (λ _. tt)

open_with-GivesAt : (i c : ℕ) (stack : Str) → is_opener c ≡ true → GivesAt i c (open_with c i stack)
open_with-GivesAt i c [] h = tt
open_with-GivesAt i c (top ∷ stack) h =
    if_cases (GivesAt i c) (pairs c top) _ _ (λ _. pop_or_give-GivesAt i c stack h) (λ _. tt)

give_if_empty-GivesAt : (i c : ℕ) (stack : Str) → GivesAt i c (give_if_empty stack)
give_if_empty-GivesAt i c [] = tt
give_if_empty-GivesAt i c (t ∷ stack) = tt

start_step-GivesAt :
    (before : Str) (c : ℕ) (after stack : Str)
    → GivesAt (length before) c (start_step before c after stack)
unfolding start_step
start_step-GivesAt before c after stack =
    let i : ℕ = length before in
    if_cases (GivesAt i c) (char_in c (codes ")]}")) _ _ (λ _. tt)
      λ _.
        if_cases (GivesAt i c) (c == b'>') _ _
          (λ _.
            if_cases (GivesAt i c) (is_not_template_end before (c ∷ after)) _ _ (λ _. tt) (λ _. tt))
          λ _.
            if_cases (GivesAt i c) (c == b'<') _ _
              (λ h.
                if_cases (GivesAt i c) (last_is b'<' before) _ _ (λ _. tt)
                  (λ _. pop_angle-GivesAt i c stack (ground arith)))
              λ _.
                if_cases (GivesAt i c) (char_in c (codes "([{")) _ _
                  (λ h. open_with-GivesAt i c (pop_while b'>' stack) (ground arith))
                  λ _.
                    if_cases (GivesAt i c) (c == b';') _ _
                      (λ _. give_if_empty-GivesAt i c (pop_while b'>' stack)) (λ _. tt)

-- The position found is that of an opening bracket in the text, which is read from its end.
abbrev Opens : Str → StartResult → Type 0
Opens s (opened p) =
    (front : Str) × (c : ℕ) × (rest : Str) × (s ≡ front ++ c ∷ rest)
    × (p ≡ length rest)
    × (is_opener c ≡ true)
Opens s _ = Unit

Opens-cons : (c : ℕ) (s : Str) (r : StartResult) → Opens s r → Opens (c ∷ s) r
Opens-cons c s (opened p) (front, d, rest, e, q, h) = (c ∷ front, d, rest, ap (◌∷◌ c) e, q, h)
Opens-cons c s unmatched h = tt
Opens-cons c s (pending t) h = tt

start_loop-Opens : (skip : Bool) (s after stack : Str) → Opens s (start_loop skip s after stack)
unfolding start_loop
start_loop-Opens skip [] after stack = tt
start_loop-Opens true (c ∷ s) after stack =
    Opens-cons c s _ (start_loop-Opens false s (c ∷ after) stack)
start_loop-Opens false (c ∷ s) after stack =
    go (start_step s c after stack) (start_step-GivesAt s c after stack)
      (λ skip t. Opens-cons c s _ (start_loop-Opens skip s (c ∷ after) t))
  where
    go :
        (r : BackStep)
        → GivesAt (length s) c r
        → ((skip : Bool) (t : Str) → Opens (c ∷ s) (start_loop skip s (c ∷ after) t))
        → Opens (c ∷ s) (elim r [
          | back t ↦ start_loop false s (c ∷ after) t
          | back_two ↦ start_loop true s (c ∷ after) stack
          | give r ↦ r
        ])
    go (back t) h ih = ih false t
    go back_two h ih = ih true stack
    go (give (opened p)) (e, h) ih = ([], c, s, refl, e, h)
    go (give unmatched) h ih = tt
    go (give (pending t)) h ih = tt

get_elem?-before {ℓ} :
    {A : Type ℓ} (s t : List A) (n : ℕ) {x : A}
    → get_elem? s n ≡ some x
    → get_elem? (s ++ t) n ≡ some x
get_elem?-before [] t n h = absurd (ground arith)
get_elem?-before (y ∷ s) t zero h = h
get_elem?-before (y ∷ s) t (suc n) h = get_elem?-before s t n h

get_elem?-length {ℓ} :
    {A : Type ℓ} (s t : List A) (x : A) → get_elem? (s ++ x ∷ t) (length s) ≡ some x
get_elem?-length [] t x = refl
get_elem?-length (y ∷ s) t x = get_elem?-length s t x

get_elem?-reverse {ℓ} :
    {A : Type ℓ} (front : List A) (x : A) (rest : List A)
    → get_elem? (reverse (front ++ x ∷ rest)) (length rest) ≡ some x
get_elem?-reverse [] x rest =
    ap (λ s. get_elem? s (length rest)) (reverse-cons x rest)
    ∙ ap (get_elem? (reverse rest ++ x ∷ [])) (sym (length-reverse rest))
    ∙ get_elem?-length (reverse rest) [] x
get_elem?-reverse (y ∷ front) x rest =
    ap (λ s. get_elem? s (length rest)) (reverse-cons y (front ++ x ∷ rest))
    ∙ get_elem?-before (reverse (front ++ x ∷ rest)) (y ∷ []) (length rest)
        (get_elem?-reverse front x rest)

-- The position is that of an opening bracket of the line.
pub record PointsAt (line : Str) (p : ℕ) : Type 0 where
  pub opener : ℕ
  pub holds : get_elem? line p ≡ some opener
  pub opens : is_opener opener ≡ true

abbrev PointsIfOpened : Str → StartResult → Type 0
PointsIfOpened line (opened p) = PointsAt line p
PointsIfOpened line _ = Unit

find_start-Points :
    (line : Str) (behind : ℕ) (stack : Str)
    → PointsIfOpened line (find_start_of_expression_in_line line behind stack)
unfolding find_start_of_expression_in_line
find_start-Points line behind stack =
    go (start_loop false (reverse (take behind line)) (drop behind line) stack)
      (start_loop-Opens false (reverse (take behind line)) (drop behind line) stack)
  where
    go : (r : StartResult) → Opens (reverse (take behind line)) r → PointsIfOpened line r
    go (opened p) (front, c, rest, e, q, h) = record {
      opener = c;
      holds =
          ap (get_elem? line) q
          ∙ ap (λ s. get_elem? s (length rest)) (sym (take-append-drop behind line))
          ∙ get_elem?-before (take behind line) (drop behind line) (length rest) (
              ap (λ s. get_elem? s (length rest))
                (sym (reverse-reverse (take behind line)) ∙ ap reverse e)
              ∙ get_elem?-reverse front c rest);
      opens = h;
    }
    go unmatched h = tt
    go (pending t) h = tt

-- What `ReverseCloseExpression` returns, for a search that begins on line `linenum`.
pub data Begins (elided : List Str) (linenum : ℕ) (q : Place) : Type 0 where
  not_found : q.pos ≡ none → q.linenum ≡ 0 → Begins elided linenum q
  found :
      (p : ℕ)
      → q.pos ≡ some p
      → q.linenum ≤ linenum
      → get_elem? elided q.linenum ≡ some q.line
      → PointsAt q.line p
      → Begins elided linenum q

module _ (elided : List Str) (first : ℕ) where
  reverse_loop-Begins :
      (earlier : List Str) (line : Str) (later : List Str) (r : StartResult)
      → length earlier ≤ first
      → elided ≡ reverse earlier ++ line ∷ later
      → PointsIfOpened line r
      → Begins elided first (reverse_loop earlier line r)
  unfolding reverse_loop
  reverse_loop-Begins earlier line later (opened p) le e h =
      found p refl le
        (ap (get_elem? elided) (sym (length-reverse earlier))
          ∙ ap (λ s. get_elem? s (length (reverse earlier))) e
          ∙ get_elem?-length (reverse earlier) later line)
        h
  reverse_loop-Begins earlier line later unmatched le e h = not_found refl refl
  reverse_loop-Begins earlier line later (pending []) le e h = not_found refl refl
  reverse_loop-Begins [] line later (pending (c ∷ stack)) le e h = not_found refl refl
  reverse_loop-Begins (previous ∷ earlier) line later (pending (c ∷ stack)) le e h =
      reverse_loop-Begins earlier previous (line ∷ later)
        (find_start_of_expression_in_line previous (length previous) (c ∷ stack)) (omega arith)
        (e
          ∙ ap (λ s. s ++ line ∷ later) (reverse-cons previous earlier)
          ∙ append_assoc (reverse earlier) (previous ∷ []) (line ∷ later))
        (find_start-Points previous (length previous) (c ∷ stack))

split_at {ℓ} :
    {A : Type ℓ} (s : List A) (n : ℕ) (x : A)
    → get_elem? s n ≡ some x
    → s ≡ take n s ++ x ∷ drop (suc n) s
split_at [] n x h = absurd (ground arith)
split_at (y ∷ s) zero x h = ap (λ z. z ∷ s) (ground arith)
split_at (y ∷ s) (suc n) x h = ap (◌∷◌ y) (split_at s n x h)

-- At every position of every line `ReverseCloseExpression` returns, and either gives up with line 0
-- and -1, or points at an opening bracket of a line that is no later, and returns that line.
pub reverse_close_expression-Begins :
    (elided : List Str) (linenum pos : ℕ) (line : Str) (c : ℕ)
    → get_elem? elided linenum ≡ some line
    → get_elem? line pos ≡ some c
    → (q : Place) × (reverse_close_expression elided linenum pos ≡ some q) × Begins elided linenum q
unfolding reverse_close_expression
reverse_close_expression-Begins elided linenum pos line c e h = (
  reverse_from elided linenum line pos c,
  rw (e, reverse_close_expression) (rw h),
  if_cases (Begins elided linenum) (not (char_in c (codes ")}]>")))
      (record { line = line; linenum = 0; pos = none }) _ (λ _. not_found refl refl)
      λ _.
        reverse_loop-Begins elided linenum (reverse (take linenum elided)) line
          (drop (suc linenum) elided) (find_start_of_expression_in_line line (pos + 1) [])
          (omega (arith, length-reverse (take linenum elided), length-take-le linenum elided))
          (split_at elided linenum line e
            ∙ ap (λ s. s ++ line ∷ drop (suc linenum) elided)
                (sym (reverse-reverse (take linenum elided))))
          (find_start-Points line (pos + 1) []),
)
