-- ===== src/Brackets/Forward/Bounds.antt =====
-- Where `CloseExpression` points.
use native.Mathlib.Nat.{zero-add}
use core_arbiter.Prelude.{ℕ, ◌+◌, ◌≡◌, Bool, true}
use core_arbiter.Str.{Str, codes, char_in}
use core_arbiter.Brackets.Forward.{closed, unbalanced, still_open, Step, go_on, end_step, stop}
use core_arbiter.Prelude.{suc, ◌≤◌, refl, some, [], ◌∷◌, arith, ◌==◌, get_elem?, drop, if_cases}
use core_arbiter.Brackets.Forward.{
  EndResult, pop_while, pop_or_stop, last_is, pop_if, pairs, close_with, stop_if_empty,
  is_arrow_or_operator, is_operator_before, end_loop,
}
use core_arbiter.Prelude.{zero, sym, ap, ◌∙◌, none, List, reverse, length, take}
use core_arbiter.Brackets.Forward.{
  find_end_of_expression_in_line, Place, close_loop, close_expression,
}
use core_arbiter.Brackets.Forward.{place_from}
use core_arbiter.Prelude.{not, ◌||◌}
use core_arbiter.Regex.{match, matches}
use core_arbiter.Brackets.Forward.{shift_or_le}

abbrev pub is_closer : ℕ → Bool
is_closer c = char_in c (codes ")]}>")

-- A result at one character: its position is the next one, and the character closes something.
abbrev StopsAt : ℕ → ℕ → Step → Type 0
StopsAt i c (go_on s) = Unit
StopsAt i c (stop (closed p)) = (p ≡ i + 1) × (is_closer c ≡ true)
StopsAt i c (stop unbalanced) = Unit
StopsAt i c (stop (still_open s)) = ⊥

pop_or_stop-StopsAt :
    (i c : ℕ) (stack : Str) (r : EndResult)
    → StopsAt i c (stop r)
    → StopsAt i c (pop_or_stop stack r)
pop_or_stop-StopsAt i c [] r h = h
pop_or_stop-StopsAt i c (t ∷ stack) r h = tt

pop_if-StopsAt :
    (i c t : ℕ) (stack : Str) (r : EndResult)
    → StopsAt i c (stop r)
    → StopsAt i c (pop_if t stack r)
pop_if-StopsAt i c t [] r h = tt
pop_if-StopsAt i c t (top ∷ stack) r h =
    if_cases (StopsAt i c) (top == t) _ _ (λ _. pop_or_stop-StopsAt i c stack r h) (λ _. tt)

close_with-StopsAt :
    (i c : ℕ) (stack : Str) → is_closer c ≡ true → StopsAt i c (close_with c i stack)
close_with-StopsAt i c [] h = tt
close_with-StopsAt i c (top ∷ stack) h =
    if_cases (StopsAt i c) (pairs top c) _ _
      (λ _. pop_or_stop-StopsAt i c stack (closed (i + 1)) (refl, h)) (λ _. tt)

stop_if_empty-StopsAt : (i c : ℕ) (stack : Str) → StopsAt i c (stop_if_empty stack)
stop_if_empty-StopsAt i c [] = tt
stop_if_empty-StopsAt i c (t ∷ stack) = tt

end_step-StopsAt : (before : Str) (i c : ℕ) (stack : Str) → StopsAt i c (end_step before i c stack)
unfolding end_step
end_step-StopsAt before i c stack =
    if_cases (StopsAt i c) (char_in c (codes "([{")) _ _ (λ _. tt)
      λ _.
        if_cases (StopsAt i c) (c == b'<') _ _
          (λ _.
            if_cases (StopsAt i c) (last_is b'<' before) _ _
              (λ _. pop_if-StopsAt i c b'<' stack unbalanced tt)
              λ _. if_cases (StopsAt i c) (is_operator_before before) _ _ (λ _. tt) (λ _. tt))
          λ _.
            if_cases (StopsAt i c) (char_in c (codes ")]}")) _ _
              (λ h. close_with-StopsAt i c (pop_while b'<' stack) (ground arith))
              λ _.
                if_cases (StopsAt i c) (c == b'>') _ _
                  (λ h.
                    if_cases (StopsAt i c) (is_arrow_or_operator before) _ _ (λ _. tt)
                      (λ _. pop_if-StopsAt i c b'<' stack (closed (i + 1)) (refl, ground arith)))
                  λ _.
                    if_cases (StopsAt i c) (c == b';') _ _
                      (λ _. stop_if_empty-StopsAt i c (pop_while b'<' stack)) (λ _. tt)

-- The position found lies behind a closing bracket, within the text that was read.
abbrev Lies : ℕ → Str → EndResult → Type 0
Lies i rest (closed p) =
    (k : ℕ) × (c : ℕ) × (p ≡ i + k + 1) × (get_elem? rest k ≡ some c) × (is_closer c ≡ true)
Lies i rest _ = Unit

Lies-cons : (i c : ℕ) (rest : Str) (r : EndResult) → Lies (i + 1) rest r → Lies i (c ∷ rest) r
Lies-cons i c rest (closed p) (k, d, e, g, h) = (suc k, d, omega (arith, e), g, h)
Lies-cons i c rest unbalanced h = tt
Lies-cons i c rest (still_open s) h = tt

end_loop-Lies :
    (before : Str) (i : ℕ) (rest stack : Str) → Lies i rest (end_loop before i rest stack)
unfolding end_loop
end_loop-Lies before i [] stack = tt
end_loop-Lies before i (c ∷ rest) stack =
    go (end_step before i c stack) (end_step-StopsAt before i c stack)
      (λ s. Lies-cons i c rest _ (end_loop-Lies (c ∷ before) (i + 1) rest s))
  where
    go :
        (r : Step)
        → StopsAt i c r
        → ((s : Str) → Lies i (c ∷ rest) (end_loop (c ∷ before) (i + 1) rest s))
        → Lies i (c ∷ rest) (elim r [ go_on s ↦ end_loop (c ∷ before) (i + 1) rest s | stop r ↦ r ])
    go (go_on s) h ih = ih s
    go (stop (closed p)) (e, h) ih = (0, c, omega (arith, e), refl, h)
    go (stop unbalanced) h ih = tt
    go (stop (still_open s)) h ih = tt

-- `FindEndOfExpressionInLine` points just behind a character of the line, from `startpos` on, that
-- closes a bracket.
pub record PointsBehind (line : Str) (startpos p : ℕ) : Type 0 where
  pub at : ℕ
  pub closer : ℕ
  pub starts : startpos ≤ at
  pub behind : p ≡ at + 1
  pub holds : get_elem? line at ≡ some closer
  pub closes : is_closer closer ≡ true

pub get_elem?-drop {ℓ} :
    {A : Type ℓ} (n k : ℕ) (s : List A) → get_elem? (drop n s) k ≡ get_elem? s (n + k)
get_elem?-drop zero k s = rw (zero-add k)
get_elem?-drop (suc n) k [] = refl
get_elem?-drop (suc n) k (x ∷ s) =
    let e : suc n + k ≡ suc (n + k) = omega arith in rw e (get_elem?-drop n k s)

pub find_end-PointsBehind :
    (line : Str) (startpos : ℕ) (stack : Str) (p : ℕ)
    → find_end_of_expression_in_line line startpos stack ≡ closed p
    → PointsBehind line startpos p
unfolding find_end_of_expression_in_line
find_end-PointsBehind line startpos stack p h =
    let l : Lies startpos (drop startpos line) (closed p) =
      rw h at (end_loop-Lies (reverse (take startpos line)) startpos (drop startpos line) stack) in
    let (k, c, e, g, cl) = l in
    record {
      at = startpos + k;
      closer = c;
      starts = omega arith;
      behind = omega (arith, e);
      holds = sym (get_elem?-drop startpos k line) ∙ g;
      closes = cl;
    }

-- What `CloseExpression` returns, for a search that begins on line `linenum`.
pub data Ends (elided : List Str) (linenum : ℕ) (q : Place) : Type 0 where
  not_found : q.pos ≡ none → q.linenum ≡ length elided → Ends elided linenum q
  found :
      (p : ℕ)
      → q.pos ≡ some p
      → linenum ≤ q.linenum
      → get_elem? elided q.linenum ≡ some q.line
      → PointsBehind q.line 0 p
      → Ends elided linenum q

abbrev pub Points : Str → EndResult → Type 0
Points line (closed p) = PointsBehind line 0 p
Points line _ = Unit

anywhere : {line : Str} {startpos p : ℕ} → PointsBehind line startpos p → PointsBehind line 0 p
anywhere b = record {
  at = b.at;
  closer = b.closer;
  starts = omega arith;
  behind = b.behind;
  holds = b.holds;
  closes = b.closes;
}

pub find_end-Points :
    (line : Str) (startpos : ℕ) (stack : Str)
    → Points line (find_end_of_expression_in_line line startpos stack)
find_end-Points line startpos stack = go (find_end_of_expression_in_line line startpos stack) refl
  where
    go : (r : EndResult) → find_end_of_expression_in_line line startpos stack ≡ r → Points line r
    go (closed p) e = anywhere (find_end-PointsBehind line startpos stack p e)
    go unbalanced e = tt
    go (still_open s) e = tt

module _ (elided : List Str) (first : ℕ) where
  pub close_loop-Ends :
      (later : List Str) (linenum : ℕ) (line : Str) (r : EndResult)
      → first ≤ linenum
      → get_elem? elided linenum ≡ some line
      → ((k : ℕ) → get_elem? later k ≡ get_elem? elided (linenum + 1 + k))
      → Points line r
      → Ends elided first (close_loop later (length elided) linenum line r)
  unfolding close_loop
  close_loop-Ends later linenum line (closed p) le at rest h = found p refl le at h
  close_loop-Ends later linenum line unbalanced le at rest h = not_found refl refl
  close_loop-Ends later linenum line (still_open []) le at rest h = not_found refl refl
  close_loop-Ends [] linenum line (still_open (c ∷ stack)) le at rest h = not_found refl refl
  close_loop-Ends (next ∷ later) linenum line (still_open (c ∷ stack)) le at rest h =
      close_loop-Ends later (linenum + 1) next (find_end_of_expression_in_line next 0 (c ∷ stack))
        (omega arith)
        (let e : linenum + 1 + 0 ≡ linenum + 1 = omega arith in sym (rw e at (rest 0)))
        (λ k.
          let e : linenum + 1 + suc k ≡ linenum + 1 + 1 + k = omega arith in
          rest (suc k) ∙ ap (get_elem? elided) e)
        (find_end-Points next 0 (c ∷ stack))

-- At every position of every line `CloseExpression` returns, and either gives up with the number of
-- lines and -1, or points just behind a closing bracket of a line that is no earlier, and returns
-- that line.
pub close_expression-Ends :
    (elided : List Str) (linenum pos : ℕ) (line : Str) (c : ℕ)
    → get_elem? elided linenum ≡ some line
    → get_elem? line pos ≡ some c
    → (q : Place) × (close_expression elided linenum pos ≡ some q) × Ends elided linenum q
unfolding close_expression match
close_expression-Ends elided linenum pos line c e h = (
  place_from elided linenum line pos c,
  rw (e, close_expression) (rw h),
  if_cases (Ends elided linenum)
      (not (char_in c (codes "({[<")) || matches shift_or_le (drop pos line))
      (record { line = line; linenum = length elided; pos = none }) _ (λ _. not_found refl refl)
      λ _.
        close_loop-Ends elided linenum (drop (linenum + 1) elided) linenum line
          (find_end_of_expression_in_line line pos []) (omega arith) e
          (λ k. get_elem?-drop (linenum + 1) k elided) (find_end-Points line pos []),
)
