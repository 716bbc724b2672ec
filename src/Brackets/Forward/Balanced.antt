-- ===== src/Brackets/Forward/Balanced.antt =====
-- `FindEndOfExpressionInLine` on balanced text.

use core_arbiter.Prelude.{ℕ, zero, suc, ◌≡◌, true, false, [], ◌∷◌, ◌++◌, arith, ◌==◌}
use core_arbiter.Str.{Str, codes, char_in}
use core_arbiter.Regex.{char}
use core_arbiter.Brackets.Forward.{Step, go_on, pop_while, pairs, end_step}
use core_arbiter.Cleanse.RawStrings.{closing}
use core_arbiter.Brackets.Text.{is_bracket, Balanced, nil, plain, nest, Pair, round, square, curly}
use core_arbiter.Prelude.{◌+◌, refl, ap, if_cases}
use core_arbiter.Brackets.Forward.{
  EndResult, closed, unbalanced, pop_or_stop, last_is, pop_if, stop_if_empty, is_arrow_or_operator,
  is_operator_before,
}
use mathlib.Core.List.{append_assoc}
use native.Mathlib.Nat.{add-zero}
use core_arbiter.Prelude.{◌∙◌, reverse, length, take, drop, length-append}
use core_arbiter.Brackets.Forward.{end_loop, find_end_of_expression_in_line, stop}

-- The stack under `n` tentative template brackets.
abbrev angles : ℕ → Str → Str
angles zero stack = stack
angles (suc n) stack = b'<' ∷ angles n stack

pop_while-angles :
    (n c : ℕ) (stack : Str)
    → (c == b'<') ≡ false
    → pop_while b'<' (angles n (c ∷ stack)) ≡ c ∷ stack
unfolding pop_while
pop_while-angles zero c stack h = ground arith
pop_while-angles (suc n) c stack h = ground (arith, pop_while-angles n c stack h)

-- The step leaves the stack as it is but for tentative brackets on its top.
abbrev Leaves : ℕ → Str → Step → Type 0
Leaves c stack r = (n : ℕ) × (r ≡ go_on (angles n (c ∷ stack)))

pop_if-Leaves :
    (n c : ℕ) (stack : Str) (r : EndResult)
    → (c == b'<') ≡ false
    → Leaves c stack (pop_if b'<' (angles n (c ∷ stack)) r)
pop_if-Leaves zero c stack r k = (0, rw k)
pop_if-Leaves (suc n) c stack r k = (n, pop_angles n)
  where
    pop_angles : (n : ℕ) → pop_or_stop (angles n (c ∷ stack)) r ≡ go_on (angles n (c ∷ stack))
    pop_angles zero = refl
    pop_angles (suc n) = refl

plain-Leaves :
    (before : Str) (i char n c : ℕ) (stack : Str)
    → is_bracket char ≡ false
    → (c == b'<') ≡ false
    → Leaves c stack (end_step before i char (angles n (c ∷ stack)))
unfolding end_step
plain-Leaves before i char n c stack h k =
    if_cases (Leaves c stack) (char_in char (codes "([{")) _ _ (λ e. absurd (ground arith))
      λ _.
        if_cases (Leaves c stack) (char == b'<') _ _
          (λ _.
            if_cases (Leaves c stack) (last_is b'<' before) _ _
              (λ _. pop_if-Leaves n c stack unbalanced k)
              λ _.
                if_cases (Leaves c stack) (is_operator_before before) _ _ (λ _. (n, refl))
                  (λ _. (suc n, refl)))
          λ _.
            if_cases (Leaves c stack) (char_in char (codes ")]}")) _ _ (λ e. absurd (ground arith))
              λ _.
                if_cases (Leaves c stack) (char == b'>') _ _
                  (λ _.
                    if_cases (Leaves c stack) (is_arrow_or_operator before) _ _ (λ _. (n, refl))
                      (λ _. pop_if-Leaves n c stack (closed (i + 1)) k))
                  λ _.
                    if_cases (Leaves c stack) (char == b';') _ _
                      (λ _. (0, ap stop_if_empty (pop_while-angles n c stack k))) (λ _. (n, refl))

record PairFacts (opening closing : ℕ) : Type 0 where
  opens : char_in opening (codes "([{") ≡ true
  no_angle : (opening == b'<') ≡ false
  opens_not : char_in closing (codes "([{") ≡ false
  closing_no_angle : (closing == b'<') ≡ false
  closes : char_in closing (codes ")]}") ≡ true

pair_facts : (opening closing : ℕ) → Pair opening closing → PairFacts opening closing
pair_facts _ _ round = record {
  opens = refl;
  no_angle = refl;
  opens_not = refl;
  closing_no_angle = refl;
  closes = refl;
}
pair_facts _ _ square = record {
  opens = refl;
  no_angle = refl;
  opens_not = refl;
  closing_no_angle = refl;
  closes = refl;
}
pair_facts _ _ curly = record {
  opens = refl;
  no_angle = refl;
  opens_not = refl;
  closing_no_angle = refl;
  closes = refl;
}

pairs-Pair : {opening closing : ℕ} → Pair opening closing → pairs opening closing ≡ true
pairs-Pair round = refl
pairs-Pair square = refl
pairs-Pair curly = refl

opening_step :
    (before : Str) (i opening closing : ℕ) (stack : Str)
    → Pair opening closing
    → end_step before i opening stack ≡ go_on (opening ∷ stack)
unfolding end_step
opening_step before i opening closing stack h = rw (pair_facts opening closing h).opens

closing_step :
    (before : Str) (i n opening closing : ℕ) (stack : Str)
    → Pair opening closing
    → end_step before i closing (angles n (opening ∷ stack)) ≡ pop_or_stop stack (closed (i + 1))
unfolding end_step
closing_step before i n opening closing stack h =
    let f : PairFacts opening closing = pair_facts opening closing h in
    rw (
      f.opens_not,
      f.closing_no_angle,
      f.closes,
      pop_while-angles n opening stack f.no_angle,
      pairs-Pair h,
    )

-- The loop over balanced text, above an opening bracket.
record Passes (before : Str) (i : ℕ) (s rest : Str) (n c : ℕ) (stack : Str) : Type 0 where
  seen : Str
  left : ℕ
  passes :
      end_loop before i (s ++ rest) (angles n (c ∷ stack))
      ≡ end_loop seen (i + length s) rest (angles left (c ∷ stack))

one_step :
    (before : Str) (i char : ℕ) (rest stack stack' : Str)
    → end_step before i char stack ≡ go_on stack'
    → end_loop before i (char ∷ rest) stack ≡ end_loop (char ∷ before) (i + 1) rest stack'
unfolding end_loop
one_step before i char rest stack stack' h = rw (h, end_loop)

last_step :
    (before : Str) (i char : ℕ) (rest stack : Str) (r : EndResult)
    → end_step before i char stack ≡ stop r
    → end_loop before i (char ∷ rest) stack ≡ r
unfolding end_loop
last_step before i char rest stack r h = rw (h, end_loop)

non_empty :
    (n c i : ℕ) (stack : Str) (r : EndResult)
    → pop_or_stop (angles n (c ∷ stack)) r ≡ go_on (angles n (c ∷ stack))
non_empty zero c i stack r = refl
non_empty (suc n) c i stack r = refl

Balanced-Passes :
    {s : Str} (before : Str) (i : ℕ) (rest : Str) (n c : ℕ) (stack : Str)
    → Balanced s
    → (c == b'<') ≡ false
    → Passes before i s rest n c stack
Balanced-Passes before i rest n c stack nil k = record {
  seen = before;
  left = n;
  passes = rw (add-zero i);
}
Balanced-Passes before i rest n c stack (plain char {s = s} h b) k =
    let (m, e) = plain-Leaves before i char n c stack h k in
    let p : Passes (char ∷ before) (i + 1) s rest m c stack =
      Balanced-Passes (char ∷ before) (i + 1) rest m c stack b k in
    let at : i + 1 + length s ≡ i + suc (length s) = omega arith in
    record {
      seen = p.seen;
      left = p.left;
      passes =
          one_step before i char (s ++ rest) _ _ e
          ∙ p.passes
          ∙ ap (λ j. end_loop p.seen j rest (angles p.left (c ∷ stack))) at;
    }
Balanced-Passes before i rest n c stack (nest opening closing {s = s} {t = t} h bs bt) k =
    let f : PairFacts opening closing = pair_facts opening closing h in
    let inner : Str = angles n (c ∷ stack) in
    let shape : opening ∷ ((s ++ closing ∷ t) ++ rest) ≡ opening ∷ (s ++ closing ∷ (t ++ rest)) =
      ap (◌∷◌ opening) (append_assoc s (closing ∷ t) rest) in
    let p : Passes (opening ∷ before) (i + 1) s (closing ∷ (t ++ rest)) 0 opening inner =
      Balanced-Passes (opening ∷ before) (i + 1) (closing ∷ (t ++ rest)) 0 opening inner bs
        f.no_angle in
    let j : ℕ = i + 1 + length s in
    let q : Passes (closing ∷ p.seen) (j + 1) t rest n c stack =
      Balanced-Passes (closing ∷ p.seen) (j + 1) rest n c stack bt k in
    let at : j + 1 + length t ≡ i + suc (length (s ++ closing ∷ t)) =
      omega (arith, length-append s (closing ∷ t)) in
    record {
      seen = q.seen;
      left = q.left;
      passes =
          ap (λ l. end_loop before i l inner) shape
          ∙ one_step before i opening (s ++ closing ∷ (t ++ rest)) inner (opening ∷ inner)
              (opening_step before i opening closing inner h)
          ∙ p.passes
          ∙ one_step p.seen j closing (t ++ rest) _ inner (
              closing_step p.seen j p.left opening closing inner h
              ∙ non_empty n c j stack (closed (j + 1)))
          ∙ q.passes
          ∙ ap (λ m. end_loop q.seen m rest (angles q.left (c ∷ stack))) at;
    }

-- At an opening bracket whose closing bracket stands on the line, with balanced text between,
-- `FindEndOfExpressionInLine` returns the position just behind that closing bracket. The angle
-- brackets and semicolons of the text between make no difference.
pub find_end-Balanced :
    (front s rest : Str) (opening closing : ℕ)
    → Balanced s
    → Pair opening closing
    → find_end_of_expression_in_line (front ++ opening ∷ (s ++ closing ∷ rest)) (length front) []
      ≡ closed (length front + length s + 2)
unfolding find_end_of_expression_in_line
find_end-Balanced front s rest opening closing b h =
    let f : PairFacts opening closing = pair_facts opening closing h in
    let line : Str = front ++ opening ∷ (s ++ closing ∷ rest) in
    let i : ℕ = length front in
    let before : Str = reverse (take i line) in
    let p : Passes (opening ∷ before) (i + 1) s (closing ∷ rest) 0 opening [] =
      Balanced-Passes (opening ∷ before) (i + 1) (closing ∷ rest) 0 opening [] b f.no_angle in
    let at : i + 1 + length s + 1 ≡ i + length s + 2 = omega arith in
    ap (λ l. end_loop before i l []) (drop_front front (opening ∷ (s ++ closing ∷ rest)))
    ∙ one_step before i opening (s ++ closing ∷ rest) [] (opening ∷ [])
        (opening_step before i opening closing [] h)
    ∙ p.passes
    ∙ last_step p.seen (i + 1 + length s) closing rest _ _
        (closing_step p.seen (i + 1 + length s) p.left opening closing [] h)
    ∙ ap closed at
  where
    drop_front : (p ls : Str) → drop (length p) (p ++ ls) ≡ ls
    drop_front [] ls = refl
    drop_front (x ∷ p) ls = drop_front p ls
