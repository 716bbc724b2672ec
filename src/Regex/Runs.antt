-- ===== src/Regex/Runs.antt =====
-- The matcher on texts that are known: it takes the one way through.
use core_arbiter.Prelude.{
  length-append, ℕ, zero, suc, ◌+◌, ◌-◌, ◌≤◌, ◌≡◌, refl, ap, ◌∙◌, true, false, not, Bool, some,
  none, Option, List, [], ◌∷◌, ◌++◌, arith, length, take, all, ltb, ◌==◌,
}
use core_arbiter.Str.{Str}
use core_arbiter.Regex.{
  Cursor, Then, one_of, star, lazy_star, any_char, text, run, repeat, repeat_lazily, slice, moved,
}
use core_arbiter.Regex.Loops.{OneLine}
use core_arbiter.Regex.Groups.{whole, onto, drop-whole}

-- The place behind `before`, which is reversed.
abbrev pub at : Str → Str → List (ℕ × ℕ × ℕ) → Cursor
at before after groups = record { before = before; after = after; groups = groups }

pub run-text :
    (s rest b : Str) (gs : List (ℕ × ℕ × ℕ)) (k : Then)
    → run (text s) (at b (s ++ rest) gs) k ≡ k (at (onto s b) rest gs)
unfolding run
run-text [] rest b gs k = refl
run-text (x ∷ s) rest b gs k = ground (arith, run-text s rest (x ∷ b) gs k)

pub run-one_of :
    (p : ℕ → Bool) (x : ℕ) (rest b : Str) (gs : List (ℕ × ℕ × ℕ)) (k : Then)
    → p x ≡ true
    → run (one_of p) (at b (x ∷ rest) gs) k ≡ k (at (x ∷ b) rest gs)
unfolding run
run-one_of p x rest b gs k h = rw h refl

pub run-one_of-none :
    (p : ℕ → Bool) (x : ℕ) (rest b : Str) (gs : List (ℕ × ℕ × ℕ)) (k : Then)
    → p x ≡ false
    → run (one_of p) (at b (x ∷ rest) gs) k ≡ none
unfolding run
run-one_of-none p x rest b gs k h = rw h refl

pub first_through :
    (a o : Option Cursor) (e : Cursor) → a ≡ some e → elim a [ none ↦ o | some d ↦ some d ] ≡ some e
first_through a o e h = rw h refl

-- A test in front of a pattern that fails.
pub test-none :
    (t : Bool) (o : Option Cursor) → o ≡ none → elim t [ true ↦ o | false ↦ none ] ≡ none
test-none true o h = h
test-none false o h = refl

-- The pattern for one character stops a loop here.
abbrev pub Stops : (ℕ → Bool) → Str → Type 0
Stops p [] = Unit
Stops p (y ∷ rest) = p y ≡ false

repeat-all :
    (p : ℕ → Bool) (s rest b : Str) (gs : List (ℕ × ℕ × ℕ)) (k : Then) (e : Cursor) (fuel : ℕ)
    → length s ≤ fuel
    → all p s ≡ true
    → Stops p rest
    → k (at (onto s b) rest gs) ≡ some e
    → repeat (run (one_of p)) fuel (at b (s ++ rest) gs) k ≡ some e
unfolding run repeat
repeat-all p [] rest b gs k e zero le h q r = r
repeat-all p [] [] b gs k e (suc fuel) le h q r = r
repeat-all p [] (y ∷ rest) b gs k e (suc fuel) le h q r = rw q r
repeat-all p (x ∷ s) rest b gs k e zero le h q r = absurd (omega arith)
repeat-all p (x ∷ s) rest b gs k e (suc fuel) le h q r =
    let i = repeat-all p s rest (x ∷ b) gs k e fuel (omega arith) (ground arith) q r in
    let on : ltb (length (s ++ rest)) (suc (length (s ++ rest))) ≡ true = ground arith in
    let px : p x ≡ true = ground arith in rw (px, on, i) refl

lazily :
    (s rest b : Str) (gs : List (ℕ × ℕ × ℕ)) (k : Then) (e : Cursor) (fuel : ℕ)
    → length s ≤ fuel
    → OneLine s
    → ((a t : Str) (x : ℕ) → s ≡ a ++ x ∷ t → k (at (onto a b) (x ∷ (t ++ rest)) gs) ≡ none)
    → k (at (onto s b) rest gs) ≡ some e
    → repeat_lazily (run any_char) fuel (at b (s ++ rest) gs) k ≡ some e
unfolding run repeat_lazily
lazily [] rest b gs k e zero le h q r = r
lazily [] rest b gs k e (suc fuel) le h q r = ground arith
lazily (x ∷ s) rest b gs k e zero le h q r = absurd (omega arith)
lazily (x ∷ s) rest b gs k e (suc fuel) le h q r =
    let i =
      lazily s rest (x ∷ b) gs k e fuel (omega arith) h.1
        (λ a t y w. q (x ∷ a) t y (ap (λ z. x ∷ z) w)) r in
    let f = q [] s x refl in
    let on : ltb (length (s ++ rest)) (suc (length (s ++ rest))) ≡ true = ground arith in
    let nl : not (x == b'\n') ≡ true = ground arith in
    let again : Then = λ d. elim (moved (at b (x ∷ (s ++ rest)) gs) d) [
      | true ↦ repeat_lazily (run any_char) fuel d k
      | false ↦ none
    ] in
    let go_on : again (at (x ∷ b) (s ++ rest) gs) ≡ some e = rw on i in
    rw (f, repeat_lazily) (run-one_of (λ d. not (d == b'\n')) x (s ++ rest) b gs again nl ∙ go_on)

pub whole-onto : (s b t : Str) → whole (onto s b) t ≡ whole b (s ++ t)
whole-onto [] b t = refl
whole-onto (x ∷ s) b t = whole-onto s (x ∷ b) t

pub onto-append : (s t b : Str) → onto (s ++ t) b ≡ onto t (onto s b)
onto-append [] t b = refl
onto-append (x ∷ s) t b = onto-append s t (x ∷ b)

pub length-onto : (s b : Str) → length (onto s b) ≡ length s + length b
length-onto [] b = omega arith
length-onto (x ∷ s) b = omega (arith, length-onto s (x ∷ b))

pub take-all : (s rest : Str) → take (length s) (s ++ rest) ≡ s
take-all [] rest = refl
take-all (x ∷ s) rest = ap (λ t. x ∷ t) (take-all s rest)

-- What a group has taken.
pub slice-onto : (b s rest : Str) → slice (whole b (s ++ rest)) (length b) (length (onto s b)) ≡ s
slice-onto b s rest =
    let n : length (onto s b) - length b ≡ length s = omega (arith, length-onto s b) in
    rw (n, drop-whole b (s ++ rest)) (take-all s rest)

pub run-star :
    (p : ℕ → Bool) (s rest b : Str) (gs : List (ℕ × ℕ × ℕ)) (k : Then) (e : Cursor)
    → all p s ≡ true
    → Stops p rest
    → k (at (onto s b) rest gs) ≡ some e
    → run (star (one_of p)) (at b (s ++ rest) gs) k ≡ some e
unfolding run
run-star p s rest b gs k e =
    repeat-all p s rest b gs k e (length (s ++ rest)) (omega (arith, length-append s rest))

pub run-lazy_star :
    (s rest b : Str) (gs : List (ℕ × ℕ × ℕ)) (k : Then) (e : Cursor)
    → OneLine s
    → ((a t : Str) (x : ℕ) → s ≡ a ++ x ∷ t → k (at (onto a b) (x ∷ (t ++ rest)) gs) ≡ none)
    → k (at (onto s b) rest gs) ≡ some e
    → run (lazy_star any_char) (at b (s ++ rest) gs) k ≡ some e
unfolding run
run-lazy_star s rest b gs k e =
    lazily s rest b gs k e (length (s ++ rest)) (omega (arith, length-append s rest))
