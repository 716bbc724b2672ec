-- ===== src/Regex/Sound.antt =====
-- What the matcher finds is a match by the declarative reading of the pattern, which knows no order
-- of search.
use core_arbiter.Prelude.{
  ℕ, zero, suc, ◌≡◌, refl, Bool, true, false, Option, none, some, [], ◌∷◌, arith, length, inl, inr,
  Bool-cases, ◌⊎◌,
}
use core_arbiter.Str.{Str}
use core_arbiter.Regex.{
  Regex, empty, one_of, seq, either, star, lazy_star, group, at_start, at_end, word_boundary, ahead,
  not_ahead, Cursor, Then, step_char, moved, repeat, repeat_lazily, close_group, run, is_empty_str,
  is_at_end, starts_word, differs,
}

-- The pattern takes the cursor from the first place to the second.
pub data Takes : Regex → Cursor → Cursor → Type 0 where
  nothing : {c : Cursor} → Takes empty c c
  one :
      {p : ℕ → Bool} {c d : Cursor} (x : ℕ) (s : Str)
      → c.after ≡ x ∷ s
      → p x ≡ true
      → d ≡ record c { before = x ∷ c.before; after = s }
      → Takes (one_of p) c d
  both : {r s : Regex} {c d e : Cursor} → Takes r c d → Takes s d e → Takes (seq r s) c e
  left : {r s : Regex} {c d : Cursor} → Takes r c d → Takes (either r s) c d
  right : {r s : Regex} {c d : Cursor} → Takes s c d → Takes (either r s) c d
  stop : {r : Regex} {c : Cursor} → Takes (star r) c c
  more : {r : Regex} {c d e : Cursor} → Takes r c d → Takes (star r) d e → Takes (star r) c e
  lazy : {r : Regex} {c d : Cursor} → Takes (star r) c d → Takes (lazy_star r) c d
  named :
      {n : ℕ} {r : Regex} {c d e : Cursor}
      → Takes r c d
      → e ≡ close_group n c d
      → Takes (group n r) c e
  begins : {c : Cursor} → is_empty_str c.before ≡ true → Takes at_start c c
  ends : {c : Cursor} → is_at_end c.after ≡ true → Takes at_end c c
  boundary :
      {c : Cursor}
      → differs (starts_word c.before) (starts_word c.after) ≡ true
      → Takes word_boundary c c
  sees : {r : Regex} {c d : Cursor} → Takes r c d → Takes (ahead r) c c
  sees_not : {r : Regex} {c : Cursor} → run r c (λ d. some d) ≡ none → Takes (not_ahead r) c c

-- The run went through the pattern and then through the rest, `k`.
pub record Through (r : Regex) (c : Cursor) (k : Then) (e : Cursor) : Type 0 where
  pub place : Cursor
  pub takes : Takes r c place
  pub rest : k place ≡ some e

abbrev RunSound : (Cursor → Then → Option Cursor) → Regex → Type 0
RunSound m r = (c : Cursor) (k : Then) (e : Cursor) → m c k ≡ some e → Through r c k e

step_char-Through :
    (p : ℕ → Bool) (c : Cursor) (s : Str) (k : Then) (e : Cursor)
    → c.after ≡ s
    → step_char p c s k ≡ some e
    → Through (one_of p) c k e
step_char-Through p c [] k e q h = absurd (ground arith)
step_char-Through p c (x ∷ s) k e q h = elim (Bool-cases (p x)) [
  | inl t ↦ record {
    place = record c { before = x ∷ c.before; after = s };
    takes = one x s q t refl;
    rest = ground arith;
  }
  | inr f ↦ absurd (ground arith)
]

-- A loop that went on from `d` went on because it had moved.
went_on :
    (b : Bool) (o : Option Cursor) (e : Cursor)
    → elim b [ true ↦ o | false ↦ none ] ≡ some e
    → (b ≡ true) × (o ≡ some e)
went_on true o e h = (refl, h)
went_on false o e h = absurd (ground arith)

one_of_two :
    (a b : Option Cursor) (e : Cursor)
    → elim a [ none ↦ b | some d ↦ some d ] ≡ some e
    → (a ≡ some e) ⊎ (b ≡ some e)
one_of_two none b e h = inr h
one_of_two (some d) b e h = inl h

module _ (r : Regex) (m : Cursor → Then → Option Cursor) (sound : RunSound m r) where
  -- One round, and then the loop again.
  round-Through :
      (c : Cursor) (k : Then) (e : Cursor) (again : Then)
      → ((d : Cursor) → again d ≡ some e → Through (star r) d k e)
      → m c (λ d. elim (moved c d) [ true ↦ again d | false ↦ none ]) ≡ some e
      → Through (star r) c k e
  round-Through c k e again loop h =
      let t : Through r c (λ d. elim (moved c d) [ true ↦ again d | false ↦ none ]) e =
        sound c _ e h in
      let u : Through (star r) t.place k e =
        loop t.place (went_on (moved c t.place) _ e t.rest).1 in
      record { place = u.place; takes = more t.takes u.takes; rest = u.rest }

  repeat-Through : (fuel : ℕ) → RunSound (repeat m fuel) (star r)
  unfolding repeat
  repeat-Through zero c k e h = record { place = c; takes = stop; rest = h }
  repeat-Through (suc fuel) c k e h = elim (one_of_two _ (k c) e h) [
    | inl go ↦ round-Through c k e (λ d. repeat m fuel d k) (λ d. repeat-Through fuel d k e) go
    | inr out ↦ record { place = c; takes = stop; rest = out }
  ]

  repeat_lazily-Through : (fuel : ℕ) → RunSound (repeat_lazily m fuel) (star r)
  unfolding repeat_lazily
  repeat_lazily-Through zero c k e h = record { place = c; takes = stop; rest = h }
  repeat_lazily-Through (suc fuel) c k e h = elim (one_of_two (k c) _ e h) [
    | inl out ↦ record { place = c; takes = stop; rest = out }
    | inr go ↦
        round-Through c k e (λ d. repeat_lazily m fuel d k) (λ d. repeat_lazily-Through fuel d k e)
          go
  ]

ahead_ran :
    (a o : Option Cursor) (e : Cursor)
    → elim a [ none ↦ none | some d ↦ o ] ≡ some e
    → (d : Cursor) × (a ≡ some d) × (o ≡ some e)
ahead_ran none o e h = absurd (ground arith)
ahead_ran (some d) o e h = (d, refl, h)

ahead_failed :
    (a o : Option Cursor) (e : Cursor)
    → elim a [ none ↦ o | some d ↦ none ] ≡ some e
    → (a ≡ none) × (o ≡ some e)
ahead_failed none o e h = (refl, h)
ahead_failed (some d) o e h = absurd (ground arith)

pub run-Through : (r : Regex) → RunSound (run r) r
unfolding run
run-Through empty c k e h = record { place = c; takes = nothing; rest = h }
run-Through (one_of p) c k e h = step_char-Through p c c.after k e refl h
run-Through (seq r s) c k e h =
    let t : Through r c (λ d. run s d k) e = run-Through r c (λ d. run s d k) e h in
    let u : Through s t.place k e = run-Through s t.place k e t.rest in
    record { place = u.place; takes = both t.takes u.takes; rest = u.rest }
run-Through (either r s) c k e h = elim (one_of_two (run r c k) (run s c k) e h) [
  | inl a ↦
      let t : Through r c k e = run-Through r c k e a in
      record { place = t.place; takes = left t.takes; rest = t.rest }
  | inr b ↦
      let t : Through s c k e = run-Through s c k e b in
      record { place = t.place; takes = right t.takes; rest = t.rest }
]
run-Through (star r) c k e h = repeat-Through r (run r) (run-Through r) (length c.after) c k e h
run-Through (lazy_star r) c k e h =
    let t : Through (star r) c k e =
      repeat_lazily-Through r (run r) (run-Through r) (length c.after) c k e h in
    record { place = t.place; takes = lazy t.takes; rest = t.rest }
run-Through (group n r) c k e h =
    let t : Through r c (λ d. k (close_group n c d)) e = run-Through r c _ e h in
    record { place = close_group n c t.place; takes = named t.takes refl; rest = t.rest }
run-Through at_start c k e h =
    let (t, o) = went_on (is_empty_str c.before) (k c) e h in
    record { place = c; takes = begins t; rest = o }
run-Through at_end c k e h =
    let (t, o) = went_on (is_at_end c.after) (k c) e h in
    record { place = c; takes = ends t; rest = o }
run-Through word_boundary c k e h =
    let (t, o) = went_on (differs (starts_word c.before) (starts_word c.after)) (k c) e h in
    record { place = c; takes = boundary t; rest = o }
run-Through (ahead r) c k e h =
    let (d, found, o) = ahead_ran (run r c some) (k c) e h in
    let t : Through r c some d = run-Through r c some d found in
    record { place = c; takes = sees t.takes; rest = o }
run-Through (not_ahead r) c k e h =
    let (a, o) = ahead_failed (run r c some) (k c) e h in
    record { place = c; takes = sees_not a; rest = o }

pub run-Takes : (r : Regex) (c e : Cursor) → run r c some ≡ some e → Takes r c e
run-Takes r c e h =
    let t : Through r c some e = run-Through r c some e h in
    let same : t.place ≡ e = cc (t.rest) in rw (← same) t.takes
