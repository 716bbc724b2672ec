-- ===== src/Checks/Operators/Masked.antt =====
-- That the loop of `CheckOperatorSpacing` over operator methods ends.
use core_arbiter.Prelude.{
  ℕ, zero, suc, ◌+◌, ◌-◌, ◌≤◌, ◌<◌, ◌≡◌, refl, sym, ap, ◌∙◌, false, some, [], ◌∷◌, ◌++◌, arith,
  if◌then◌else◌, length, take, drop, replicate, length-append, length-replicate, take-append-drop,
  inl, inr, Option-cases,
}
use core_arbiter.Str.{Str, codes}
use core_arbiter.Regex.{
  Regex, is_word, starts_word, Cursor, Found, slice, start_cursor, match, star, word_boundary, text,
  plus, ink, at_start, at_end, group, span_of,
}
use core_arbiter.Regex.Sound.{Takes, one, both, boundary}
use core_arbiter.Regex.Position.{Takes-Onward, split_seq, match-Takes, Takes-lacks, group-span}
use core_arbiter.Regex.Groups.{
  at_start-same, Takes-whole, drop-whole, text-before, onto, group_of-span, inside_group,
}
use core_arbiter.Checks.Operators.{
  operator_head, operator_tail, operator_call, mask, mask_operators,
}

-- How many characters are not part of a word.
blots : Str → ℕ
blots [] = 0
blots (c ∷ s) = (if is_word c then 0 else 1) + blots s

blots-append : (s t : Str) → blots (s ++ t) ≡ blots s + blots t
unfolding blots
blots-append [] t = omega arith
blots-append (c ∷ s) t = omega (arith, blots-append s t)

blots-underscores : (n : ℕ) → blots (replicate n b'_') ≡ 0
unfolding blots
blots-underscores zero = refl
blots-underscores (suc n) = omega (arith, blots-underscores n)

drop-nil : (n : ℕ) → drop {A = ℕ} n [] ≡ []
drop-nil zero = refl
drop-nil (suc n) = refl

drop-drop : (i k : ℕ) (s : Str) → drop k (drop i s) ≡ drop (i + k) s
drop-drop zero k s = ground arith
drop-drop (suc i) k [] = drop-nil k ∙ sym (drop-nil (suc i + k))
drop-drop (suc i) k (c ∷ s) =
    let e : suc i + k ≡ suc (i + k) = omega arith in
    drop-drop i k s ∙ sym (ap (λ n. drop n (c ∷ s)) e)

blots-split : (n : ℕ) (s : Str) → blots (take n s) + blots (drop n s) ≡ blots s
blots-split n s = sym (blots-append (take n s) (drop n s)) ∙ ap blots (take-append-drop n s)

length-split : (n : ℕ) (s : Str) → length (take n s) + length (drop n s) ≡ length s
length-split n s = sym (length-append (take n s) (drop n s)) ∙ ap length (take-append-drop n s)

first_blot :
    (n : ℕ) (s t : Str) (x : ℕ) → 0 < n → s ≡ x ∷ t → is_word x ≡ false → 0 < blots (take n s)
unfolding blots
first_blot zero s t x h e w = absurd (omega arith)
first_blot (suc n) s t x h e w = rw (e, w) (omega arith)

-- A text with its middle part replaced by underscores.
abbrev masked : Str → ℕ → ℕ → ℕ → Str
masked s i j k = slice s 0 i ++ replicate (length (slice s i j)) b'_' ++ slice s j k

module _ (s : Str) (i j k : ℕ) (le : i ≤ j) where
  rest : drop (j - i) (drop i s) ≡ drop j s
  rest = drop-drop i (j - i) s ∙ ap (λ n. drop n s) (omega arith)

  start : slice s 0 i ≡ take i s
  start = ap (λ n. take n s) (omega arith)

  length-masked : length (masked s i j k) ≤ length s
  length-masked = omega (
    arith,
    length-append (slice s 0 i ++ replicate (length (slice s i j)) b'_') (slice s j k),
    length-append (slice s 0 i) (replicate (length (slice s i j)) b'_'),
    length-replicate {A = ℕ} (length (slice s i j)) b'_',
    ap length start,
    length-split i s,
    length-split (j - i) (drop i s),
    ap length rest,
    length-split (k - j) (drop j s),
  )

  -- The middle part begins with a character that is no part of a word.
  blots-masked :
      (x : ℕ) (t : Str)
      → drop i s ≡ x ∷ t
      → is_word x ≡ false
      → i < j
      → blots (masked s i j k) < blots s
  blots-masked x t e w lt = omega (
    arith,
    blots-append (slice s 0 i ++ replicate (length (slice s i j)) b'_') (slice s j k),
    blots-append (slice s 0 i) (replicate (length (slice s i j)) b'_'),
    blots-underscores (length (slice s i j)),
    ap blots start,
    blots-split i s,
    blots-split (j - i) (drop i s),
    ap blots rest,
    blots-split (k - j) (drop j s),
    first_blot (j - i) (drop i s) t x (omega arith) e w,
  )

mask-masked :
    (line : Str) (m : Found) (i j k : ℕ)
    → span_of 1 m.groups ≡ some (0, i)
    → span_of 2 m.groups ≡ some (i, j)
    → span_of 3 m.groups ≡ some (j, k)
    → mask line m ≡ masked line i j k
mask-masked line m i j k e1 e2 e3 =
    rw (group_of-span line m 1 0 i e1, group_of-span line m 2 i j e2, group_of-span line m 3 j k e3)
      refl

-- After `operator` and a word boundary.
operator-boundary :
    {r : Regex} {c c1 c2 d : Cursor}
    → Takes r c c1
    → Takes (text (codes "operator")) c1 c2
    → Takes word_boundary c2 d
    → starts_word d.after ≡ false
operator-boundary {r} {c} {c1} {c2} t u (boundary k) =
    let before : c2.before ≡ b'r' ∷ onto (codes "operato") c1.before =
      text-before (codes "operator") u in
    ground arith

record Masks (line masked_line : Str) : Type 0 where
  fewer : blots masked_line < blots line
  no_longer : length masked_line ≤ length line

first_ink :
    {c d : Cursor}
    → Takes (plus ink) c d
    → (x : ℕ) × (s : Str) × (c.after ≡ x ∷ s) × (length c.before < length d.before)
first_ink t = let (e, u, v) = split_seq t in go u v
  where
    go :
        {c e d : Cursor}
        → Takes ink c e
        → Takes (star ink) e d
        → (x : ℕ) × (s : Str) × (c.after ≡ x ∷ s) × (length c.before < length d.before)
    go (one x s q k w) v = (x, s, q, ground (arith, Takes-Onward v))

-- The places of the three groups.
record Places (line : Str) (m : Found) : Type 0 where
  i : ℕ
  j : ℕ
  k : ℕ
  first : span_of 1 m.groups ≡ some (0, i)
  second : span_of 2 m.groups ≡ some (i, j)
  third : span_of 3 m.groups ≡ some (j, k)
  forward : i < j
  next : ℕ
  later : Str
  behind : drop i line ≡ next ∷ later
  blot : is_word next ≡ false

operator_call-Places : (line : Str) (m : Found) → match operator_call line ≡ some m → Places line m
operator_call-Places line m h =
    let (d, t, e) = match-Takes operator_call line m h in
    let (c1, t1, u1) = split_seq t in
    let (c2, t2, u2) = split_seq u1 in
    let (c3, t3, u3) = split_seq u2 in let (c4, t4, t5) = split_seq u3 in go e t1 t2 t3 t4 t5
  where
    go :
        {c1 c2 c3 c4 d : Cursor}
        → m.groups ≡ d.groups
        → Takes at_start (start_cursor line) c1
        → Takes (group 1 operator_head) c1 c2
        → Takes (group 2 (plus ink)) c2 c3
        → Takes (group 3 operator_tail) c3 c4
        → Takes at_end c4 d
        → Places line m
    go {c1} {c2} {c3} {c4} e t1 t2 t3 t4 t5 =
        let zero_before : length c1.before ≡ 0 = ap (λ c. length c.before) (at_start-same t1) in
        let (a, head, b1, b2) = inside_group t2 in
        let (x1, s1, s2) = split_seq head in
        let (x2, s3, s4) = split_seq s2 in
        let (x3, s5, s6) = split_seq s4 in
        let (b, inks, b3, b4) = inside_group t3 in
        let (next, later, q, lt) = first_ink inks in
        record {
          i = length c2.before;
          j = length c3.before;
          k = length c4.before;
          first =
              ap (span_of 1) e
              ∙ Takes-lacks 1 t5 refl
              ∙ Takes-lacks 1 t4 refl
              ∙ Takes-lacks 1 t3 refl
              ∙ group-span t2
              ∙ ap (λ n. some (n, length c2.before)) zero_before;
          second = ap (span_of 2) e ∙ Takes-lacks 2 t5 refl ∙ Takes-lacks 2 t4 refl ∙ group-span t3;
          third = ap (span_of 3) e ∙ Takes-lacks 3 t5 refl ∙ group-span t4;
          forward = omega (arith, lt, ap length b3);
          next = next;
          later = later;
          behind =
              ap (drop (length c2.before)) (sym (Takes-whole (both t1 t2)))
              ∙ drop-whole c2.before c2.after
              ∙ q;
          blot = ap starts_word (sym (b2 ∙ q)) ∙ operator-boundary s3 s5 s6;
        }

mask-Masks : (line : Str) (m : Found) → match operator_call line ≡ some m → Masks line (mask line m)
mask-Masks line m h =
    let p = operator_call-Places line m h in
    let e = mask-masked line m p.i p.j p.k p.first p.second p.third in
    let le : p.i ≤ p.j = omega (arith, p.forward) in
    rw e (record {
      fewer = blots-masked line p.i p.j p.k le p.next p.later p.behind p.blot p.forward;
      no_longer = length-masked line p.i p.j p.k le;
    })

-- On enough fuel the loop returns, with a line that is no longer.
mask_operators-Given :
    (fuel : ℕ) (line : Str)
    → blots line < fuel
    → (r : Str) × (mask_operators fuel line ≡ some r) × (length r ≤ length line)
unfolding mask_operators
mask_operators-Given zero line h = absurd (omega arith)
mask_operators-Given (suc fuel) line h = elim (Option-cases (match operator_call line)) [
  | inl e ↦ (line, rw e refl, omega arith)
  | inr (m, e) ↦
      let s = mask-Masks line m e in
      let (r, q, le) = mask_operators-Given fuel (mask line m) (omega (arith, s.fewer)) in
      (r, rw e q, omega (arith, s.no_longer))
]

blots-le : (s : Str) → blots s ≤ length s
unfolding blots
blots-le [] = omega arith
blots-le (c ∷ s) = ground (arith, blots-le s)

-- The loop of CheckOperatorSpacing over the names of operator methods ends on every line, with a line
-- that is no longer.
pub mask_operators-returns :
    (line : Str)
    → (r : Str) × (mask_operators (length line + 1) line ≡ some r) × (length r ≤ length line)
mask_operators-returns line =
    mask_operators-Given (length line + 1) line (omega (arith, blots-le line))
