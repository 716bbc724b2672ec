-- ===== src/Checks/Semicolons/Total.antt =====
-- That `CheckTrailingSemicolon` returns.
use core_arbiter.Prelude.{
  ℕ, zero, suc, ◌-◌, ◌≤◌, ◌<◌, ◌≡◌, refl, sym, ap, ◌∙◌, Bool, true, false, Option, none, some, List,
  [], ◌∷◌, arith, inl, inr, Option-cases, Bool-cases, ltb, ◌==◌, if◌then◌else◌, not, ◌&&◌, is_empty,
  length, take, drop, get_elem?, get_elem?-lt, get_elem?-some,
}
use core_arbiter.Prelude.Fallible.{Given, Given-bind, Given-if}
use core_arbiter.Str.{Str, codes, rfind_char}
use core_arbiter.Regex.{
  Regex, Found, Cursor, star, any_char, char, space, ◌⨾◌, either, text, group, at_start, span_of,
  match, matches, is_found,
}
use core_arbiter.Regex.Sound.{Takes, one, both}
use core_arbiter.Regex.Position.{
  split_seq, Takes-Onward, Takes-lacks, group-span, match-Takes, one_forward,
}
use core_arbiter.Regex.Groups.{
  at_start-same, Takes-whole, drop-whole, inside_group, group_of-span, match-group_char,
}
use core_arbiter.Brackets.Forward.{Place}
use core_arbiter.Brackets.Forward.Bounds.{Ends}
use core_arbiter.Brackets.Backward.Bounds.{Begins}
use core_arbiter.Cleanse.Lines.{CleansedLines}
use core_arbiter.Nolint.{Suppressions}
use core_arbiter.Checks.Aligned.{Aligned}
use core_arbiter.Checks.Spacing.{group_of}
use core_arbiter.Checks.Braces.Total.{previous_text-Given}
use core_arbiter.Checks.Operators.Total.{close_expression-Given, reverse_close_expression-Given}
use core_arbiter.Checks.Semicolons.{
  after_parenthesis, exempt_at, after_capture, parenthesis_case, after_else_or_const,
  ends_block_or_statement, leading_brace, group_length, other_cases, block_start, semicolon_first,
  redundant_semicolon, semicolon_reports, check_trailing_semicolon,
}

rfind_char-lt : (c : ℕ) (s : Str) (k : ℕ) → rfind_char c s ≡ some k → k < length s
unfolding rfind_char
rfind_char-lt c [] k h = absurd (ground arith)
rfind_char-lt c (d ∷ s) k h = elim (Option-cases (rfind_char c s)) [
  | inl e ↦ ground arith
  | inr (n, e) ↦ ground (arith, rfind_char-lt c s n e)
]

rfind_char-Given : (c : ℕ) (s : Str) (n : ℕ) → get_elem? s n ≡ some c → Given (rfind_char c s)
unfolding rfind_char
rfind_char-Given c [] n h = absurd (ground arith)
rfind_char-Given c (d ∷ s) (suc n) h = let (k, e) = rfind_char-Given c s n h in rw e (suc k, refl)
rfind_char-Given c (d ∷ s) zero h = elim (Option-cases (rfind_char c s)) [
  | inl e ↦ rw e (0, ground arith)
  | inr (k, e) ↦ rw e (suc k, refl)
]

get_elem?-take-drop :
    (s t : Str) (i j x : ℕ) → drop i s ≡ x ∷ t → i < j → get_elem? (take j s) i ≡ some x
get_elem?-take-drop s t i zero x e lt = absurd (omega arith)
get_elem?-take-drop [] t zero (suc j) x e lt = cc
get_elem?-take-drop [] t (suc i) (suc j) x e lt = cc
get_elem?-take-drop (y ∷ s) t zero (suc j) x e lt = ground arith
get_elem?-take-drop (y ∷ s) t (suc i) (suc j) x e lt = get_elem?-take-drop s t i j x e (omega arith)

parenthesis_after : {c d : Cursor} → Takes (char b')') c d → (rest : Str) × (c.after ≡ b')' ∷ rest)
parenthesis_after (one x s q t e) = (s, ground arith)

parenthesis_forward :
    {c d : Cursor} → Takes (char b')') c d → length d.before ≡ suc (length c.before)
parenthesis_forward t = one_forward t

-- The group of case 1 holds a closing parenthesis.
group-parenthesis :
    (line : Str) (m : Found)
    → match after_parenthesis line ≡ some m
    → (n : ℕ) × (get_elem? (group_of line m 1) n ≡ some b')')
group-parenthesis line m h =
    let (d, t, e) = match-Takes after_parenthesis line m h in
    let (c1, t1, u1) = split_seq t in
    let (c2, t2, u2) = split_seq u1 in
    let (a, head, b1, b2) = inside_group t2 in
    let (x1, s1, s2) = split_seq head in
    let (x2, s3, s4) = split_seq s2 in
    let i = length x1.before in
    let j = length c2.before in
    let zero_before : length c1.before ≡ 0 = ap (λ c. length c.before) (at_start-same t1) in
    let span : span_of 1 m.groups ≡ some (0, j) =
      ap (span_of 1) e
      ∙ Takes-lacks 1 u2 refl
      ∙ group-span t2
      ∙ ap (λ n. some (n, j)) zero_before in
    let text_is : group_of line m 1 ≡ take j line =
      group_of-span line m 1 0 j span ∙ ap (λ n. take n line) (omega arith) in
    let (rest, after) = parenthesis_after s3 in
    let behind : drop i line ≡ b')' ∷ rest =
      ap (drop i) (sym (Takes-whole (both t1 s1))) ∙ drop-whole x1.before x1.after ∙ after in
    (
      i,
      ap (λ s. get_elem? s i) text_is
          ∙ get_elem?-take-drop line rest i j b')' behind
              (omega (arith, Takes-Onward s4, parenthesis_forward s3, ap length b1)),
    )

-- Where a brace may stand.
abbrev Short : Str → Option ℕ → Type 0
Short line o = (n : ℕ) → o ≡ some n → n < length line

abbrev GivenShort : Str → Option (Option ℕ) → Type 0
GivenShort line m = (o : Option ℕ) × (m ≡ some o) × Short line o

module _ (elided : List Str) (linenum : ℕ) (line : Str) (at : get_elem? elided linenum ≡ some line)
    (lt : linenum < length elided) where
  after_capture-Given : (n : ℕ) → n ≤ linenum → Given (after_capture elided n)
  unfolding after_capture
  after_capture-Given n le =
      Given-if (ltb 1 n) _ _
        (λ t.
          Given-bind _ _ (get_elem?-some elided (n - 1) (omega (arith, lt, le))) (λ l _. (_, refl)))
        (λ _. (_, refl))

  opening_linenum : {q : Place} → Begins elided linenum q → q.linenum ≤ linenum
  opening_linenum (Begins.not_found p e) = omega arith
  opening_linenum (Begins.found p e le k b) = le

  kept-Short : (b : Bool) (n : ℕ) → n < length line → Short line (if b then none else some n)
  kept-Short true n h k e = absurd (ground arith)
  kept-Short false n h k e = ground arith

  nothing-Short : Short line none
  nothing-Short k e = absurd (ground arith)

  parenthesis_case-GivenShort :
      (m : Found)
      → match after_parenthesis line ≡ some m
      → GivenShort line (parenthesis_case elided linenum (group_of line m 1))
  unfolding parenthesis_case
  parenthesis_case-GivenShort m h =
      let head = group_of line m 1 in
      let head_lt : length head < length line =
        match-group_char (star any_char ⨾ char b')' ⨾ star space) (λ d. b'{' == d) line m h in
      let (n, holds) = group-parenthesis line m h in
      let (p, e) = rfind_char-Given b')' head n holds in
      let (q, f, begins) =
        reverse_close_expression-Given elided linenum line at p
          (omega (arith, rfind_char-lt b')' head p e, head_lt)) in
      elim (Bool-cases (exempt_at q)) [
        | inl x ↦ rw (e, f, x, parenthesis_case) (none, refl, nothing-Short)
        | inr x ↦
            let (capture, g) = after_capture-Given q.linenum (opening_linenum begins) in
            rw (e, f, x, g, parenthesis_case) (_, refl, kept-Short capture (length head) head_lt)
      ]

  group_length-Short :
      (r : Regex) → Short line (group_length (at_start ⨾ group 1 r ⨾ char b'{') line)
  group_length-Short r n h = elim (Option-cases (match (at_start ⨾ group 1 r ⨾ char b'{') line)) [
    | inl e ↦ absurd (ground (arith, rw (e, group_length) at h))
    | inr (m, e) ↦
        let lt = match-group_char r (λ d. b'{' == d) line m e in
        let same : some (length (group_of line m 1)) ≡ some n = rw (e, group_length) at h in
        ground (arith, lt)
  ]

  kept_if-Short : (b : Bool) (o : Option ℕ) → Short line o → Short line (if b then o else none)
  kept_if-Short true o h = h
  kept_if-Short false o h = nothing-Short

  other_cases-GivenShort : GivenShort line (other_cases elided linenum line)
  unfolding other_cases
  other_cases-GivenShort =
      let short_else = group_length-Short (
        star any_char
        ⨾ either (text (codes "else")) (char b')' ⨾ star space ⨾ text (codes "const"))
        ⨾ star space) in
      elim (Option-cases (group_length after_else_or_const line)) [
        | inr (n, e) ↦ rw (e, other_cases) (some n, refl, λ k q. short_else k (e ∙ q))
        | inl e ↦
            let (prev, f) = previous_text-Given elided linenum (omega (arith, lt)) in
            rw (e, f, other_cases)
              (
                _,
                refl,
                kept_if-Short (not (is_empty prev) && is_found ends_block_or_statement prev)
                    (group_length leading_brace line) (group_length-Short (star space)),
              )
      ]

  block_start-GivenShort : GivenShort line (block_start elided linenum line)
  unfolding block_start
  block_start-GivenShort = elim (Option-cases (match after_parenthesis line)) [
    | inl e ↦ rw (e, block_start) other_cases-GivenShort
    | inr (m, e) ↦ rw (e, block_start) (parenthesis_case-GivenShort m e)
  ]

  -- A semicolon is found on the line or a later one.
  abbrev Later : Option ℕ → Type 0
  Later o = (k : ℕ) → o ≡ some k → (linenum ≤ k) × (k < length elided)

  nothing-Later : Later none
  nothing-Later k e = absurd (ground arith)

  redundant_semicolon-Later :
      (o : Option ℕ)
      → Short line o
      → (r : Option ℕ) × (redundant_semicolon elided linenum o ≡ some r) × Later r
  unfolding redundant_semicolon
  redundant_semicolon-Later none h = (none, refl, nothing-Later)
  redundant_semicolon-Later (some start) h =
      let (q, e, ends) = close_expression-Given elided linenum line at start (h start refl) in
      rw e (go q ends)
    where
      kept :
          (b : Bool) (n : ℕ) → linenum ≤ n → n < length elided → Later (if b then some n else none)
      kept true n le l k e = ground arith
      kept false n le l k e = absurd (ground arith)

      go :
          (q : Place)
          → Ends elided linenum q
          → (r : Option ℕ) × ((some (elim q.pos [
            | none ↦ none
            | some endpos ↦
                if matches semicolon_first (drop endpos q.line) then some q.linenum else none
          ]))
              ≡ some r)
            × Later r
      go q (Ends.not_found p e) = rw p (none, refl, nothing-Later)
      go q (Ends.found p e le k b) = rw e (
        _,
        refl,
        kept (matches semicolon_first (drop p q.line)) q.linenum le
            (get_elem?-lt elided q.linenum k),
      )

-- On every line but the first CheckTrailingSemicolon returns.
pub check_trailing_semicolon-Given :
    (filename : Str) (c : CleansedLines) (linenum : ℕ) (sup : Suppressions)
    → Aligned c linenum
    → 0 < linenum
    → Given (check_trailing_semicolon filename c linenum sup)
unfolding check_trailing_semicolon
check_trailing_semicolon-Given filename c linenum sup a pos =
    let lt : linenum < length c.elided = omega (arith, a.elided, a.within) in
    let (line, at) = get_elem?-some c.elided linenum lt in
    let (start, e, short) = block_start-GivenShort c.elided linenum line at lt in
    let (semicolon, f, later) = redundant_semicolon-Later c.elided linenum line at lt start short in
    rw (at, e, f) (told semicolon later)
  where
    told :
        (o : Option ℕ)
        → ((k : ℕ) → o ≡ some k → (linenum ≤ k) × (k < length c.elided))
        → Given (semicolon_reports filename c.raw_lines o sup)
    told none h = (_, refl)
    told (some zero) h = absurd (omega (arith, pos, (h 0 refl).0))
    told (some (suc k)) h =
        let l = (h (suc k) refl).1 in
        let (before, e) = get_elem?-some c.raw_lines k (omega (arith, l, a.elided, a.raw_lines)) in
        let (line, f) =
          get_elem?-some c.raw_lines (suc k) (omega (arith, l, a.elided, a.raw_lines)) in
        rw (e, f) (_, refl)
