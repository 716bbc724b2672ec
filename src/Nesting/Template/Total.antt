-- ===== src/Nesting/Template/Total.antt =====
-- `InTemplateArgumentList`: the end of its loop.

use native.Mathlib.Numerals.{add-one}
use core_arbiter.Prelude.{
  ℕ, zero, suc, ◌+◌, ◌-◌, ◌≤◌, ◌<◌, ◌≡◌, refl, Option, none, some, List, [], ◌∷◌, arith, leb, ◌==◌,
  length, get_elem?, drop, if_cases,
}
use core_arbiter.Str.{Str, codes, char_in}
use core_arbiter.Regex.{Found, group_text, match}
use core_arbiter.Brackets.Forward.{Place}
use core_arbiter.Brackets.Forward.Later.{
  Later, gave_up, same_line, later_line, close_expression-Later,
}
use core_arbiter.Nesting.Template.{
  first_token, Scan, scan_on, answer, fault, past_template, at_token, token_of, at_match,
  scan_round, size,
}
use core_arbiter.Regex.Position.{split_seq}
use core_arbiter.Prelude.{ap, Bool, length-drop}
use core_arbiter.Regex.{span_of}
use core_arbiter.Nesting.Template.{scan_from}
use core_arbiter.Prelude.Fallible.{Returns}
use core_arbiter.Regex.Position.{Takes-Onward, group-span, group_forward, match-stop, slice_one}
use core_arbiter.Prelude.{inl, inr, Option-cases}
use core_arbiter.Nesting.Template.{in_template_argument_list}
use core_arbiter.Prelude.{◌∙◌, leb→le, Bool-cases}
use core_arbiter.Prelude.Fallible.{Returns-some}
use core_arbiter.Regex.Position.{group_text-span}

-- What is left of the lines from a line and a position on.
abbrev left_from : List Str → ℕ → ℕ → ℕ
left_from elided linenum pos = size (drop linenum elided) - pos

size-drop-suc :
    (elided : List Str) (linenum : ℕ) (line : Str)
    → get_elem? elided linenum ≡ some line
    → size (drop linenum elided) ≡ length line + 1 + size (drop (suc linenum) elided)
size-drop-suc [] n line h = absurd (ground arith)
size-drop-suc (l ∷ ls) zero line h = ground arith
size-drop-suc (l ∷ ls) (suc n) line h = size-drop-suc ls n line h

size-drop : (elided : List Str) (n : ℕ) → size (drop n elided) ≤ size elided
size-drop elided zero = omega arith
size-drop [] (suc n) = omega arith
size-drop (l ∷ ls) (suc n) = omega (arith, size-drop ls n)

size-drop-drop : (elided : List Str) (m n : ℕ) → m ≤ n → size (drop n elided) ≤ size (drop m elided)
size-drop-drop elided zero n h = size-drop elided n
size-drop-drop elided (suc m) zero h = absurd (omega arith)
size-drop-drop [] (suc m) (suc n) h = omega arith
size-drop-drop (l ∷ ls) (suc m) (suc n) h = size-drop-drop ls m n (omega arith)

abbrev InLine : List Str → ℕ → ℕ → Type 0
InLine elided linenum pos = (line : Str) → get_elem? elided linenum ≡ some line → pos ≤ length line

-- A round returns, or goes on with less left.
abbrev Advances : List Str → ℕ → ℕ → Scan → Type 0
Advances elided linenum pos (scan_on l p) =
    InLine elided l p × (left_from elided l p < left_from elided linenum pos)
Advances elided linenum pos (answer b) = Unit
Advances elided linenum pos fault = ⊥

module _ (elided : List Str) (linenum : ℕ) (line : Str) (pos : ℕ)
    (here : get_elem? elided linenum ≡ some line) (within : pos ≤ length line) where
  next_line : Advances elided linenum pos (scan_on (suc linenum) 0)
  next_line = (λ l e. omega arith, omega (arith, size-drop-suc elided linenum line here))

  next_line' : Advances elided linenum pos (scan_on (linenum + 1) 0)
  next_line' = let e : linenum + 1 ≡ suc linenum = omega arith in rw e next_line

  same_line_on :
      (p : ℕ) → pos < p → p ≤ length line → Advances elided linenum pos (scan_on linenum p)
  same_line_on p lt le = (
    λ l e. let q : line ≡ l = ground (arith, here, e) in rw (← q) le,
    omega (arith, size-drop-suc elided linenum line here),
  )

  past_template-Advances :
      (at : ℕ) (q : Place)
      → pos ≤ at
      → Later elided linenum at line q
      → Advances elided linenum pos (past_template (some q))
  past_template-Advances at q le (gave_up e) = rw e tt
  past_template-Advances at q le (same_line p e same lt le') =
      rw (e, same) (same_line_on p (omega arith) le')
  past_template-Advances at q le (later_line p l e lt g le') = rw e (
    λ l' e'. let s : l ≡ l' = ground (arith, g, e') in rw (← s) le',
    omega (
      arith,
      size-drop-suc elided linenum line here,
      size-drop-drop elided (suc linenum) q.linenum (omega arith),
    ),
  )

  at_token-Advances :
      (token p : ℕ)
      → pos < p
      → p ≤ length line
      → Advances elided linenum pos (at_token elided linenum line token p)
  unfolding at_token
  at_token-Advances token p lt le =
      if_cases (Advances elided linenum pos) (char_in token (codes "{};")) _ _ (λ _. tt)
        λ _.
          if_cases (Advances elided linenum pos) (char_in token (codes ">=[].")) _ _ (λ _. tt)
            λ _.
              if_cases (Advances elided linenum pos) (token == b'<') _ _
                (λ _.
                  let (q, e, l) =
                    close_expression-Later elided linenum (p - 1) line here (omega arith) in
                  rw e (past_template-Advances (p - 1) q (omega arith) l))
                λ _.
                  if_cases (Advances elided linenum pos) (leb (length line) (p + 1)) _ _
                    (λ _. next_line') λ h. same_line_on (p + 1) (omega arith) (ground arith)

  at_match-Advances :
      (m : Found) (o : Option Str) (token : ℕ)
      → o ≡ some (token ∷ [])
      → Advances elided linenum pos (at_token elided linenum line token (pos + m.stop))
      → Advances elided linenum pos (at_match elided linenum line pos m (token_of o))
  at_match-Advances m o token e h = rw e h

  scan_round-Advances : Advances elided linenum pos (scan_round elided linenum line pos)
  unfolding scan_round
  scan_round-Advances = go (match first_token (drop pos line)) refl
    where
      go :
          (o : Option Found)
          → match first_token (drop pos line) ≡ o
          → Advances elided linenum pos (elim o [
            | none ↦ scan_on (linenum + 1) 0
            | some m ↦
                at_match elided linenum line pos m (token_of (group_text (drop pos line) m 1))
          ])
      go none e = next_line'
      go (some m) e =
          let (d, takes, same, stops) = match-stop first_token (drop pos line) m e in
          let (c0, t0, u0) = split_seq takes in
          let (c1, t1, u1) = split_seq u0 in
          let one : length d.before ≡ suc (length c1.before) = group_forward u1 in
          let on : length d.before ≤ length (drop pos line) = omega (arith, Takes-Onward takes) in
          let size_left : length (drop pos line) ≡ length line - pos = length-drop pos line in
          let (c, sl) = slice_one (drop pos line) (length c1.before) (omega arith) in
          let span : span_of 1 m.groups ≡ some (length c1.before, suc (length c1.before)) =
            ap (span_of 1) same ∙ group-span u1 ∙ ap (λ n. some (length c1.before, n)) one in
          let text : group_text (drop pos line) m 1 ≡ some (c ∷ []) =
            group_text-span (drop pos line) m 1 (length c1.before) (suc (length c1.before)) span
            ∙ ap some sl in
          at_match-Advances m _ c text
            (at_token-Advances c (pos + m.stop) (omega arith) (omega arith))

abbrev IsReturned : Option Bool → Type 0
IsReturned = Returns (λ b. Unit {0})

module _ (fuel : ℕ) (elided : List Str) (linenum pos : ℕ)
    (lt : left_from elided linenum pos < suc fuel)
    (later : (l p : ℕ)
      → InLine elided l p
      → left_from elided l p < fuel
      → IsReturned (scan_from fuel elided l p)) where
  after_round :
      (r : Scan)
      → Advances elided linenum pos r
      → IsReturned
          (elim r [ scan_on l p ↦ scan_from fuel elided l p | answer b ↦ some b | fault ↦ none ])
  after_round (scan_on l p) (h, less) = later l p h (omega arith)
  after_round (answer b) h = tt
  after_round fault h = h

-- Enough fuel: more than is left.
scan_from-Returns :
    (fuel : ℕ) (elided : List Str) (linenum pos : ℕ)
    → InLine elided linenum pos
    → left_from elided linenum pos < fuel
    → IsReturned (scan_from fuel elided linenum pos)
unfolding scan_from
scan_from-Returns zero elided linenum pos h lt = absurd (omega arith)
scan_from-Returns (suc fuel) elided linenum pos h lt =
    elim (Option-cases (get_elem? elided linenum)) [
      | inl e ↦ rw (e, scan_from) tt
      | inr (line, e) ↦
          rw (e, scan_from)
            (after_round fuel elided linenum pos lt
              (λ l p a b. scan_from-Returns fuel elided l p a b)
              (scan_round elided linenum line pos)
              (scan_round-Advances elided linenum line pos e (h line e)))
    ]

drop_all : (s : Str) (n : ℕ) → length s ≤ n → drop n s ≡ []
drop_all [] zero h = refl
drop_all [] (suc n) h = refl
drop_all (c ∷ s) zero h = absurd (omega arith)
drop_all (c ∷ s) (suc n) h = drop_all s n (omega arith)

behind_line :
    (elided : List Str) (linenum : ℕ) (line : Str) (pos : ℕ)
    → length line ≤ pos
    → scan_round elided linenum line pos ≡ scan_on (linenum + 1) 0
unfolding scan_round match
behind_line elided linenum line pos h = rw (drop_all line pos h, scan_round)

enough :
    (elided : List Str) (linenum pos : ℕ)
    → IsReturned (scan_from (suc (size elided)) elided linenum pos)
unfolding scan_from
enough elided linenum pos = elim (Option-cases (get_elem? elided linenum)) [
  | inl e ↦ rw (e, scan_from) tt
  | inr (line, e) ↦ elim (Bool-cases (leb pos (length line))) [
    | inl le ↦
        scan_from-Returns (suc (size elided)) elided linenum pos
          (λ l f. let same : line ≡ l = ground (arith, e, f) in rw (← same) (leb→le _ _ le))
          (omega (arith, size-drop elided linenum))
    | inr gt ↦
        rw (e, behind_line elided linenum line pos (ground arith), scan_from)
          (scan_from-Returns (size elided) elided (linenum + 1) 0 (λ l f. omega arith)
            (let n : linenum + 1 ≡ suc linenum = omega arith in
              rw n (omega (arith, size-drop-suc elided linenum line e, size-drop elided linenum))))
  ]
]

-- At every line number and position `InTemplateArgumentList` returns.
pub in_template_argument_list-Returns :
    (elided : List Str) (linenum pos : ℕ)
    → (b : Bool) × (in_template_argument_list elided linenum pos ≡ some b)
unfolding in_template_argument_list
in_template_argument_list-Returns elided linenum pos =
    let (b, e, u) =
      Returns-some (λ (b : Bool). Unit {0}) (scan_from (suc (size elided)) elided linenum pos)
        (enough elided linenum pos) in
    (b, rw (add-one (size elided)) e)
