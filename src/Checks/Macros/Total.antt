-- ===== src/Checks/Macros/Total.antt =====
-- That `CheckCheck` returns.
use core_arbiter.Prelude.{
  ℕ, zero, suc, ◌-◌, ◌≤◌, ◌<◌, ◌≡◌, refl, ap, ◌∙◌, Bool, true, not, Option, none, some, List, [],
  ◌∷◌, ◌++◌, arith, inl, inr, Option-cases, if_cases, ◌==◌, length, take, drop, get_elem?, all,
  length-take-le, length-drop, is_empty, if◌then◌else◌,
}
use core_arbiter.Prelude.Fallible.{Given, Given-bind, Given-if}
use core_arbiter.Prelude.{Bool-cases, ◌⊎◌}
use core_arbiter.Prelude.Fallible.{◌>>=◌}
use core_arbiter.Report.{Report}
use core_arbiter.Checks.Macros.{expression_text, replacement_reports}
use core_arbiter.Str.{Str, codes, ◌=s◌, is_in, contains}
use core_arbiter.Regex.{
  Regex, Found, Cursor, text, one_text, plus, star, space, any_char, word_boundary, ◌⨾◌, group,
  at_end, start_cursor, span_of, match, matches,
}
use core_arbiter.Regex.Sound.{Takes, both, left, right}
use core_arbiter.Regex.Position.{
  Onward, Takes-Onward, one_forward, split_seq, Takes-lacks, group-span, match-Takes,
}
use core_arbiter.Regex.Groups.{inside_group, group_of-span, match-group_char}
use core_arbiter.Brackets.Forward.{Place, EndResult, find_end_of_expression_in_line}
use core_arbiter.Checks.Spacing.{group_of}
use core_arbiter.Checks.Operators.Total.{close_expression-Given}
use core_arbiter.Checks.Macros.{
  macro_call, find_macro_in, find_check_macro, next_operator, plain_operand, one_operand_char,
  OperandRound, give_up, go_on, found_operator, no_operator, parenthesized, after_token,
  plain_round, operand_round, parse_operands, semicolon_next, check_macro_call, check_check,
  Operands, check_macros, operator_tokens,
}

text-forward :
    (x : ℕ) (s : Str) {c d : Cursor} → Takes (text (x ∷ s)) c d → length c.before < length d.before
text-forward x s (both t u) = omega (arith, one_forward t, Takes-Onward u)

-- One of texts that are not empty.
one_text-forward :
    (ss : List Str) {c d : Cursor}
    → all (λ s. not (is_empty s)) ss ≡ true
    → Takes (one_text ss) c d
    → length c.before < length d.before
one_text-forward [] h t = omega (arith, one_forward t)
one_text-forward ([] ∷ ss) h t = absurd (cc)
one_text-forward ((x ∷ s) ∷ []) h t = text-forward x s t
one_text-forward ((x ∷ s) ∷ u ∷ us) h (left t) = text-forward x s t
one_text-forward ((x ∷ s) ∷ u ∷ us) h (right t) = one_text-forward (u ∷ us) h t

plus-forward :
    {p : ℕ → Bool} {c d : Cursor}
    → Takes (plus (Regex.one_of p)) c d
    → length c.before < length d.before
plus-forward (both t u) = omega (arith, one_forward t, Takes-Onward u)

-- The group 2 behind a group 1 that is not empty is shorter than the text.
second_shorter :
    {r1 r2 : Regex} (s : Str) (m : Found) {c1 c2 c3 d : Cursor}
    → m.groups ≡ d.groups
    → Onward (start_cursor s) c1
    → length c1.before < length c2.before
    → Takes (group 1 r1) c1 c2
    → Takes (group 2 r2) c2 c3
    → Takes at_end c3 d
    → length (group_of s m 2) < length s
second_shorter s m {c1} {c2} {c3} {d} e o lt t1 t2 t3 =
    let span : span_of 2 m.groups ≡ some (length c2.before, length c3.before) =
      ap (span_of 2) e ∙ Takes-lacks 2 t3 refl ∙ group-span t2 in
    let text_is = group_of-span s m 2 (length c2.before) (length c3.before) span in
    omega (
      arith,
      ap length text_is,
      length-take-le (length c3.before - length c2.before) (drop (length c2.before) s),
      length-drop (length c2.before) s,
      o.same_text,
      (Takes-Onward t1).same_text,
      (Takes-Onward t2).same_text,
    )

next_operator-shorter :
    (s : Str) (m : Found) → match next_operator s ≡ some m → length (group_of s m 2) < length s
next_operator-shorter s m h =
    let (d, t, e) = match-Takes next_operator s m h in
    let (c0, t0, u0) = split_seq t in
    let (c1, t1, u1) = split_seq u0 in
    let (c2, t2, u2) = split_seq u1 in
    let (c3, t3, t4) = split_seq u2 in
    let (a, inner, b1, b2) = inside_group t2 in
    second_shorter s m e (Takes-Onward (both t0 t1))
      (omega (arith, one_text-forward operator_tokens refl inner, ap length b1)) t2 t3 t4

plain_operand-shorter :
    (s : Str) (m : Found) → match plain_operand s ≡ some m → length (group_of s m 2) < length s
plain_operand-shorter s m h =
    let (d, t, e) = match-Takes plain_operand s m h in
    let (c1, t1, u1) = split_seq t in
    let (c2, t2, u2) = split_seq u1 in
    let (c3, t3, t4) = split_seq u2 in
    let (a, inner, b1, b2) = inside_group t2 in
    second_shorter s m e (Takes-Onward t1) (omega (arith, plus-forward inner, ap length b1)) t2 t3
      t4

one_operand_char-shorter :
    (s : Str) (m : Found) → match one_operand_char s ≡ some m → length (group_of s m 2) < length s
one_operand_char-shorter s m h =
    let (d, t, e) = match-Takes one_operand_char s m h in
    let (c1, t1, u1) = split_seq t in
    let (c2, t2, u2) = split_seq u1 in
    let (c3, t3, t4) = split_seq u2 in
    let (a, inner, b1, b2) = inside_group t2 in
    let (x, spaces, last) = split_seq inner in
    second_shorter s m e (Takes-Onward t1)
      (omega (arith, one_forward last, Takes-Onward spaces, ap length b1)) t2 t3 t4

-- A round that goes on leaves less of the expression.
abbrev Shrinks : Str → OperandRound → Type 0
Shrinks s (go_on lhs rest) = length rest < length s
Shrinks s _ = Unit

parenthesized-Shrinks :
    (s lhs rest : Str) → length rest < length s → Shrinks s (parenthesized lhs rest)
unfolding parenthesized
parenthesized-Shrinks s lhs rest h = go (find_end_of_expression_in_line rest 0 (codes "("))
  where
    go :
        (r : EndResult)
        → Shrinks s (elim r [
          | EndResult.closed end ↦ go_on (lhs ++ b'(' ∷ take end rest) (drop end rest)
          | _ ↦ give_up
        ])
    go (EndResult.closed end) = omega (arith, length-drop end rest)
    go EndResult.unbalanced = tt
    go (EndResult.still_open stack) = tt

after_token-Shrinks :
    (s lhs token rest : Str) → length rest < length s → Shrinks s (after_token lhs token rest)
after_token-Shrinks s lhs token rest h =
    if_cases (Shrinks s) (token =s codes "(") _ _ (λ _. parenthesized-Shrinks s lhs rest h)
      λ _.
        if_cases (Shrinks s) (is_in token (codes "&&" ∷ codes "||" ∷ [])) _ _ (λ _. tt)
          λ _.
            if_cases (Shrinks s)
              (is_in token (
                codes "<<"
                ∷ codes "<<="
                ∷ codes ">>"
                ∷ codes ">>="
                ∷ codes "->*"
                ∷ codes "->"
                ∷ []))
              _ _ (λ _. h) (λ _. tt)

plain_round-Shrinks : (lhs s : Str) → Shrinks s (plain_round lhs s)
unfolding plain_round
plain_round-Shrinks lhs s = elim (Option-cases (match plain_operand s)) [
  | inr (m, e) ↦ rw (e, plain_round) (plain_operand-shorter s m e)
  | inl e ↦ elim (Option-cases (match one_operand_char s)) [
    | inr (m, f) ↦ rw (e, f, plain_round) (one_operand_char-shorter s m f)
    | inl f ↦ rw (e, f, plain_round) tt
  ]
]

operand_round-Shrinks : (lhs s : Str) → Shrinks s (operand_round lhs s)
unfolding operand_round
operand_round-Shrinks lhs s = elim (Option-cases (match next_operator s)) [
  | inr (m, e) ↦
      rw (e, operand_round)
        (after_token-Shrinks s lhs (group_of s m 1) (group_of s m 2) (next_operator-shorter s m e))
  | inl e ↦ rw (e, operand_round) (plain_round-Shrinks lhs s)
]

-- The loop of CheckCheck over the operands ends on every expression, in at most as many rounds as it
-- has characters.
pub parse_operands-Given :
    (fuel : ℕ) (lhs s : Str) → length s ≤ fuel → Given (parse_operands fuel lhs s)
unfolding parse_operands
parse_operands-Given fuel lhs [] h = (_, refl)
parse_operands-Given zero lhs (c ∷ s) h = absurd (omega arith)
parse_operands-Given (suc fuel) lhs (c ∷ s) h =
    go (λ lhs' rest lt. parse_operands-Given fuel lhs' rest (omega (arith, h, lt)))
      (operand_round lhs (c ∷ s)) (operand_round-Shrinks lhs (c ∷ s))
  where
    go :
        ((lhs' rest : Str) → length rest < length (c ∷ s) → Given (parse_operands fuel lhs' rest))
        → (r : OperandRound) → Shrinks (c ∷ s) r
        → Given {A = Operands} (elim r [
          | give_up ↦ some Operands.none_replaceable
          | go_on lhs' rest ↦ parse_operands fuel lhs' rest
          | found_operator lhs' operator rhs ↦ some (Operands.operands lhs' operator rhs)
          | no_operator lhs' ↦ some (Operands.operands lhs' [] [])
        ])
    go ih give_up k = (_, refl)
    go ih (go_on lhs' rest) k = ih lhs' rest k
    go ih (found_operator lhs' operator rhs) k = (_, refl)
    go ih (no_operator lhs') k = (_, refl)

find_macro_in-lt-length :
    (line : Str) (macros : List Str) (macro : Str) (n : ℕ)
    → find_macro_in line macros ≡ some (macro, n)
    → n < length line
unfolding find_macro_in
find_macro_in-lt-length line [] macro n h = absurd (ground arith)
find_macro_in-lt-length line (k ∷ macros) macro n h = elim (Bool-cases (contains line k)) [
  | inl t ↦ elim (Option-cases (match (macro_call k) line)) [
    | inl e ↦ find_macro_in-lt-length line macros macro n (rw (t, e, find_macro_in) at h)
    | inr (m, e) ↦
        let same : some (k, length (group_of line m 1)) ≡ some (macro, n) =
          rw (t, e, find_macro_in) at h in
        let lt =
          match-group_char (star any_char ⨾ word_boundary ⨾ text k ⨾ star space) (λ d. b'(' == d)
            line m e in
        ground (arith, same, lt)
  ]
  | inr f ↦ find_macro_in-lt-length line macros macro n (rw (f, find_macro_in) at h)
]

find_check_macro-lt-length :
    (line macro : Str) (n : ℕ) → find_check_macro line ≡ some (macro, n) → n < length line
unfolding find_check_macro
find_check_macro-lt-length line = find_macro_in-lt-length line check_macros

module _ (elided : List Str) (linenum : ℕ) (line : Str)
    (at : get_elem? elided linenum ≡ some line) where
  check_macro_call-Given :
      (filename macro : Str) (n : ℕ)
      → n < length line
      → Given (check_macro_call filename elided linenum line (macro, n))
  unfolding check_macro_call
  check_macro_call-Given filename macro n lt =
      Given-bind _ _
        (let (q, e, ends) = close_expression-Given elided linenum line at n lt in (q, e))
        λ q _. closed q (Option-cases q.pos)
    where
      closed :
          (q : Place)
          → (q.pos ≡ none) ⊎ ((p : ℕ) × (q.pos ≡ some p))
          → Given {A = List Report} (elim q.pos [
            | none ↦ some []
            | some end_pos ↦
                if not (matches semicolon_next (drop end_pos q.line))
                then some []
                else (parse_operands
                      (length (expression_text elided linenum line n q.line q.linenum end_pos))
                      []
                      (expression_text elided linenum line n q.line q.linenum end_pos)
                    >>= λ parsed. some (replacement_reports filename linenum macro parsed))
          ])
      closed q (inl e) = rw e (_, refl)
      closed q (inr (p, e)) = rw e (
          Given-if (not (matches semicolon_next (drop p q.line))) _ _ (λ _. (_, refl))
            λ _.
              Given-bind _ _
                (parse_operands-Given
                  (length (expression_text elided linenum line n q.line q.linenum p)) []
                  (expression_text elided linenum line n q.line q.linenum p) (omega arith))
                (λ parsed _. (_, refl)))

  called :
      (filename : Str) (o : Option (Str × ℕ))
      → ((macro : Str) (n : ℕ) → o ≡ some (macro, n) → n < length line)
      → Given {A = List Report} (elim o [
        | none ↦ some []
        | some call ↦ check_macro_call filename elided linenum line call
      ])
  called filename none h = (_, refl)
  called filename (some (macro, n)) h = check_macro_call-Given filename macro n (h macro n refl)

  pub check_check-Given : (filename : Str) → Given (check_check filename elided linenum)
  unfolding check_check
  check_check-Given filename =
      rw at (called filename (find_check_macro line) (find_check_macro-lt-length line))
