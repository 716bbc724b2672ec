-- ===== src/Cleanse/Collapse/Total.antt =====
-- `_CollapseStrings`: exceptions and fuel.

use core_arbiter.Prelude.{◌≡◌, refl, ap, some, [], arith, length}
use core_arbiter.Str.{Str}
use core_arbiter.Regex.{
  one_of, seq, star, group, at_end, Cursor, is_word, close_group, run, char, any_char, opt, Found,
  start_cursor, to_found, match,
}
use core_arbiter.Cleanse.Collapse.{rest_of_literal}
use core_arbiter.Regex.Loops.{OneLine, repeat-some, any_char-to_end}
use core_arbiter.Prelude.{◌+◌, ◌≤◌, ◌∙◌}
use core_arbiter.Regex.{span_of, slice, group_text}
use core_arbiter.Cleanse.Collapse.{first_quote}
use core_arbiter.Regex.Position.{
  Takes-Onward, split_seq, Takes-lacks, group-span, match-Takes, length-group_text,
}
use core_arbiter.Prelude.{
  ℕ, zero, suc, ◌<◌, inl, inr, true, false, Option, none, ◌∷◌, Bool-cases, Option-cases,
  length-drop,
}
use core_arbiter.Str.{codes, ◌=s◌, find}
use core_arbiter.Regex.{search_regex, is_found}
use core_arbiter.Cleanse.Collapse.{
  ends_in_digits, raised, finished, quoted, separated, at_quote, collapse_round, collapse_from,
  Round, goes_on,
}
use core_arbiter.Prelude.Forall.{All-drop}
use core_arbiter.Regex.Chars.{group_text-All}
use core_arbiter.Regex.Position.{group_forward}
use core_arbiter.Regex.{sub, matches}
use core_arbiter.Cleanse.Collapse.{include_line, line_escapes, collapse_strings}
use core_arbiter.Regex.Chars.{sub-All}

rest_of_literal-Found : (s : Str) → OneLine s → (m : Found) × (match rest_of_literal s ≡ some m)
unfolding match run
rest_of_literal-Found s h =
    let c : Cursor = start_cursor s in
    let (e, q) =
      repeat-some (run (seq (opt (char b'\'')) (one_of is_word))) (length s) c
        (λ d. run (seq (group 2 (star any_char)) at_end) (close_group 1 c d) some)
        (any_char-to_end (λ d. run at_end (close_group 2 (close_group 1 c c) d) some)
          (λ d f. (close_group 2 (close_group 1 c c) d, ground arith)) s [] _ (length s)
          (omega arith) h) in
    (_, ap (to_found c) q)

-- Where the two groups of `rest_of_literal` lie: the rest is no longer than the text.
rest_of_literal-groups :
    (s : Str) (m : Found)
    → match rest_of_literal s ≡ some m
    → (literal rest : Str) × (group_text s m 1 ≡ some literal)
      × (group_text s m 2 ≡ some rest)
      × (length rest ≤ length s)
rest_of_literal-groups s m h =
    let (d, t, same) = match-Takes rest_of_literal s m h in
    let (c0, t0, u0) = split_seq t in
    let (c1, t1, u1) = split_seq u0 in
    let (c2, t2, u2) = split_seq u1 in
    let g1 : span_of 1 m.groups ≡ some (length c0.before, length c1.before) =
      ap (span_of 1) same ∙ Takes-lacks 1 u1 refl ∙ group-span t1 in
    let g2 : span_of 2 m.groups ≡ some (length c1.before, length c2.before) =
      ap (span_of 2) same ∙ Takes-lacks 2 u2 refl ∙ group-span t2 in
    let rest : Str = slice s (length c1.before) (length c2.before) in
    let e2 : group_text s m 2 ≡ some rest = ground arith in
    (
      slice s (length c0.before) (length c1.before),
      rest,
      ground arith,
      e2,
      omega (arith, length-group_text s m 2 _ _ rest g2 e2, Takes-Onward t, Takes-Onward u2),
    )

-- The groups of `first_quote`.
record Parts (s : Str) (m : Found) : Type 0 where
  head : Str
  quote : Str
  tail : Str
  head_is : group_text s m 1 ≡ some head
  quote_is : group_text s m 2 ≡ some quote
  tail_is : group_text s m 3 ≡ some tail
  sizes : length head + 1 + length tail ≤ length s

first_quote-Parts : (s : Str) (m : Found) → match first_quote s ≡ some m → Parts s m
first_quote-Parts s m h =
    let (d, t, same) = match-Takes first_quote s m h in
    let (c0, t0, u0) = split_seq t in
    let (c1, t1, u1) = split_seq u0 in
    let (c2, t2, u2) = split_seq u1 in
    let (c3, t3, u3) = split_seq u2 in
    let g1 : span_of 1 m.groups ≡ some (length c0.before, length c1.before) =
      ap (span_of 1) same ∙ Takes-lacks 1 u1 refl ∙ group-span t1 in
    let g2 : span_of 2 m.groups ≡ some (length c1.before, length c2.before) =
      ap (span_of 2) same ∙ Takes-lacks 2 u2 refl ∙ group-span t2 in
    let g3 : span_of 3 m.groups ≡ some (length c2.before, length c3.before) =
      ap (span_of 3) same ∙ Takes-lacks 3 u3 refl ∙ group-span t3 in
    let e1 : group_text s m 1 ≡ some (slice s (length c0.before) (length c1.before)) =
      ground arith in
    let e3 : group_text s m 3 ≡ some (slice s (length c2.before) (length c3.before)) =
      ground arith in
    record {
      head = slice s (length c0.before) (length c1.before);
      quote = slice s (length c1.before) (length c2.before);
      tail = slice s (length c2.before) (length c3.before);
      head_is = e1;
      quote_is = ground arith;
      tail_is = e3;
      sizes = omega (
        arith,
        length-group_text s m 1 _ _ _ g1 e1,
        length-group_text s m 3 _ _ _ g3 e3,
        group_forward t2,
        Takes-Onward t,
        Takes-Onward u3,
        Takes-Onward t3,
        Takes-Onward t1,
      );
    }

-- What a round has done: it went on with a shorter text, or it gave the result.
abbrev Progress : Str → Round → Type 0
Progress s raised = ⊥
Progress s (finished out) = Unit
Progress s (goes_on done rest) = OneLine rest × (length rest < length s)

quoted-Progress :
    (collapsed s head tail : Str) (q : ℕ) (o : Option ℕ)
    → OneLine tail
    → length tail < length s
    → Progress s (quoted collapsed s head tail q o)
quoted-Progress collapsed s head tail q none h lt = tt
quoted-Progress collapsed s head tail q (some n) h lt =
    (All-drop _ (n + 1) tail h, omega (arith, length-drop (n + 1) tail))

separated-Progress :
    (collapsed s head tail : Str)
    → OneLine tail
    → length tail + 1 < length s
    → Progress s (separated collapsed s head tail)
unfolding separated
separated-Progress collapsed s head tail h lt =
    let t : Str = b'\'' ∷ tail in
    let nl : OneLine t = (refl, h) in
    let (m, e) = rest_of_literal-Found t nl in
    let (literal, rest, e1, e2, le) = rest_of_literal-groups t m e in
    rw (e, separated) (rw (e1, e2) (group_text-All _ t m 2 rest e2 nl, omega (arith, le)))

no_digits_before : is_found ends_in_digits [] ≡ false
unfolding search_regex
no_digits_before = refl

digits_before : (head : Str) → is_found ends_in_digits head ≡ true → 0 < length head
digits_before [] h = absurd (cc (h, no_digits_before))
digits_before (c ∷ head) h = omega arith

at_quote-Progress :
    (collapsed s head quote tail : Str)
    → OneLine tail
    → length head + 1 + length tail ≤ length s
    → Progress s (at_quote collapsed s (some head) (some quote) (some tail))
at_quote-Progress collapsed s head quote tail h le = elim (Bool-cases (quote =s codes "\"")) [
  | inl e ↦
      rw e (quoted-Progress collapsed s head tail b'"' (find tail (codes "\"")) h (omega arith))
  | inr e ↦ rw e (elim (Bool-cases (is_found ends_in_digits head)) [
    | inl d ↦
        rw d (separated-Progress collapsed s head tail h (omega (arith, digits_before head d)))
    | inr d ↦
        rw d (quoted-Progress collapsed s head tail b'\'' (find tail (codes "'")) h (omega arith))
  ])
]

collapse_round-Progress : (collapsed s : Str) → OneLine s → Progress s (collapse_round collapsed s)
unfolding collapse_round
collapse_round-Progress collapsed s h = elim (Option-cases (match first_quote s)) [
  | inl e ↦ rw (e, collapse_round) tt
  | inr (m, e) ↦
      let p : Parts s m = first_quote-Parts s m e in
      rw (e, collapse_round)
        (rw (p.head_is, p.quote_is, p.tail_is)
          (at_quote-Progress collapsed s p.head p.quote p.tail
            (group_text-All _ s m 3 p.tail p.tail_is h) p.sizes))
]

after_round : ℕ → Round → Option Str
unfolding collapse_from
after_round fuel raised = none
after_round fuel (finished out) = some out
after_round fuel (goes_on done rest) = collapse_from fuel done rest

collapse_from-suc :
    (fuel : ℕ) (collapsed s : Str)
    → collapse_from (suc fuel) collapsed s ≡ after_round fuel (collapse_round collapsed s)
unfolding collapse_from after_round
collapse_from-suc fuel collapsed s = ground arith

after_round-total :
    (fuel : ℕ) (s : Str) (r : Round)
    → Progress s r
    → ((done rest : Str)
        → OneLine rest
        → length rest < length s
        → (out : Str) × (collapse_from fuel done rest ≡ some out))
    → (out : Str) × (after_round fuel r ≡ some out)
unfolding after_round
after_round-total fuel s raised p ih = absurd p
after_round-total fuel s (finished out) p ih = (out, refl)
after_round-total fuel s (goes_on done rest) p ih = ih done rest p.0 p.1

-- The loop with more fuel than the text is long.
collapse_from-total :
    (fuel : ℕ) (collapsed s : Str)
    → OneLine s
    → length s < fuel
    → (out : Str) × (collapse_from fuel collapsed s ≡ some out)
collapse_from-total zero collapsed s h lt = absurd (omega arith)
collapse_from-total (suc fuel) collapsed s h lt = rw (collapse_from-suc fuel collapsed s) (
    after_round-total fuel s (collapse_round collapsed s) (collapse_round-Progress collapsed s h)
      (λ done rest nl le. collapse_from-total fuel done rest nl (omega arith)))

-- `_CollapseStrings` returns on every text without a newline: its loop ends, and no match that it
-- relies on is missing.
pub collapse_strings-total :
    (elided : Str) → OneLine elided → (out : Str) × (collapse_strings elided ≡ some out)
unfolding collapse_strings
collapse_strings-total elided h = elim (Bool-cases (matches include_line elided)) [
  | inl e ↦ rw (e, collapse_strings) (elided, refl)
  | inr e ↦
      let plain : Str = sub line_escapes [] elided in
      rw (e, collapse_strings)
        (collapse_from-total (length plain + 1) [] plain (sub-All _ line_escapes elided h)
          (omega arith))
]
