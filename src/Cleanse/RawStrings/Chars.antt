-- ===== src/Cleanse/RawStrings/Chars.antt =====
-- The characters of the lines that `CleanseRawStrings` leaves.

use core_arbiter.Prelude.{
  ℕ, zero, suc, ◌+◌, ◌≡◌, refl, inl, inr, Option, none, some, List, [], ◌∷◌, ◌++◌, arith,
  Bool-cases, Option-cases, length, drop,
}
use core_arbiter.Str.{Str, codes, find}
use core_arbiter.Regex.{Found, group_text, match, matches}
use core_arbiter.Cleanse.RawStrings.{
  raw_start, in_line_comment, leading_space, closing, take_out, round_at, raw_round, lead_of,
  cleanse_line, cleanse_lines, Round, open_raw, ended, goes_on,
}
use core_arbiter.Prelude.Forall.{All, All-append, All-drop}
use core_arbiter.Regex.Chars.{group_text-All}
use core_arbiter.Cleanse.RawStrings.{no_more}
use core_arbiter.Cleanse.RawStrings.Shrink.{after_round, open_raw-suc}
use core_arbiter.Cleanse.RawStrings.{cleanse_raw_strings}

module _ (P : ℕ → Type 0) (quote : P b'"') where
  abbrev RoundAll : Round → Type 0
  RoundAll no_more = Unit
  RoundAll (ended rest) = All P rest
  RoundAll (goes_on d head) = All P head

  abbrev quotes : All P (codes "\"\"")
  quotes = (quote, (quote, tt))

  take_out-All :
      (head name tail : Str) → All P head → All P tail → RoundAll (take_out head name tail)
  unfolding take_out
  take_out-All head name tail hh ht = elim (Option-cases (find tail (closing name))) [
    | inl e ↦ rw (e, take_out) (All-append P head (codes "\"\"") hh quotes)
    | inr (n, e) ↦
        rw (e, take_out)
          (All-append P (head ++ codes "\"\"") (drop (n + length (closing name)) tail)
            (All-append P head (codes "\"\"") hh quotes)
            (All-drop P (n + length (closing name)) tail ht))
  ]

  round_at-All :
      (line : Str) (m : Found)
      → All P line
      → RoundAll (round_at (group_text line m 1) (group_text line m 2) (group_text line m 3))
  unfolding match
  round_at-All line m h =
      go (group_text line m 1) (group_text line m 2) (group_text line m 3) refl refl
    where
      go :
          (a b c : Option Str)
          → group_text line m 1 ≡ a
          → group_text line m 3 ≡ c
          → RoundAll (round_at a b c)
      go none b c p q = tt
      go (some head) none c p q = tt
      go (some head) (some name) none p q = tt
      go (some head) (some name) (some tail) p q =
          elim (Bool-cases (matches in_line_comment head)) [
            | inl e ↦ rw e tt
            | inr e ↦ rw e (
                take_out-All head name tail (group_text-All P line m 1 head p h)
                  (group_text-All P line m 3 tail q h))
          ]

  raw_round-All : (line : Str) → All P line → RoundAll (raw_round line)
  unfolding raw_round
  raw_round-All line h = elim (Option-cases (match raw_start line)) [
    | inl e ↦ rw (e, raw_round) tt
    | inr (m, e) ↦ rw (e, raw_round) (round_at-All line m h)
  ]

  abbrev LineAll : Option (Option Str × Str) → Type 0
  LineAll none = Unit
  LineAll (some (d, line)) = All P line

  open_raw-All : (fuel : ℕ) (line : Str) → All P line → LineAll (open_raw fuel line)
  open_raw-All zero line h = unfold open_raw in tt
  open_raw-All (suc fuel) line h =
      rw (open_raw-suc fuel line)
        (go (raw_round line) (raw_round-All line h) (λ rest k. open_raw-All fuel rest k))
    where
      go :
          (r : Round)
          → RoundAll r
          → ((rest : Str) → All P rest → LineAll (open_raw fuel rest))
          → LineAll (after_round fuel line r)
      go no_more p ih = unfold after_round in h
      go (ended rest) p ih = unfold after_round in (ih rest p)
      go (goes_on d l) p ih = unfold after_round in p

  lead_of-All : (line g : Str) → lead_of line ≡ some g → All P line → All P g
  lead_of-All line g e h = elim (Option-cases (match leading_space line)) [
    | inl q ↦ absurd (ground arith)
    | inr (m, q) ↦ group_text-All P line m 1 g (ground arith) h
  ]

  cleanse_line-All : (o : Option Str) (line : Str) → All P line → LineAll (cleanse_line o line)
  unfolding cleanse_line
  cleanse_line-All none line h = open_raw-All (length line + 1) line h
  cleanse_line-All (some d) line h = elim (Option-cases (find line d)) [
    | inl e ↦ rw (e, cleanse_line) quotes
    | inr (n, e) ↦ elim (Option-cases (lead_of line)) [
      | inl q ↦ rw (e, q, cleanse_line) tt
      | inr (g, q) ↦
          rw (e, q, cleanse_line)
            (open_raw-All _ _ (
              All-append P (g ++ codes "\"\"") (drop (n + length d) line)
                (All-append P g (codes "\"\"") (lead_of-All line g q h) quotes)
                (All-drop P (n + length d) line h)))
    ]
  ]

  abbrev pub OutAll : Option (List Str) → Type 0
  OutAll none = Unit
  OutAll (some out) = All (All P) out

  cons-All :
      (l : Str) (o : Option (List Str))
      → All P l
      → OutAll o
      → OutAll (elim o [ none ↦ none | some ls ↦ some (l ∷ ls) ])
  cons-All l none p h = tt
  cons-All l (some ls) p h = (p, h)

  pub cleanse_lines-All :
      (lines : List Str) (o : Option Str) → All (All P) lines → OutAll (cleanse_lines o lines)
  unfolding cleanse_lines
  cleanse_lines-All [] o h = tt
  cleanse_lines-All (line ∷ lines) o h = elim (Option-cases (cleanse_line o line)) [
    | inl e ↦ rw (e, cleanse_lines) tt
    | inr ((d, l), e) ↦
        let pl : LineAll (some (d, l)) = rw e at (cleanse_line-All o line h.0) in
        rw (e, cleanse_lines)
          (cons-All l (cleanse_lines d lines) pl (cleanse_lines-All lines d h.1))
  ]

  -- The result is made of what the lines are made of.
  pub cleanse_raw_strings-All :
      (lines : List Str) → All (All P) lines → OutAll (cleanse_raw_strings lines)
  unfolding cleanse_raw_strings
  cleanse_raw_strings-All lines h = cleanse_lines-All lines none h
