-- ===== src/Cleanse/RawStrings/Total.antt =====
-- `CleanseRawStrings`: exceptions, fuel and the number of lines.

use core_arbiter.Prelude.{
  ℕ, zero, suc, ◌≤◌, ◌≡◌, inl, inr, Bool, true, not, Option, some, List, [], ◌∷◌, arith, Bool-cases,
  length, any,
}
use core_arbiter.Str.{Str, find}
use core_arbiter.Regex.{Cursor, is_blank, step_char, repeat, close_group, run, space}
use core_arbiter.Cleanse.RawStrings.{
  closing, open_raw, lead_of, take_out, raw_round, Round, leading_space, goes_on,
}
use core_arbiter.Prelude.{◌<◌, refl, ◌∙◌, none}
use core_arbiter.Regex.{span_of, slice, start_cursor, match}
use core_arbiter.Prelude.{◌+◌, ◌++◌, Option-cases, drop}
use core_arbiter.Str.{codes}
use core_arbiter.Regex.{group_text, matches}
use core_arbiter.Cleanse.RawStrings.{
  raw_start, in_line_comment, no_more, ended, round_at, cleanse_line, cleanse_lines,
  cleanse_raw_strings, open_line,
}
use core_arbiter.Cleanse.RawStrings.Shrink.{raw_round-shrinks}
use core_arbiter.Regex.Position.{split_seq, Takes-lacks, group-span}
use core_arbiter.Regex.Sound.{run-Takes}
use core_arbiter.Cleanse.RawStrings.Shrink.{after_round, open_raw-suc}

abbrev ink : ℕ → Bool
ink c = not (is_blank c)

-- The rest of `^(\s*)\S` after the loop.
abbrev then_ink : Cursor → Cursor → Option Cursor
then_ink c d = step_char ink (close_group 1 c d) d.after some

lead_loop :
    (c : Cursor) (before s : Str) (gs : List (ℕ × ℕ × ℕ)) (fuel : ℕ)
    → length s ≤ fuel
    → any ink s ≡ true
    → (d : Cursor) × (repeat
          (run space)
          fuel
          (record { before = before; after = s; groups = gs })
          (then_ink c)
        ≡ some d)
unfolding repeat run
lead_loop c before [] gs fuel le h = absurd (ground arith)
lead_loop c before (x ∷ s) gs zero le h = absurd (omega arith)
lead_loop c before (x ∷ s) gs (suc fuel) le h = elim (Bool-cases (is_blank x)) [
  | inl b ↦
      let (d, e) = lead_loop c (x ∷ before) s gs fuel (omega arith) (ground arith) in
      (d, ground arith)
  | inr b ↦ (
    record { before = x ∷ before; after = s; groups = (1, length c.before, length before) ∷ gs },
    ground arith,
  )
]

find-ink : (s name : Str) (n : ℕ) → find s (closing name) ≡ some n → any ink s ≡ true
unfolding find
find-ink [] name n h = absurd (ground arith)
find-ink (c ∷ s) name zero h = ground (arith, find-ink s name zero)
find-ink (c ∷ s) name (suc n) h = ground (arith, find-ink s name n)

-- A line with a character that is no space has its leading space.
lead_of-some : (line : Str) → any ink line ≡ true → (g : Str) × (lead_of line ≡ some g)
unfolding match run
lead_of-some line h =
    let c : Cursor = start_cursor line in
    let (d, e) = lead_loop c [] line [] (length line) (omega arith) h in
    let ran : run leading_space c some ≡ some d = e in
    let (e1, t1, u1) = split_seq (run-Takes leading_space c d ran) in
    let (e2, t2, u2) = split_seq u1 in
    let g : span_of 1 d.groups ≡ some (length e1.before, length e2.before) =
      Takes-lacks 1 u2 refl ∙ group-span t2 in
    (slice line (length e1.before) (length e2.before), ground arith)

abbrev Delimits : Option Str → Type 0
Delimits none = Unit
Delimits (some d) = (name : Str) × (d ≡ closing name)

record Opened (o : Option (Option Str × Str)) : Type 0 where
  delimiter : Option Str
  line : Str
  ran : o ≡ some (delimiter, line)
  shape : Delimits delimiter

take_out-Delimits :
    (head name tail d l : Str) → take_out head name tail ≡ goes_on d l → Delimits (some d)
unfolding take_out
take_out-Delimits head name tail d l h = (name, ground arith)

round_at-Delimits :
    (h n t : Option Str) (d l : Str) → round_at h n t ≡ goes_on d l → Delimits (some d)
round_at-Delimits (some head) (some name) (some tail) d l h =
    elim (Bool-cases (matches in_line_comment head)) [
      | inl e ↦ absurd (ground arith)
      | inr e ↦ take_out-Delimits head name tail d l (ground arith)
    ]
round_at-Delimits none n t d l h = absurd (ground arith)
round_at-Delimits (some head) none t d l h = absurd (ground arith)
round_at-Delimits (some head) (some name) none d l h = absurd (ground arith)

raw_round-Delimits : (line d l : Str) → raw_round line ≡ goes_on d l → Delimits (some d)
unfolding raw_round
raw_round-Delimits line d l h = elim (Option-cases (match raw_start line)) [
  | inl e ↦ absurd (ground arith)
  | inr (m, e) ↦
      round_at-Delimits (group_text line m 1) (group_text line m 2) (group_text line m 3) d l
        (ground arith)
]

after_round-Opened :
    (fuel : ℕ) (line : Str) (r : Round)
    → raw_round line ≡ r
    → ((rest : Str) → length rest < length line → Opened (open_raw fuel rest))
    → Opened (after_round fuel line r)
unfolding after_round
after_round-Opened fuel line no_more e ih = record {
  delimiter = none;
  line = line;
  ran = refl;
  shape = tt;
}
after_round-Opened fuel line (ended rest) e ih = ih rest (raw_round-shrinks line rest e)
after_round-Opened fuel line (goes_on d l) e ih = record {
  delimiter = some d;
  line = l;
  ran = refl;
  shape = raw_round-Delimits line d l e;
}

-- Enough fuel: one more than the length of the line.
open_raw-Opened : (fuel : ℕ) (line : Str) → length line < fuel → Opened (open_raw fuel line)
open_raw-Opened zero line lt = absurd (omega arith)
open_raw-Opened (suc fuel) line lt = rw (open_raw-suc fuel line) (
    after_round-Opened fuel line (raw_round line) refl
      (λ rest h. open_raw-Opened fuel rest (omega arith)))

open_line-Opened : (line : Str) → Opened (open_line line)
open_line-Opened line = open_raw-Opened (length line + 1) line (omega arith)

cleanse_line-Opened : (o : Option Str) (line : Str) → Delimits o → Opened (cleanse_line o line)
unfolding cleanse_line
cleanse_line-Opened none line s = open_line-Opened line
cleanse_line-Opened (some d) line (name, same) = elim (Option-cases (find line d)) [
  | inl e ↦
      rw (e, cleanse_line)
        (record { delimiter = some d; line = codes "\"\""; ran = refl; shape = (name, same) })
  | inr (n, e) ↦
      let (g, found) = lead_of-some line (find-ink line name n (rw same at e)) in
      rw (e, found, cleanse_line) (open_line-Opened (g ++ codes "\"\"" ++ drop (n + length d) line))
]

-- `CleanseRawStrings` from any state of its loop: it returns a list of the same length.
cleanse_lines-total :
    (lines : List Str) (o : Option Str)
    → Delimits o
    → (out : List Str) × (cleanse_lines o lines ≡ some out) × (length out ≡ length lines)
unfolding cleanse_lines
cleanse_lines-total [] o s = ([], refl, refl)
cleanse_lines-total (line ∷ lines) o s =
    let r : Opened (cleanse_line o line) = cleanse_line-Opened o line s in
    let (out, e, len) = cleanse_lines-total lines r.delimiter r.shape in
    (r.line ∷ out, rw (r.ran, e, cleanse_lines) refl, omega (arith, len))

-- On every list of lines `CleanseRawStrings` returns, without an exception and without running out
-- of the model's fuel, and its result has as many lines.
pub cleanse_raw_strings-total :
    (lines : List Str)
    → (out : List Str) × (cleanse_raw_strings lines ≡ some out) × (length out ≡ length lines)
unfolding cleanse_raw_strings
cleanse_raw_strings-total lines = cleanse_lines-total lines none tt
