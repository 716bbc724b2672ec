-- ===== src/Cleanse/RawStrings/Shrink.antt =====
-- The length of a line after a raw string is taken out of it.

use core_arbiter.Prelude.{
  ℕ, ◌+◌, ◌≤◌, ◌<◌, ◌≡◌, refl, ap, ◌∙◌, inl, inr, Option, none, some, List, [], ◌∷◌, ◌++◌, arith,
  Bool-cases, Option-cases, length, drop, length-append, length-drop,
}
use core_arbiter.Str.{Str, codes, find}
use core_arbiter.Regex.{Cursor, span_of, group_text, start_cursor, match, matches}
use core_arbiter.Cleanse.RawStrings.{
  raw_start, in_line_comment, ended, closing, take_out, round_at, raw_round,
}
use core_arbiter.Regex.Position.{
  Takes-Onward, one_forward, split_seq, Takes-lacks, group-span, match-Takes, length-group_text,
}
use core_arbiter.Regex.Sound.{Takes}
use core_arbiter.Str.Search.{find-le-length}
use core_arbiter.Prelude.{suc}
use core_arbiter.Cleanse.RawStrings.{Round, no_more, goes_on, open_raw}

-- Where the groups of `raw_start` lie.
record Spans (line : Str) (gs : List (ℕ × ℕ × ℕ)) : Type 0 where
  head_start : ℕ
  head_stop : ℕ
  tail_start : ℕ
  tail_stop : ℕ
  head : span_of 1 gs ≡ some (head_start, head_stop)
  tail : span_of 3 gs ≡ some (tail_start, tail_stop)
  apart : head_stop + 2 ≤ tail_start
  ordered : tail_start ≤ tail_stop
  within : tail_stop ≤ length line

raw_start-Spans :
    (line : Str) (d : Cursor) → Takes raw_start (start_cursor line) d → Spans line d.groups
raw_start-Spans line d t =
    let (c0, t0, u0) = split_seq t in
    let (c1, t1, u1) = split_seq u0 in
    let (c2, t2, u2) = split_seq u1 in
    let (c3, t3, u3) = split_seq u2 in
    let (c4, t4, u4) = split_seq u3 in
    let (c5, t5, u5) = split_seq u4 in
    let (c6, t6, u6) = split_seq u5 in
    let (c7, t7, u7) = split_seq u6 in
    record {
      head_start = length c0.before;
      head_stop = length c1.before;
      tail_start = length c6.before;
      tail_stop = length c7.before;
      head = Takes-lacks 1 u1 refl ∙ group-span t1;
      tail = Takes-lacks 3 u7 refl ∙ group-span t7;
      apart = omega (
        arith,
        Takes-Onward t2,
        Takes-Onward t3,
        one_forward t4,
        Takes-Onward t5,
        one_forward t6,
      );
      ordered = (Takes-Onward t7).forward;
      within = omega (arith, Takes-Onward t, Takes-Onward u7);
    }

take_out-shrinks :
    (head name tail rest : Str)
    → take_out head name tail ≡ ended rest
    → length rest ≤ length head + length tail
unfolding take_out
take_out-shrinks head name tail rest h = elim (Option-cases (find tail (closing name))) [
  | inl e ↦ absurd (ground arith)
  | inr (n, e) ↦
      let q : head ++ codes "\"\"" ++ drop (n + length (closing name)) tail ≡ rest = ground arith in
      omega (
        arith,
        ap length q,
        length-append head (codes "\"\""),
        length-append (head ++ codes "\"\"") (drop (n + length (closing name)) tail),
        length-drop (n + length (closing name)) tail,
        find-le-length tail (closing name) n e,
        length-append name (b'"' ∷ []),
      )
]

round_at-shrinks :
    (h n t : Option Str) (rest : Str)
    → round_at h n t ≡ ended rest
    → (head tail : Str) × (h ≡ some head)
      × (t ≡ some tail)
      × (length rest ≤ length head + length tail)
round_at-shrinks (some head) (some name) (some tail) rest h =
    elim (Bool-cases (matches in_line_comment head)) [
      | inl e ↦ absurd (ground arith)
      | inr e ↦ (head, tail, refl, refl, take_out-shrinks head name tail rest (ground arith))
    ]
round_at-shrinks none n t rest h = absurd (ground arith)
round_at-shrinks (some head) none t rest h = absurd (ground arith)
round_at-shrinks (some head) (some name) none rest h = absurd (ground arith)

pub raw_round-shrinks : (line rest : Str) → raw_round line ≡ ended rest → length rest < length line
unfolding raw_round
raw_round-shrinks line rest h = elim (Option-cases (match raw_start line)) [
  | inl e ↦ absurd (ground arith)
  | inr (m, e) ↦
      let (d, takes, same) = match-Takes raw_start line m e in
      let s : Spans line m.groups = rw same (raw_start-Spans line d takes) in
      let (head, tail, eh, et, le) =
        round_at-shrinks (group_text line m 1) (group_text line m 2) (group_text line m 3) rest
          (ground arith) in
      omega (
        arith,
        le,
        s.apart,
        s.ordered,
        s.within,
        length-group_text line m 1 _ _ head s.head eh,
        length-group_text line m 3 _ _ tail s.tail et,
      )
]

-- What a round of the loop does next.
unfoldable pub after_round : ℕ → Str → Round → Option (Option Str × Str)
unfolding open_raw
after_round fuel line no_more = some (none, line)
after_round fuel line (ended rest) = open_raw fuel rest
after_round fuel line (goes_on delimiter head) = some (some delimiter, head)

pub open_raw-suc :
    (fuel : ℕ) (line : Str) → open_raw (suc fuel) line ≡ after_round fuel line (raw_round line)
unfolding open_raw after_round
open_raw-suc fuel line = ground arith
