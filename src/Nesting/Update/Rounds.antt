-- ===== src/Nesting/Update/Rounds.antt =====
-- What is left of the line after a round of the loops of `Update`.

use core_arbiter.Prelude.{
  ℕ, suc, ◌-◌, ◌≤◌, ◌<◌, ◌≡◌, refl, ap, ◌∙◌, inl, inr, Option, some, arith, Option-cases, length,
  drop, length-take-le,
}
use core_arbiter.Str.{Str}
use core_arbiter.Regex.{
  Regex, group, at_end, Cursor, ◌⨾◌, Found, span_of, slice, group_text, start_cursor, match,
}
use core_arbiter.Nesting.Update.{
  namespace_decl, NamespaceRound, no_namespace, namespace_at, namespace_fault, namespace_groups,
  namespace_round, next_brace, BraceRound, no_brace, brace_at, brace_fault, brace_groups,
  brace_round,
}
use core_arbiter.Regex.Position.{
  Onward, Takes-Onward, one_forward, split_seq, Takes-lacks, group-span, match-Takes, group_forward,
  group_text-span,
}
use core_arbiter.Regex.Sound.{Takes}

-- The last group of a pattern that has taken a character before it.
pub rest_group :
    {n : ℕ} {r : Regex} {c d : Cursor} (line : Str) (m : Found)
    → m.groups ≡ d.groups
    → 1 ≤ length c.before
    → Onward (start_cursor line) d
    → Takes (group n r ⨾ at_end) c d
    → (g : Str) × (group_text line m n ≡ some g) × (length g < length line)
rest_group {n} {c = c} line m same far on t =
    let (e, t1, t2) = split_seq t in
    let i : ℕ = length c.before in
    let j : ℕ = length e.before in
    let span : span_of n m.groups ≡ some (i, j) =
      ap (span_of n) same ∙ Takes-lacks n t2 refl ∙ group-span t1 in
    let o1 : Onward c e = Takes-Onward t1 in
    let o2 : Onward e _ = Takes-Onward t2 in
    (
      slice line i j,
      group_text-span line m n i j span,
      omega (
        arith,
        length-take-le (j - i) (drop i line),
        on.same_text,
        on.forward,
        o1.forward,
        o2.forward,
      ),
    )

-- The rounds of the two loops leave a shorter line.
abbrev pub NamespaceRest : Str → NamespaceRound → Type 0
NamespaceRest line no_namespace = Unit
NamespaceRest line (namespace_at name rest) = length rest < length line
NamespaceRest line namespace_fault = ⊥

namespace_groups-Rest :
    (line : Str) (name rest : Option Str) (g : Str)
    → rest ≡ some g
    → length g < length line
    → NamespaceRest line (namespace_groups name rest)
namespace_groups-Rest line name rest g e lt = rw e lt

pub namespace_round-Rest : (line : Str) → NamespaceRest line (namespace_round line)
unfolding namespace_round
namespace_round-Rest line = elim (Option-cases (match namespace_decl line)) [
  | inl e ↦ rw (e, namespace_round) tt
  | inr (m, e) ↦
      let (d, takes, same) = match-Takes namespace_decl line m e in
      let (c0, t0, u0) = split_seq takes in
      let (c1, t1, u1) = split_seq u0 in
      let (c2, t2, u2) = split_seq u1 in
      let (c3, t3, u3) = split_seq u2 in
      let (c4, t4, u4) = split_seq u3 in
      let (c5, t5, u5) = split_seq u4 in
      let (k, n0, n1) = split_seq t2 in
      let (g, found, lt) =
        rest_group line m same
          (omega (
            arith,
            one_forward n0,
            Takes-Onward n1,
            Takes-Onward t3,
            Takes-Onward t4,
            Takes-Onward t5,
          ))
          (Takes-Onward takes) u5 in
      rw (e, namespace_round) (namespace_groups-Rest line (group_text line m 1) _ g found lt)
]

abbrev pub BraceRest : Str → BraceRound → Type 0
BraceRest line no_brace = Unit
BraceRest line (brace_at token rest) = length rest < length line
BraceRest line brace_fault = ⊥

brace_groups-Rest :
    (line : Str) (token rest : Option Str) (t g : Str)
    → token ≡ some t
    → rest ≡ some g
    → length g < length line
    → BraceRest line (brace_groups token rest)
brace_groups-Rest line token rest t g e f lt = rw (e, f) lt

pub brace_round-Rest : (line : Str) → BraceRest line (brace_round line)
unfolding brace_round
brace_round-Rest line = elim (Option-cases (match next_brace line)) [
  | inl e ↦ rw (e, brace_round) tt
  | inr (m, e) ↦
      let (d, takes, same) = match-Takes next_brace line m e in
      let (c0, t0, u0) = split_seq takes in
      let (c1, t1, u1) = split_seq u0 in
      let (c2, t2, u2) = split_seq u1 in
      let (c3, t3, u3) = split_seq u2 in
      let single : length c2.before ≡ suc (length c1.before) = group_forward t2 in
      let (g, found, lt) = rest_group line m same (omega arith) (Takes-Onward takes) u2 in
      let token : span_of 1 m.groups ≡ some (length c1.before, length c2.before) =
        ap (span_of 1) same ∙ Takes-lacks 1 u2 refl ∙ group-span t2 in
      rw (e, brace_round)
        (brace_groups-Rest line (group_text line m 1) (group_text line m 2) _ g
          (group_text-span line m 1 _ _ token) found lt)
]
