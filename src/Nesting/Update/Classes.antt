-- ===== src/Nesting/Update/Classes.antt =====
-- The class declarations of a line: the groups of the pattern, and exceptions.

use core_arbiter.Prelude.{
  ℕ, ◌<◌, ◌≡◌, refl, ap, ◌∙◌, inl, inr, Option, some, List, Option-cases, length, get_elem?-some,
  if_cases,
}
use core_arbiter.Str.{Str}
use core_arbiter.Regex.{Regex, group, Cursor, close_group, Found, span_of, slice, group_text, match}
use core_arbiter.Cleanse.Lines.{CleansedLines}
use core_arbiter.Nesting.Blocks.{PreprocessorInfo, NestingState, new_class}
use core_arbiter.Nesting.Template.Total.{in_template_argument_list-Returns}
use core_arbiter.Nesting.Update.{
  class_decl, no_parentheses, push_class, declare_class, consume_class,
}
use core_arbiter.Prelude.Fallible.{Returns, Returns-bind}
use core_arbiter.Regex.Position.{split_seq, Takes-lacks, group-span, match-Takes, group_text-span}
use core_arbiter.Regex.Sound.{Takes, named}

named_inner :
    {n : ℕ} {r : Regex} {c e : Cursor}
    → Takes (group n r) c e
    → (d : Cursor) × Takes r c d × (e ≡ close_group n c d)
named_inner (named {d = d} t e) = (d, t, e)

-- The four groups of a match of `class_decl`.
record ClassGroups (line : Str) (m : Found) : Type 0 where
  head : Str
  kind : Str
  name : Str
  rest : Str
  group1 : group_text line m 1 ≡ some head
  group2 : group_text line m 2 ≡ some kind
  group3 : group_text line m 3 ≡ some name
  group4 : group_text line m 4 ≡ some rest

class_decl-Groups : (line : Str) (m : Found) → match class_decl line ≡ some m → ClassGroups line m
class_decl-Groups line m e =
    let (d, takes, same) = match-Takes class_decl line m e in
    let (c0, t0, u0) = split_seq takes in
    let (c1, t1, u1) = split_seq u0 in
    let (c2, t2, u2) = split_seq u1 in
    let (b, i, close) = named_inner t1 in
    let (b0, i0, v0) = split_seq i in
    let (b1, i1, v1) = split_seq v0 in
    let (b2, i2, v2) = split_seq v1 in
    let (b3, i3, v3) = split_seq v2 in
    let (b4, i4, v4) = split_seq v3 in
    let at1 : span_of 1 m.groups ≡ some (length c0.before, length c1.before) =
      ap (span_of 1) same ∙ Takes-lacks 1 u1 refl ∙ group-span t1 in
    let at4 : span_of 4 m.groups ≡ some (length c1.before, length c2.before) =
      ap (span_of 4) same ∙ Takes-lacks 4 u2 refl ∙ group-span t2 in
    let out2 : span_of 2 c1.groups ≡ span_of 2 b.groups =
      ap (λ (c : Cursor). span_of 2 c.groups) close in
    let out3 : span_of 3 c1.groups ≡ span_of 3 b.groups =
      ap (λ (c : Cursor). span_of 3 c.groups) close in
    let at2 : span_of 2 m.groups ≡ some (length b1.before, length b2.before) =
      ap (span_of 2) same ∙ Takes-lacks 2 u1 refl ∙ out2 ∙ Takes-lacks 2 v2 refl ∙ group-span i2 in
    let at3 : span_of 3 m.groups ≡ some (length b4.before, length b.before) =
      ap (span_of 3) same ∙ Takes-lacks 3 u1 refl ∙ out3 ∙ group-span v4 in
    record {
      head = slice line (length c0.before) (length c1.before);
      kind = slice line (length b1.before) (length b2.before);
      name = slice line (length b4.before) (length b.before);
      rest = slice line (length c1.before) (length c2.before);
      group1 = group_text-span line m 1 _ _ at1;
      group2 = group_text-span line m 2 _ _ at2;
      group3 = group_text-span line m 3 _ _ at3;
      group4 = group_text-span line m 4 _ _ at4;
    }

abbrev KeepsPps : List PreprocessorInfo → Option (Str × NestingState) → Type 0
KeepsPps pps = Returns (λ r. r.1.pp_stack ≡ pps)

push_class-Keeps :
    (name kind : Str) (clean_lines : CleansedLines) (linenum : ℕ) (st : NestingState)
    → linenum < length clean_lines.raw_lines
    → Returns
        (λ (s : NestingState). s.pp_stack ≡ st.pp_stack)
        (push_class name kind clean_lines linenum st)
unfolding new_class
push_class-Keeps name kind clean_lines linenum st h =
    let (raw_line, e) = get_elem?-some clean_lines.raw_lines linenum h in rw (e, push_class) refl

declare_class-Keeps :
    (clean_lines : CleansedLines) (linenum : ℕ) (line : Str) (st : NestingState)
    (head kind name rest : Str)
    → linenum < length clean_lines.raw_lines
    → KeepsPps st.pp_stack
        (declare_class clean_lines linenum line st (some head) (some kind) (some name) (some rest))
declare_class-Keeps clean_lines linenum line st head kind name rest h =
    let (inside, e) = in_template_argument_list-Returns clean_lines.elided linenum (length head) in
    rw e (
      if_cases (KeepsPps st.pp_stack) inside _ _ (λ _. refl)
        (λ _.
          Returns-bind (λ (s : NestingState). s.pp_stack ≡ st.pp_stack)
            (λ r. r.1.pp_stack ≡ st.pp_stack) (push_class name kind clean_lines linenum st) _
            (push_class-Keeps name kind clean_lines linenum st h) (λ s q. q)))

pub consume_class-Keeps :
    (clean_lines : CleansedLines) (linenum : ℕ) (line : Str) (st : NestingState)
    → linenum < length clean_lines.raw_lines
    → Returns (λ r. r.1.pp_stack ≡ st.pp_stack) (consume_class clean_lines linenum line st)
unfolding consume_class
consume_class-Keeps clean_lines linenum line st h = elim (Option-cases (match class_decl line)) [
  | inl e ↦ rw (e, consume_class) refl
  | inr (m, e) ↦
      let g : ClassGroups line m = class_decl-Groups line m e in
      rw (e, consume_class)
        (if_cases (KeepsPps st.pp_stack) (no_parentheses st.stack) _ _
          (λ _.
            rw (g.group1, g.group2, g.group3, g.group4)
              (declare_class-Keeps clean_lines linenum line st g.head g.kind g.name g.rest h))
          (λ _. refl))
]
