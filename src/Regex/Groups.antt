-- ===== src/Regex/Groups.antt =====
-- Where the groups of a match lie in the text, and what stands beside them.
use core_arbiter.Prelude.{
  ℕ, zero, suc, ◌-◌, ◌<◌, ◌≡◌, refl, ap, ◌∙◌, Bool, true, some, [], ◌∷◌, arith, length, drop,
  length-take-le,
}
use core_arbiter.Prelude.{◌+◌, inl, inr, Option-cases, zero}
use core_arbiter.Regex.{search_from, search_regex, run}
use core_arbiter.Regex.Sound.{run-Takes}
use core_arbiter.Str.{Str}
use core_arbiter.Regex.{
  Regex, one_of, group, at_start, text, ◌⨾◌, Cursor, Found, span_of, slice, start_cursor, match,
}
use core_arbiter.Regex.Sound.{
  Takes, nothing, one, both, left, right, stop, more, lazy, named, begins, ends, boundary, sees,
  sees_not,
}
use core_arbiter.Regex.Position.{
  Onward, Takes-Onward, one_forward, split_seq, lacks, Takes-lacks, group-span, match-Takes,
  group_text-span,
}
use core_arbiter.Checks.Spacing.{group_of}

pub at_start-same : {c d : Cursor} → Takes at_start c d → d ≡ c
at_start-same (begins k) = refl

-- The whole text of a cursor.
abbrev pub whole : Str → Str → Str
whole [] s = s
whole (x ∷ before) s = whole before (x ∷ s)

pub Takes-whole :
    {r : Regex} {c d : Cursor} → Takes r c d → whole d.before d.after ≡ whole c.before c.after
Takes-whole nothing = refl
Takes-whole (one x s q t e) = rw (e, q) refl
Takes-whole (both t u) = Takes-whole u ∙ Takes-whole t
Takes-whole (left t) = Takes-whole t
Takes-whole (right t) = Takes-whole t
Takes-whole stop = refl
Takes-whole (more t u) = Takes-whole u ∙ Takes-whole t
Takes-whole (lazy t) = Takes-whole t
Takes-whole (named t e) = rw e (Takes-whole t)
Takes-whole (begins k) = refl
Takes-whole (ends k) = refl
Takes-whole (boundary k) = refl
Takes-whole (sees t) = refl
Takes-whole (sees_not k) = refl

drop-suc : (n : ℕ) (s t : Str) (x : ℕ) → drop n s ≡ x ∷ t → drop (suc n) s ≡ t
drop-suc zero s t x e = rw e refl
drop-suc (suc n) [] t x e = cc
drop-suc (suc n) (y ∷ s) t x e = drop-suc n s t x e

pub drop-whole : (before s : Str) → drop (length before) (whole before s) ≡ s
drop-whole [] s = refl
drop-whole (x ∷ before) s =
    drop-suc (length before) (whole before (x ∷ s)) s x (drop-whole before (x ∷ s))

-- What stands inside a group.
pub inside_group :
    {n : ℕ} {r : Regex} {c d : Cursor}
    → Takes (group n r) c d
    → (d' : Cursor) × Takes r c d' × (d'.before ≡ d.before) × (d'.after ≡ d.after)
inside_group (named {d = d'} t e) = (d', t, ground arith, ground arith)

-- What comes before, last character first, after a text has been taken.
abbrev pub onto : Str → Str → Str
onto [] before = before
onto (x ∷ s) before = onto s (x ∷ before)

pub text-before : (s : Str) {c d : Cursor} → Takes (text s) c d → d.before ≡ onto s c.before
text-before [] nothing = refl
text-before (x ∷ s) (both (one y rest q t e) u) =
    let same : x ≡ y = ground arith in text-before s u ∙ ap (onto s) (ground arith)

-- `m.group(n)` of a group that has matched.
pub group_of-span :
    (s : Str) (m : Found) (n i j : ℕ)
    → span_of n m.groups ≡ some (i, j)
    → group_of s m n ≡ slice s i j
group_of-span s m n i j h = ground (arith, group_text-span s m n i j h)

-- A group, and a character behind it that the pattern takes: the group ends before the end of the
-- text.
pub group_before_char :
    {n : ℕ} {r : Regex} {p : ℕ → Bool} (line : Str) (m : Found) {c1 c2 c3 : Cursor}
    → Takes (group n r) c1 c2
    → Takes (one_of p) c2 c3
    → Onward (start_cursor line) c3
    → span_of n m.groups ≡ span_of n c2.groups
    → length (group_of line m n) < length line
group_before_char {n} line m {c1} {c2} {c3} t u o e =
    let i = length c1.before in
    let j = length c2.before in
    let g : group_of line m n ≡ slice line i j = group_of-span line m n i j (e ∙ group-span t) in
    omega (arith, ap length g, length-take-le (j - i) (drop i line), one_forward u, o.same_text)

-- `^(...)` and one character more.
pub match-group_char :
    (r : Regex) (p : ℕ → Bool) (line : Str) (m : Found)
    → match (at_start ⨾ group 1 r ⨾ one_of p) line ≡ some m
    → length (group_of line m 1) < length line
match-group_char r p line m h =
    let (d, t, e) = match-Takes (at_start ⨾ group 1 r ⨾ one_of p) line m h in
    let (c1, t1, t2) = split_seq t in
    let (c2, t3, t4) = split_seq t2 in
    group_before_char line m t3 t4 (Takes-Onward t) (ap (span_of 1) e ∙ Takes-lacks 1 t4 refl)

-- The same with a further pattern behind.
pub match-group_char_more :
    (r rest : Regex) (p : ℕ → Bool) (line : Str) (m : Found)
    → lacks 1 rest ≡ true
    → match (at_start ⨾ group 1 r ⨾ one_of p ⨾ rest) line ≡ some m
    → length (group_of line m 1) < length line
match-group_char_more r rest p line m h e =
    let (d, t, q) = match-Takes (at_start ⨾ group 1 r ⨾ one_of p ⨾ rest) line m e in
    let (c1, t1, t2) = split_seq t in
    let (c2, t3, t4) = split_seq t2 in
    let (c3, t5, t6) = split_seq t4 in
    group_before_char line m t3 t5 (Takes-Onward (both t1 (both t3 t5)))
      (ap (span_of 1) q ∙ Takes-lacks 1 t6 h ∙ Takes-lacks 1 t5 refl)

-- Where a pattern was found.
pub record FoundAt (r : Regex) (total : ℕ) (m : Found) : Type 0 where
  pub from : Cursor
  pub to : Cursor
  pub takes : Takes r from to
  pub in_text : length from.before + length from.after ≡ total
  pub stops : m.stop ≡ length to.before
  pub groups : m.groups ≡ to.groups

search_from-FoundAt :
    (r : Regex) (before s : Str) (m : Found)
    → search_from r before s ≡ some m
    → FoundAt r (length before + length s) m
unfolding search_from
search_from-FoundAt r before [] m h =
    let c : Cursor = record { before = before; after = []; groups = [] } in
    elim (Option-cases (run r c some)) [
      | inl e ↦ absurd (ground arith)
      | inr (d, e) ↦ record {
        from = c;
        to = d;
        takes = run-Takes r c d e;
        in_text = refl;
        stops = ground arith;
        groups = ground arith;
      }
    ]
search_from-FoundAt r before (x ∷ s) m h =
    let c : Cursor = record { before = before; after = x ∷ s; groups = [] } in
    elim (Option-cases (run r c some)) [
      | inl e ↦
          let f = search_from-FoundAt r (x ∷ before) s m (ground arith) in
          record {
            from = f.from;
            to = f.to;
            takes = f.takes;
            in_text = omega (arith, f.in_text);
            stops = f.stops;
            groups = f.groups;
          }
      | inr (d, e) ↦ record {
        from = c;
        to = d;
        takes = run-Takes r c d e;
        in_text = refl;
        stops = ground arith;
        groups = ground arith;
      }
    ]

pub search-FoundAt :
    (r : Regex) (s : Str) (m : Found) → search_regex r s ≡ some m → FoundAt r (length s) m
unfolding search_regex
search-FoundAt r s m h =
    let f = search_from-FoundAt r [] s m h in
    record {
      from = f.from;
      to = f.to;
      takes = f.takes;
      in_text = omega (arith, f.in_text);
      stops = f.stops;
      groups = f.groups;
    }
