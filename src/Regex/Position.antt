-- ===== src/Regex/Position.antt =====
-- What a match does to the place in the text and to the groups.
use core_arbiter.Prelude.{
  zero, ◌∷◌, take, ℕ, suc, ◌+◌, ◌≤◌, ◌≡◌, refl, Bool, true, false, some, arith, length, ◌==◌,
}
use core_arbiter.Regex.{
  Regex, one_of, seq, either, star, lazy_star, group, Cursor, span_of, match, Str, Found,
  start_cursor, group_text, run, slice, to_found,
}
use core_arbiter.Regex.Sound.{
  Takes, nothing, one, both, left, right, stop, more, lazy, named, begins, ends, boundary, sees,
  sees_not, run-Takes,
}
use core_arbiter.Prelude.{
  ◌∷◌, take, ℕ, suc, ◌+◌, ◌-◌, ◌≤◌, ◌≡◌, refl, Bool, true, false, Option, none, some, arith, ◌==◌,
  length, drop, length-take-le, ◌<◌, [],
}

-- `d` stands in the same text as `c`, at the same place or further on.
pub record Onward (c d : Cursor) : Type 0 where
  pub same_text : length d.before + length d.after ≡ length c.before + length c.after
  pub forward : length c.before ≤ length d.before

Onward-refl : (c : Cursor) → Onward c c
Onward-refl c = omega arith

Onward-trans : {c d e : Cursor} → Onward c d → Onward d e → Onward c e
Onward-trans p q = omega arith

pub Takes-Onward : {r : Regex} {c d : Cursor} → Takes r c d → Onward c d
Takes-Onward {c} nothing = Onward-refl c
Takes-Onward (one x s q t e) = ground arith
Takes-Onward (both t u) = Onward-trans (Takes-Onward t) (Takes-Onward u)
Takes-Onward (left t) = Takes-Onward t
Takes-Onward (right t) = Takes-Onward t
Takes-Onward {c} stop = Onward-refl c
Takes-Onward (more t u) = Onward-trans (Takes-Onward t) (Takes-Onward u)
Takes-Onward (lazy t) = Takes-Onward t
Takes-Onward (named t e) = ground (arith, Takes-Onward t)
Takes-Onward {c} (begins h) = Onward-refl c
Takes-Onward {c} (ends h) = Onward-refl c
Takes-Onward {c} (boundary h) = Onward-refl c
Takes-Onward {c} (sees t) = Onward-refl c
Takes-Onward {c} (sees_not h) = Onward-refl c

-- A character is one place.
pub one_forward :
    {p : ℕ → Bool} {c d : Cursor} → Takes (one_of p) c d → length d.before ≡ suc (length c.before)
one_forward (one x s q t e) = ground arith

pub split_seq :
    {r s : Regex} {c e : Cursor} → Takes (seq r s) c e → (d : Cursor) × Takes r c d × Takes s d e
split_seq (both {d = d} t u) = (d, t, u)

-- The pattern has no group of this number outside look-ahead.
abbrev pub lacks : ℕ → Regex → Bool
lacks n (seq r s) = elim (lacks n r) [ true ↦ lacks n s | false ↦ false ]
lacks n (either r s) = elim (lacks n r) [ true ↦ lacks n s | false ↦ false ]
lacks n (star r) = lacks n r
lacks n (lazy_star r) = lacks n r
lacks n (group m r) = elim (n == m) [ true ↦ false | false ↦ lacks n r ]
lacks n _ = true

pub Takes-lacks :
    {r : Regex} {c d : Cursor} (n : ℕ)
    → Takes r c d
    → lacks n r ≡ true
    → span_of n d.groups ≡ span_of n c.groups
Takes-lacks n nothing h = refl
Takes-lacks n (one x s q t e) h = ground arith
Takes-lacks n (both t u) h = ground (arith, Takes-lacks n t, Takes-lacks n u)
Takes-lacks n (left t) h = ground (arith, Takes-lacks n t)
Takes-lacks n (right t) h = ground (arith, Takes-lacks n t)
Takes-lacks n stop h = refl
Takes-lacks n (more t u) h = ground (arith, Takes-lacks n t, Takes-lacks n u)
Takes-lacks n (lazy t) h = Takes-lacks n t h
Takes-lacks n (named t e) h = ground (arith, Takes-lacks n t)
Takes-lacks n (begins k) h = refl
Takes-lacks n (ends k) h = refl
Takes-lacks n (boundary k) h = refl
Takes-lacks n (sees t) h = refl
Takes-lacks n (sees_not k) h = refl

-- A group that has matched spans what its pattern has taken.
pub group-span :
    {n : ℕ} {r : Regex} {c d : Cursor}
    → Takes (group n r) c d
    → span_of n d.groups ≡ some (length c.before, length d.before)
group-span (named t e) = ground arith

-- A match, seen as a cursor.
pub match-Takes :
    (r : Regex) (s : Str) (m : Found)
    → match r s ≡ some m
    → (d : Cursor) × Takes r (start_cursor s) d × (m.groups ≡ d.groups)
unfolding match
match-Takes r s m h = go (run r (start_cursor s) some) refl h
  where
    go :
        (o : Option Cursor)
        → run r (start_cursor s) some ≡ o
        → to_found (start_cursor s) o ≡ some m
        → (d : Cursor) × Takes r (start_cursor s) d × (m.groups ≡ d.groups)
    go none e q = absurd (ground arith)
    go (some d) e q = (d, run-Takes r (start_cursor s) d e, ground arith)

pub length-group_text :
    (s : Str) (m : Found) (n i j : ℕ) (g : Str)
    → span_of n m.groups ≡ some (i, j)
    → group_text s m n ≡ some g
    → length g ≤ j - i
length-group_text s m n i j g h e =
    let e' : slice s i j ≡ g = ground arith in rw (← e') (length-take-le (j - i) (drop i s))

-- A group around one character is one place.
pub group_forward :
    {n : ℕ} {p : ℕ → Bool} {c d : Cursor}
    → Takes (group n (one_of p)) c d
    → length d.before ≡ suc (length c.before)
group_forward (named t e) = ground (arith, one_forward t)

-- Where a match ends.
pub match-stop :
    (r : Regex) (s : Str) (m : Found)
    → match r s ≡ some m
    → (d : Cursor) × Takes r (start_cursor s) d × (m.groups ≡ d.groups) × (m.stop ≡ length d.before)
unfolding match
match-stop r s m h = go (run r (start_cursor s) some) refl h
  where
    go :
        (o : Option Cursor)
        → run r (start_cursor s) some ≡ o
        → to_found (start_cursor s) o ≡ some m
        → (d : Cursor) × Takes r (start_cursor s) d
          × (m.groups ≡ d.groups)
          × (m.stop ≡ length d.before)
    go none e q = absurd (ground arith)
    go (some d) e q = (d, run-Takes r (start_cursor s) d e, ground arith, ground arith)

-- The text of a group around one character.
pub slice_one : (s : Str) (i : ℕ) → i < length s → (c : ℕ) × (slice s i (suc i) ≡ c ∷ [])
slice_one s i lt = let e : suc i - i ≡ 1 = omega arith in rw e (one_of_drop s i lt)
  where
    one_of_drop : (s : Str) (i : ℕ) → i < length s → (c : ℕ) × (take 1 (drop i s) ≡ c ∷ [])
    one_of_drop [] i lt = absurd (omega arith)
    one_of_drop (c ∷ s) zero lt = (c, refl)
    one_of_drop (c ∷ s) (suc i) lt = one_of_drop s i (omega arith)

-- `m.group(n)` of a group that has matched.
pub group_text-span :
    (s : Str) (m : Found) (n i j : ℕ)
    → span_of n m.groups ≡ some (i, j)
    → group_text s m n ≡ some (slice s i j)
group_text-span s m n i j h = rw (h, group_text) refl
