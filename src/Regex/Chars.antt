-- ===== src/Regex/Chars.antt =====
-- What a match and a substitution leave is made of characters of the text.

use core_arbiter.Prelude.{
  ℕ, zero, suc, ◌+◌, ◌-◌, ◌≡◌, refl, Option, none, some, [], ◌∷◌, arith, length, drop,
}
use core_arbiter.Str.{Str}
use core_arbiter.Regex.{Regex, Cursor, run, Found, span_of, slice, group_text, sub_from, sub}
use core_arbiter.Prelude.Forall.{All, All-take, All-drop}
use core_arbiter.Regex.Sound.{
  Takes, nothing, one, both, left, right, stop, more, lazy, named, begins, ends, boundary, sees,
  sees_not,
}
use core_arbiter.Prelude.{inl, inr, true, false, Bool-cases}
use core_arbiter.Regex.{moved}
use core_arbiter.Regex.Sound.{run-Takes}

module _ (P : ℕ → Type 0) where
  pub Takes-All : {r : Regex} {c d : Cursor} → Takes r c d → All P c.after → All P d.after
  Takes-All nothing h = h
  Takes-All (one x s q t e) h = rw e (rw q at h).1
  Takes-All (both t u) h = Takes-All u (Takes-All t h)
  Takes-All (left t) h = Takes-All t h
  Takes-All (right t) h = Takes-All t h
  Takes-All stop h = h
  Takes-All (more t u) h = Takes-All u (Takes-All t h)
  Takes-All (lazy t) h = Takes-All t h
  Takes-All (named t e) h = rw e (Takes-All t h)
  Takes-All (begins k) h = h
  Takes-All (ends k) h = h
  Takes-All (boundary k) h = h
  Takes-All (sees t) h = h
  Takes-All (sees_not k) h = h

  pub group_text-All :
      (s : Str) (m : Found) (n : ℕ) (g : Str) → group_text s m n ≡ some g → All P s → All P g
  group_text-All s m n g e h = go (span_of n m.groups) refl
    where
      go : (o : Option (ℕ × ℕ)) → span_of n m.groups ≡ o → All P g
      go none q = absurd (ground arith)
      go (some (i, j)) q =
          let same : slice s i j ≡ g = ground arith in
          rw (← same) (All-take P (j - i) (drop i s) (All-drop P i s h))

  -- One round of a substitution by nothing.
  round-All :
      (r : Regex) (before s out : Str) (x : ℕ) (next : Cursor → Str) (o : Option Cursor)
      → P x
      → All P out
      → ((d : Cursor) → o ≡ some d → All P (next d))
      → All P (elim o [
        | none ↦ x ∷ out
        | some d ↦ elim (moved (record { before = before; after = x ∷ s; groups = [] }) d) [
          | true ↦ next d
          | false ↦ x ∷ out
        ]
      ])
  round-All r before s out x next none p h later = (p, h)
  round-All r before s out x next (some d) p h later =
      elim (Bool-cases (moved (record { before = before; after = x ∷ s; groups = [] }) d)) [
        | inl t ↦ rw t (later d refl)
        | inr f ↦ rw f (p, h)
      ]

  sub_from-All :
      (r : Regex) (fuel : ℕ) (before s : Str) → All P s → All P (sub_from r [] fuel before s)
  unfolding sub_from
  sub_from-All r zero before s h = h
  sub_from-All r (suc fuel) before [] h = tt
  sub_from-All r (suc fuel) before (x ∷ s) h =
      let c : Cursor = record { before = before; after = x ∷ s; groups = [] } in
      round-All r before s (sub_from r [] fuel (x ∷ before) s) x
        (λ d. sub_from r [] fuel d.before d.after) (run r c some) h.0
        (sub_from-All r fuel (x ∷ before) s h.1)
        (λ d e. sub_from-All r fuel d.before d.after (Takes-All (run-Takes r c d e) h))

  pub sub-All : (r : Regex) (s : Str) → All P s → All P (sub r [] s)
  unfolding sub
  sub-All r s h = sub_from-All r (length s + 1) [] s h
