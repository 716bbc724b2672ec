-- ===== src/Files/System/Above.antt =====
-- Directories above a path, and that `dirname` shortens a path or leaves it.
use core_arbiter.Prelude.{◌+◌}
use core_arbiter.Prelude.{
  ℕ, ◌-◌, ◌<◌, ◌≡◌, ◌⊎◌, inl, inr, refl, sym, ap, ◌∙◌, Bool, true, false, [], ◌∷◌, ◌++◌, arith,
  ◌==◌, if◌then◌else◌, length, take, drop, take-append-drop, length-append,
}
use core_arbiter.Str.{Str}
use core_arbiter.Checks.Headers.{strip_slashes, split_path, path_head, all_are, path_tail}
use core_arbiter.Files.System.{dirname, common_prefix}
use mathlib.Core.List.{append_assoc, append-nil}

-- The text begins with the other.
abbrev pub Prefix : Str → Str → Type 0
Prefix s t = (rest : Str) × (t ≡ s ++ rest)

pub Prefix-refl : (s : Str) → Prefix s s
Prefix-refl s = ([], sym (append-nil s))

pub Prefix-trans : (s t u : Str) → Prefix s t → Prefix t u → Prefix s u
Prefix-trans s t u (r, e) (q, f) = (r ++ q, f ∙ ap (λ x. x ++ q) e ∙ append_assoc s r q)

strip_step :
    (c : ℕ) (rest s : Str)
    → Prefix rest s
    → Prefix (elim rest [ [] ↦ if c == b'/' then [] else c ∷ [] | d ∷ r ↦ c ∷ d ∷ r ]) (c ∷ s)
strip_step c [] s h = slash (c == b'/')
  where
    slash : (b : Bool) → Prefix (if b then [] else c ∷ []) (c ∷ s)
    slash true = (c ∷ s, refl)
    slash false = (s, refl)
strip_step c (d ∷ r) s (q, e) = (q, ap (◌∷◌ c) e)

strip_slashes-Prefix : (s : Str) → Prefix (strip_slashes s) s
unfolding strip_slashes
strip_slashes-Prefix [] = ([], refl)
strip_slashes-Prefix (c ∷ s) = strip_step c (strip_slashes s) s (strip_slashes-Prefix s)

take-Prefix : (n : ℕ) (s : Str) → Prefix (take n s) s
take-Prefix n s = (drop n s, sym (take-append-drop n s))

stripped-Prefix : (b : Bool) (s : Str) → Prefix (if b then s else strip_slashes s) s
stripped-Prefix true s = Prefix-refl s
stripped-Prefix false s = strip_slashes-Prefix s

pub dirname-Prefix : (p : Str) → Prefix (dirname p) p
unfolding dirname split_path
dirname-Prefix p =
    Prefix-trans _ (path_head p) p (stripped-Prefix (all_are b'/' (path_head p)) (path_head p))
      (take-Prefix (length p - length (path_tail p)) p)

-- A path is its own parent, or its parent is shorter.
pub dirname-shorter : (p : Str) → (p ≡ dirname p) ⊎ (length (dirname p) < length p)
dirname-shorter p = go (dirname-Prefix p)
  where
    go : Prefix (dirname p) p → (p ≡ dirname p) ⊎ (length (dirname p) < length p)
    go ([], e) = inl (e ∙ append-nil (dirname p))
    go (c ∷ r, e) = inr (omega (arith, ap length e, length-append (dirname p) (c ∷ r)))

pub length-dirname : (p : Str) → length (dirname p) < length p + 1
length-dirname p = go (dirname-Prefix p)
  where
    go : Prefix (dirname p) p → length (dirname p) < length p + 1
    go (r, e) = omega (arith, ap length e, length-append (dirname p) r)

-- `d` is `p` or is reached from it by `dirname`.
pub data Above (d : Str) : Str → Type 0 where
  here : Above d d
  up : {p : Str} → Above d (dirname p) → Above d p

pub Above-cases : {d p : Str} → Above d p → (d ≡ p) ⊎ Above d (dirname p)
Above-cases here = inl refl
Above-cases (up a) = inr a

pub own_parent-Above : {d p : Str} (q : Str) → p ≡ dirname p → q ≡ p → Above d q → d ≡ p
own_parent-Above q e f here = f
own_parent-Above q e f (up a) = own_parent-Above (dirname q) e (ap dirname f ∙ sym e) a

pub Above-trans : {d e p : Str} → Above d e → Above e p → Above d p
Above-trans a here = a
Above-trans a (up b) = up (Above-trans a b)

pub Above-Prefix : {d p : Str} → Above d p → Prefix d p
Above-Prefix {d} here = Prefix-refl d
Above-Prefix {d} {p} (up a) = Prefix-trans d (dirname p) p (Above-Prefix a) (dirname-Prefix p)

pub common_prefix-append : (s r : Str) → common_prefix s (s ++ r) ≡ s
unfolding common_prefix
common_prefix-append [] r = refl
common_prefix-append (c ∷ s) r = ground (arith, common_prefix-append s r)
