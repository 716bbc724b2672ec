-- ===== src/Checks/Blank/Last.antt =====
-- The line that `GetPreviousNonBlankLine` finds.

use mathlib.Core.List.{append_assoc}
use core_arbiter.Prelude.{
  ℕ, zero, suc, ◌≤◌, ◌<◌, ◌≡◌, refl, ap, ◌∙◌, inl, inr, true, false, Option, none, some, List, [],
  ◌∷◌, ◌++◌, arith, Bool-cases, length, get_elem?, take,
}
use core_arbiter.Str.{Str}
use core_arbiter.Checks.Blank.{is_blank_line, previous_from, get_previous_non_blank_line}
use core_arbiter.Prelude.Forall.{All, All-append}

abbrev AllBlank : List Str → Type 0
AllBlank lines = All (λ line. is_blank_line line ≡ true) lines

-- Before the line number there are only blank lines, or the line found, and only blank lines after it.
pub data LastInk (elided : List Str) (linenum : ℕ) : Option (Str × ℕ) → Type 0 where
  all_blank : AllBlank (take linenum elided) → LastInk elided linenum none
  last :
      (line : Str) (k : ℕ) (between : List Str)
      → take linenum elided ≡ take k elided ++ line ∷ between
      → get_elem? elided k ≡ some line
      → is_blank_line line ≡ false
      → AllBlank between
      → LastInk elided linenum (some (line, k))

record Item {ℓ} {A : Type ℓ} (s : List A) (n : ℕ) : Type ℓ where
  item : A
  holds : get_elem? s n ≡ some item
  splits : take (suc n) s ≡ take n s ++ item ∷ []

get_elem-Item {ℓ} : {A : Type ℓ} (s : List A) (n : ℕ) → n < length s → Item s n
get_elem-Item [] n h = absurd (omega arith)
get_elem-Item (x ∷ s) zero h = record { item = x; holds = refl; splits = refl }
get_elem-Item (x ∷ s) (suc n) h =
    let i : Item s n = get_elem-Item s n (omega arith) in
    record { item = i.item; holds = i.holds; splits = ap (◌∷◌ x) i.splits }

after_blank :
    (elided : List Str) (n : ℕ) (l : Str) (r : Option (Str × ℕ))
    → take (suc n) elided ≡ take n elided ++ l ∷ []
    → is_blank_line l ≡ true
    → LastInk elided n r
    → LastInk elided (suc n) r
after_blank elided n l _ q b (all_blank h) =
    all_blank (rw q (All-append _ (take n elided) (l ∷ []) h (b, tt)))
after_blank elided n l _ q b (last line k between e g i h) =
    last line k (between ++ l ∷ [])
      (q ∙ ap (λ s. s ++ l ∷ []) e ∙ append_assoc (take k elided) (line ∷ between) (l ∷ [])) g i
      (All-append _ between (l ∷ []) h (b, tt))

-- Up to the end of the lines `GetPreviousNonBlankLine` reads no line out of range, and it returns the
-- last line before the line number that is not blank, with its number, or says that all are blank.
pub get_previous_non_blank_line-LastInk :
    (elided : List Str) (linenum : ℕ)
    → linenum ≤ length elided
    → (r : Option (Str × ℕ)) × (get_previous_non_blank_line elided linenum ≡ some r)
      × LastInk elided linenum r
unfolding get_previous_non_blank_line previous_from
get_previous_non_blank_line-LastInk elided zero h = (none, refl, all_blank tt)
get_previous_non_blank_line-LastInk elided (suc n) h =
    let i : Item elided n = get_elem-Item elided n (omega arith) in
    elim (Bool-cases (is_blank_line i.item)) [
      | inl b ↦
          let (r, e, l) = get_previous_non_blank_line-LastInk elided n (omega arith) in
          (r, rw (i.holds, b, previous_from) e, after_blank elided n i.item r i.splits b l)
      | inr b ↦
          (some (i.item, n), rw (i.holds, b, previous_from), last i.item n [] i.splits i.holds b tt)
    ]
