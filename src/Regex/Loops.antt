-- ===== src/Regex/Loops.antt =====
-- Loops that cannot fail: a loop stops where it stands, and `.*$` reaches the end of a line.

use core_arbiter.Prelude.{
  ℕ, zero, suc, ◌≤◌, ◌≡◌, refl, true, false, Option, none, some, List, [], ◌∷◌, arith, ◌==◌, length,
}
use core_arbiter.Str.{Str}
use core_arbiter.Regex.{Cursor, Then, moved, repeat, run, any_char}
use core_arbiter.Prelude.Forall.{All}
use core_arbiter.Prelude.{not, all}

-- No newline in the text.
abbrev pub OneLine : Str → Type 0
OneLine s = All (λ c. (c == b'\n') ≡ false) s

-- By running the test.
pub one_line : (s : Str) → all (λ c. not (c == b'\n')) s ≡ true → OneLine s
one_line [] h = tt
one_line (c ∷ s) h = (ground arith, one_line s (ground arith))

abbrev pub GoesThrough : Option Cursor → Type 0
GoesThrough o = (e : Cursor) × (o ≡ some e)

pub repeat-some :
    (m : Cursor → Then → Option Cursor) (fuel : ℕ) (c : Cursor) (k : Then)
    → GoesThrough (k c)
    → GoesThrough (repeat m fuel c k)
unfolding repeat
repeat-some m zero c k h = h
repeat-some m (suc fuel) c k (e, q) =
    first_through (m c (λ d. elim (moved c d) [ true ↦ repeat m fuel d k | false ↦ none ]))
  where
    first_through : (o : Option Cursor) → GoesThrough (elim o [ none ↦ k c | some d ↦ some d ])
    first_through none = (e, q)
    first_through (some d) = (d, refl)

pub any_char-to_end :
    (k : Then)
    → ((d : Cursor) → d.after ≡ [] → GoesThrough (k d))
    → (s before : Str) (gs : List (ℕ × ℕ × ℕ)) (fuel : ℕ) → length s ≤ fuel
    → OneLine s
    → GoesThrough
        (repeat (run any_char) fuel (record { before = before; after = s; groups = gs }) k)
unfolding run
any_char-to_end k h [] before gs fuel le nl = repeat-some (run any_char) fuel _ k (h _ refl)
any_char-to_end k h (x ∷ s) before gs zero le nl = absurd (omega arith)
any_char-to_end k h (x ∷ s) before gs (suc fuel) le nl =
    let (e, q) = any_char-to_end k h s (x ∷ before) gs fuel (omega arith) nl.1 in (e, ground arith)
