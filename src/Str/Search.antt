-- ===== src/Str/Search.antt =====
-- Where an occurrence that `find` reports lies.
use core_arbiter.Prelude.{ℕ, zero, suc, ◌+◌, ◌≤◌, ◌≡◌, true, some, [], ◌∷◌, arith, length}
use core_arbiter.Str.{Str, starts_with, find}

pub length-starts_with : (s p : Str) → starts_with s p ≡ true → length p ≤ length s
length-starts_with s [] h = omega arith
length-starts_with [] (d ∷ p) h = ground arith
length-starts_with (c ∷ s) (d ∷ p) h = ground (arith, length-starts_with s p)

-- An occurrence that `find` reports lies within the text.
pub find-le-length : (s p : Str) (n : ℕ) → find s p ≡ some n → n + length p ≤ length s
unfolding find
find-le-length [] p n h = ground (arith, length-starts_with [] p)
find-le-length (c ∷ s) p zero h = ground (arith, length-starts_with (c ∷ s) p)
find-le-length (c ∷ s) p (suc n) h = ground (arith, find-le-length s p n)
