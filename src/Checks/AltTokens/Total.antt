-- ===== src/Checks/AltTokens/Total.antt =====
-- That `CheckAltTokens` returns.
use core_arbiter.Prelude.{ℕ, ◌≡◌, refl, some, List, get_elem?}
use core_arbiter.Prelude.Fallible.{Given}
use core_arbiter.Str.{Str}
use core_arbiter.Checks.AltTokens.{check_alt_tokens}

pub check_alt_tokens-Given :
    (elided : List Str) (linenum : ℕ) (line : Str)
    → get_elem? elided linenum ≡ some line
    → (filename : Str) → Given (check_alt_tokens filename elided linenum)
unfolding check_alt_tokens
check_alt_tokens-Given elided linenum line at filename = rw at (_, refl)
