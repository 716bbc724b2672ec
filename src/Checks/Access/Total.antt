-- ===== src/Checks/Access/Total.antt =====
-- That `CheckAccess` returns.
use core_arbiter.Prelude.{ℕ, ◌≡◌, refl, some, List, get_elem?}
use core_arbiter.Prelude.Fallible.{Given, Given-bind}
use core_arbiter.Str.{Str}
use core_arbiter.Nesting.Blocks.{NestingState}
use core_arbiter.Checks.Access.{check_access}

pub check_access-Given :
    (elided : List Str) (linenum : ℕ) (line : Str)
    → get_elem? elided linenum ≡ some line
    → (filename : Str) (st : NestingState) → Given (check_access filename elided linenum st)
unfolding check_access
check_access-Given elided linenum line at filename st =
    Given-bind _ _ (line, at) (λ line' _. (_, refl))
