-- ===== src/LintState/Filters.antt =====
-- What `AddFilters` and `SetFilters` leave, when they return and when they raise; backup and restore.

use core_arbiter.Prelude.{◌≡◌, refl, true, List, [], ◌∷◌, ◌++◌, if_cases}
use core_arbiter.Str.{Str, split}
use core_arbiter.LintState.{
  LintState, Outcome, returned, value_error, is_signed, clean_filters, check_filters, add_filters,
  backup_filters, restore_filters,
}
use core_arbiter.Prelude.Forall.{All}
use core_arbiter.Prelude.{ap, ◌∙◌}

abbrev pub AllSigned : List Str → Type 0
AllSigned fs = All (λ f. is_signed f ≡ true) fs

-- The method leaves the state `expected`, and returns exactly when all the filters have a sign.
abbrev pub Checked : LintState → List Str → Outcome → Type 0
Checked expected fs (returned st) = (st ≡ expected) × AllSigned fs
Checked expected fs (value_error message st) = (st ≡ expected) × (¬ AllSigned fs)

-- The filters of a state with more appended.
abbrev pub with_filters : LintState → List Str → LintState
with_filters st fs = record st { filters = fs }

abbrev pub state_of : Outcome → LintState
state_of (returned st) = st
state_of (value_error message st) = st

check_filters-state : (st : LintState) (fs : List Str) → state_of (check_filters st fs) ≡ st
unfolding check_filters
check_filters-state st [] = refl
check_filters-state st (f ∷ fs) =
    if_cases (λ o. state_of o ≡ st) (is_signed f) (check_filters st fs) _
      (λ _. check_filters-state st fs) (λ _. refl)

-- Several calls of `AddFilters`.
abbrev pub add_all : List Str → LintState → LintState
add_all [] st = st
add_all (f ∷ fs) st = add_all fs (state_of (add_filters f st))

restore-add_filters :
    (f : Str) (st : LintState) → restore_filters (state_of (add_filters f st)) ≡ restore_filters st
unfolding add_filters restore_filters
restore-add_filters f st =
    ap restore_filters (check_filters-state _ (st.filters ++ clean_filters (split b',' f)))

restore-add_all :
    (fs : List Str) (st : LintState) → restore_filters (add_all fs st) ≡ restore_filters st
restore-add_all [] st = refl
restore-add_all (f ∷ fs) st =
    restore-add_all fs (state_of (add_filters f st)) ∙ restore-add_filters f st

-- Whatever `AddFilters` adds after `BackupFilters`, and whether it returns or raises,
-- `RestoreFilters` brings back the state as it was at the backup.
pub restore-add-backup :
    (fs : List Str) (st : LintState)
    → restore_filters (add_all fs (backup_filters st)) ≡ backup_filters st
unfolding backup_filters restore_filters
restore-add-backup fs st = restore-add_all fs (backup_filters st)
