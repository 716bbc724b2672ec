-- ===== src/LintState.antt =====
-- The class `_CppLintState` and the functions over its one instance, `_cpplint_state`.
pub mod Filters
use core_arbiter.Prelude.{ℕ, Bool, ◌||◌, List, [], ◌∷◌, if◌then◌else◌, is_empty, ◌++◌, ◌+◌}
use core_arbiter.Str.Decimal.{decimal}
use core_arbiter.Str.{Str, codes, starts_with, strip, split, split_pieces, ◌=s◌}
use core_arbiter.Tables.{default_filters}

pub record LintState : Type 0 where
  pub verbose_level : ℕ
  pub error_count : ℕ
  pub filters : List Str
  pub filters_backup : List Str
  pub counting : Str
  pub errors_by_category : List (Str × ℕ)
  pub output_format : Str

-- `__init__`
abbrev pub initial_lint_state : LintState
initial_lint_state = record {
  verbose_level = 1;
  error_count = 0;
  filters = default_filters;
  filters_backup = default_filters;
  counting = codes "total";
  errors_by_category = [];
  output_format = codes "emacs";
}

-- A method that may raise `ValueError` leaves its state behind in both cases.
pub data Outcome : Type 0 where
  returned : LintState → Outcome
  value_error : Str → LintState → Outcome

unfoldable pub set_output_format : Str → LintState → LintState
set_output_format output_format st = record st { output_format = output_format }

-- The state and the level before.
unfoldable pub set_verbose_level : ℕ → LintState → LintState × ℕ
set_verbose_level level st = (record st { verbose_level = level }, st.verbose_level)

unfoldable pub set_counting_style : Str → LintState → LintState
set_counting_style counting_style st = record st { counting = counting_style }

abbrev pub is_signed : Str → Bool
is_signed filt = starts_with filt (codes "+") || starts_with filt (codes "-")

-- `for filt in filters.split(',')`: what is appended to `self.filters`.
unfoldable pub clean_filters : List Str → List Str
unfolding strip
clean_filters [] = []
clean_filters (filt ∷ filts) =
    if is_empty (strip filt) then clean_filters filts else strip filt ∷ clean_filters filts

unfoldable pub check_filters : LintState → List Str → Outcome
check_filters st [] = returned st
check_filters st (filt ∷ filts) =
    if is_signed filt
    then check_filters st filts
    else value_error
        (codes "Every filter in --filters must start with + or - (" ++ filt ++ codes " does not)")
        st

unfoldable pub add_filters : Str → LintState → Outcome
unfolding clean_filters check_filters split
add_filters filters st =
    let all_filters = st.filters ++ clean_filters (split b',' filters) in
    check_filters (record st { filters = all_filters }) all_filters

unfoldable pub set_filters : Str → LintState → Outcome
unfolding add_filters
set_filters filters st = add_filters filters (record st { filters = default_filters })

unfoldable pub backup_filters : LintState → LintState
backup_filters st = record st { filters_backup = st.filters }

unfoldable pub restore_filters : LintState → LintState
restore_filters st = record st { filters = st.filters_backup }

unfoldable pub reset_error_counts : LintState → LintState
reset_error_counts st = record st { error_count = 0; errors_by_category = [] }

-- `if category not in d: d[category] = 0` and `d[category] += 1`
unfoldable pub bump : Str → List (Str × ℕ) → List (Str × ℕ)
bump category [] = (category, 1) ∷ []
bump category ((c, n) ∷ counts) =
    if c =s category then (c, n + 1) ∷ counts else (c, n) ∷ bump category counts

-- `category.split('/')[0]`
unfoldable pub top_level : Str → Str
unfolding split_pieces
top_level category = (split_pieces b'/' category).0

unfoldable pub increment_error_count : Str → LintState → LintState
unfolding bump top_level
increment_error_count category st =
    let counted = record st { error_count = st.error_count + 1 } in
    if st.counting =s codes "toplevel"
    then record counted { errors_by_category = bump (top_level category) st.errors_by_category }
    else if st.counting =s codes "detailed"
    then record counted { errors_by_category = bump category st.errors_by_category }
    else counted

-- What `PrintErrorCounts` writes, for one order of the dictionary's items.
unfoldable pub category_lines : List (Str × ℕ) → Str
unfolding decimal
category_lines [] = []
category_lines ((category, count) ∷ counts) =
    codes "Category '"
    ++ category
    ++ codes "' errors found: "
    ++ decimal count
    ++ codes "\n"
    ++ category_lines counts

unfoldable pub print_error_counts : LintState → Str
unfolding category_lines
print_error_counts st =
    category_lines st.errors_by_category
    ++ codes "Total errors found: "
    ++ decimal st.error_count
    ++ codes "\n"
