-- ===== src/IncludeState.antt =====
-- The class `_IncludeState`: the headers included so far, and the order of their sections.
pub mod Order
pub mod Headers
use core_arbiter.Prelude.{
  ℕ, zero, suc, ◌-◌, Bool, true, not, Option, none, some, List, [], ◌∷◌, ◌++◌, leb, ◌==◌,
  if◌then◌else◌, length, get_elem?,
}
use core_arbiter.Str.{Str, codes, ◌=s◌, is_in, lt_str, replace, lower}
use core_arbiter.Regex.{
  Regex, star, at_start, word_boundary, char, space, text, ◌⨾◌, match, matches,
}

-- `include_list`, a list of lists of (header, line number) pairs
pub record IncludeState : Type 0 where
  pub include_list : List (List (Str × ℕ))
  pub section : ℕ
  pub last_header : Str

abbrev pub initial_section : ℕ
initial_section = 0

abbrev pub my_h_section : ℕ
my_h_section = 1

abbrev pub c_section : ℕ
c_section = 2

abbrev pub cpp_section : ℕ
cpp_section = 3

abbrev pub other_h_section : ℕ
other_h_section = 4

-- The constants `_C_SYS_HEADER`, …, `_OTHER_HEADER`.
pub data HeaderType : Type 0 where
  c_sys_header cpp_sys_header likely_my_header possible_my_header other_header : HeaderType

abbrev pub type_name : HeaderType → Str
type_name c_sys_header = codes "C system header"
type_name cpp_sys_header = codes "C++ system header"
type_name likely_my_header = codes "header this file implements"
type_name possible_my_header = codes "header this file may implement"
type_name other_header = codes "other header"

abbrev pub section_name : ℕ → Str
section_name n =
    if n == initial_section
    then codes "... nothing. (This can't be an error.)"
    else if n == my_h_section
    then codes "a header this file implements"
    else if n == c_section
    then codes "C system header"
    else if n == cpp_section
    then codes "C++ system header"
    else codes "other header"

unfoldable pub find_in : Str → List (Str × ℕ) → Option ℕ
find_in header [] = none
find_in header ((h, line) ∷ fs) = if h =s header then some line else find_in header fs

-- `FindHeader`; `none` is -1
unfoldable pub find_header : Str → List (List (Str × ℕ)) → Option ℕ
unfolding find_in
find_header header [] = none
find_header header (fs ∷ lists) = elim (find_in header fs) [
  | none ↦ find_header header lists
  | some line ↦ some line
]

-- `include_list[-1] = []`; the list is never empty
abbrev pub clear_last : List (List (Str × ℕ)) → List (List (Str × ℕ))
clear_last [] = []
clear_last (fs ∷ []) = [] ∷ []
clear_last (fs ∷ gs ∷ lists) = fs ∷ clear_last (gs ∷ lists)

-- `include_state.include_list[-1].append((include, linenum))`, which `CheckIncludeLine` runs for a
-- header that is not found
abbrev pub append_to_last : Str × ℕ → List (List (Str × ℕ)) → List (List (Str × ℕ))
append_to_last entry [] = []
append_to_last entry (fs ∷ []) = (fs ++ entry ∷ []) ∷ []
append_to_last entry (fs ∷ gs ∷ lists) = fs ∷ append_to_last entry (gs ∷ lists)

unfoldable pub add_include : Str → ℕ → IncludeState → IncludeState
add_include include linenum st = record st {
  include_list = append_to_last (include, linenum) st.include_list;
}

unfoldable pub reset_section : Str → IncludeState → IncludeState
reset_section directive st = record {
  section = initial_section;
  last_header = [];
  include_list =
      if is_in directive (codes "if" ∷ codes "ifdef" ∷ codes "ifndef" ∷ [])
      then st.include_list ++ [] ∷ []
      else if is_in directive (codes "else" ∷ codes "elif" ∷ [])
      then clear_last st.include_list
      else st.include_list;
}

-- `__init__`
abbrev pub initial_include_state : IncludeState
initial_include_state = record {
  include_list = [] ∷ [];
  section = initial_section;
  last_header = [];
}

unfoldable pub set_last_header : Str → IncludeState → IncludeState
set_last_header header_path st = record st { last_header = header_path }

unfoldable pub canonicalize_alphabetical_order : Str → Str
unfolding replace lower
canonicalize_alphabetical_order header_path =
    lower (replace (replace header_path (codes "-inl.h") (codes ".h")) (codes "-") (codes "_"))

-- `^\s*#\s*include\b`
abbrev pub include_directive : Regex
include_directive =
    at_start ⨾ star space ⨾ char b'#' ⨾ star space ⨾ text (codes "include") ⨾ word_boundary

-- `clean_lines.elided[linenum - 1]`; the index -1 is the last line
abbrev pub line_before : List Str → ℕ → Option Str
line_before elided zero = get_elem? elided (length elided - 1)
line_before elided (suc n) = get_elem? elided n

-- `none` is the exception of an index out of range.
unfoldable pub is_in_alphabetical_order : List Str → ℕ → Str → IncludeState → Option Bool
unfolding match
is_in_alphabetical_order elided linenum header_path st =
    if lt_str header_path st.last_header
    then elim (line_before elided linenum) [
      | none ↦ none
      | some line ↦ some (not (matches include_directive line))
    ]
    else some true

-- Into a section, with `_last_header` reset when it is another one.
abbrev pub move_to : ℕ → IncludeState → IncludeState
move_to section st = record st {
  section = section;
  last_header = if st.section == section then st.last_header else [];
}

abbrev pub order_error : HeaderType → IncludeState → IncludeState × Str
order_error header_type st = (
  record st { last_header = [] },
  codes "Found " ++ type_name header_type ++ codes " after " ++ section_name st.section,
)

-- The state, and the error message or the empty text.
unfoldable pub check_next_include_order : HeaderType → IncludeState → IncludeState × Str
check_next_include_order c_sys_header st =
    if leb st.section c_section then (move_to c_section st, []) else order_error c_sys_header st
check_next_include_order cpp_sys_header st =
    if leb st.section cpp_section
    then (move_to cpp_section st, [])
    else order_error cpp_sys_header st
check_next_include_order likely_my_header st =
    (move_to (if leb st.section my_h_section then my_h_section else other_h_section) st, [])
check_next_include_order possible_my_header st =
    (move_to (if leb st.section my_h_section then my_h_section else other_h_section) st, [])
check_next_include_order other_header st = (move_to other_h_section st, [])
