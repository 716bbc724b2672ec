-- ===== src/Checks/Functions.antt =====
-- `CheckForFunctionLengths`.

use core_arbiter.FunctionState.{FunctionState, begin, end, check, count_line}
use core_arbiter.Prelude.{
  ℕ, Bool, false, not, ◌||◌, Option, none, some, List, [], ◌∷◌, ◌++◌, reverse, ◌==◌, if◌then◌else◌,
  get_elem?, drop,
}
use core_arbiter.Str.{Str, codes, ◌=s◌, is_space, lstrip}
use core_arbiter.Regex.{
  Regex, one_of, either, star, group, at_start, at_end, is_upper, is_word, char, any_char, any_of,
  space, plus, text, ◌⨾◌, group_text, match, search_regex, matches, is_found,
}
use core_arbiter.Report.{Report}

-- `(\w(\w|::|\*|\&|\s)*)\(`
abbrev pub declaration : Regex
declaration =
    group 1 (
      one_of is_word
      ⨾ star (
          group 2 (
            either (one_of is_word)
              (either (text (codes "::")) (either (char b'*') (either (char b'&') space))))))
    ⨾ char b'('

-- `[A-Z_]+$`
abbrev pub all_caps : Regex
all_caps = plus (one_of (λ c. is_upper c || c == b'_')) ⨾ at_end

-- `((\w|:)*)\(`
abbrev pub called_name : Regex
called_name = group 1 (star (group 2 (either (one_of is_word) (char b':')))) ⨾ char b'('

-- `(\(.*\))`
abbrev pub parameters : Regex
parameters = group 1 (char b'(' ⨾ star any_char ⨾ char b')')

-- `^\}\s*$` and `^\s*$`
abbrev pub function_end : Regex
function_end = at_start ⨾ char b'}' ⨾ star space ⨾ at_end

abbrev pub blank : Regex
blank = at_start ⨾ star space ⨾ at_end

abbrev pub up_to_space : Str → Str
up_to_space [] = []
up_to_space (c ∷ s) = if is_space c then [] else c ∷ up_to_space s

-- `s.split()[-1]` for a text with a character that is no space
unfoldable pub last_word_of : Str → Str
unfolding lstrip
last_word_of s = reverse (up_to_space (lstrip (reverse s)))

abbrev pub starts_function : Str → Bool
starts_function name = name =s codes "TEST" || name =s codes "TEST_F" || not (matches all_caps name)

abbrev pub is_starting : Str → Bool
is_starting line = elim (match declaration line) [
  | none ↦ false
  | some m ↦ elim (group_text line m 1) [
    | none ↦ false
    | some name ↦ starts_function (last_word_of name)
  ]
]

-- `re.search(pattern, s).group(1)`; `none` is a missing match
abbrev pub first_group : Regex → Str → Option Str
first_group r s = elim (search_regex r s) [ none ↦ none | some m ↦ group_text s m 1 ]

abbrev pub with_parameters : Str → Option Str → Str
with_parameters function none = function
with_parameters function (some s) = function ++ s

abbrev pub full_name : Str → Str → Str
full_name function joined_line =
    if matches (text (codes "TEST")) function
    then with_parameters function (first_group parameters joined_line)
    else function ++ codes "()"

abbrev pub no_body : Str → ℕ → Report
no_body filename linenum = record {
  filename = filename;
  linenum = linenum;
  category = codes "readability/fn_size";
  confidence = 5;
  message = codes "Lint failed to find start of function body.";
}

-- `for start_linenum in xrange(linenum, clean_lines.NumLines())`, over the lines that are left
unfoldable pub find_body :
    Str → ℕ → Str → Str → List Str → FunctionState → Option (FunctionState × List Report)
unfolding search_regex match lstrip
find_body filename linenum line joined_line [] fs = some (fs, no_body filename linenum ∷ [])
find_body filename linenum line joined_line (start_line ∷ later) fs =
    let joined = joined_line ++ codes " " ++ lstrip start_line in
    let rest = find_body filename linenum line joined later fs in
    if is_found (any_of (codes ";}")) start_line
    then some (fs, [])
    else if is_found (char b'{') start_line
    then (elim (first_group called_name line) [
      | none ↦ none
      | some function ↦ some (begin (full_name function joined) fs, [])
    ])
    else rest

unfoldable pub check_for_function_lengths :
    Str → List Str → ℕ → ℕ → FunctionState → Option (FunctionState × List Report)
unfolding find_body match last_word_of
check_for_function_lengths filename lines linenum verbose_level fs =
    elim (get_elem? lines linenum) [
      | none ↦ none
      | some line ↦
          if is_starting line
          then find_body filename linenum line [] (drop linenum lines) fs
          else if matches function_end line
          then some (end fs, check fs filename linenum verbose_level)
          else if not (matches blank line)
          then some (count_line fs, [])
          else some (fs, [])
    ]
