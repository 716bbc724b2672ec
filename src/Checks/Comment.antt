-- ===== src/Checks/Comment.antt =====
-- `CheckComment`.

use core_arbiter.Prelude.{
  ℕ, ◌-◌, ◌%◌, String, Bool, false, not, ◌&&◌, ◌||◌, Option, none, some, List, [], ◌∷◌, ◌++◌, ltb,
  leb, ◌==◌, if◌then◌else◌, length, get_elem?, take, drop, is_empty,
}
use core_arbiter.Str.{Str, codes, ◌=s◌, find, count}
use core_arbiter.Regex.{
  Regex, one_of, either, star, lazy_star, group, at_start, at_end, is_word, is_blank, char,
  any_char, none_of, space, plus, opt, text, ◌⨾◌, group_text, match, sub, matches,
}
use core_arbiter.Report.{Report}

-- `^//(\s*)TODO(\(.+?\))?:?(\s|$)?`
abbrev pub todo : Regex
todo =
    at_start
    ⨾ text (codes "//")
    ⨾ group 1 (star space)
    ⨾ text (codes "TODO")
    ⨾ opt (group 2 (char b'(' ⨾ any_char ⨾ lazy_star any_char ⨾ char b')'))
    ⨾ opt (char b':')
    ⨾ opt (group 3 (either space at_end))

-- `\\.`
abbrev pub escaped : Regex
escaped = char b'\\' ⨾ any_char

-- `^.*{ *//`
abbrev pub scope_comment : Regex
scope_comment = at_start ⨾ star any_char ⨾ char b'{' ⨾ star (char b' ') ⨾ text (codes "//")

-- `//[^ ]*\w` and `(///|//\!)(\s+|$)`
abbrev pub no_space : Regex
no_space = text (codes "//") ⨾ star (none_of (codes " ")) ⨾ one_of is_word

abbrev pub doxygen : Regex
doxygen =
    group 1 (either (text (codes "///")) (text (codes "//!")))
    ⨾ group 2 (either (plus space) at_end)

abbrev pub comment_report : Str → ℕ → String → ℕ → String → Report
comment_report filename linenum category confidence message = record {
  filename = filename;
  linenum = linenum;
  category = codes category;
  confidence = confidence;
  message = codes message;
}

-- `commentpos >= n and line[commentpos - n] not in string.whitespace`
abbrev pub ink_at : Str → ℕ → ℕ → Bool
ink_at line commentpos n =
    if leb n commentpos
    then elim (get_elem? line (commentpos - n)) [ none ↦ false | some c ↦ not (is_blank c) ]
    else false

abbrev pub two_spaces : Str → Str → ℕ → ℕ → ℕ → List Report
two_spaces line filename linenum next_line_start commentpos =
    if not (matches scope_comment line && next_line_start == commentpos)
      && (ink_at line commentpos 1 || ink_at line commentpos 2)
    then comment_report filename linenum "whitespace/comments" 2
        "At least two spaces is best between code and comments"
      ∷ []
    else []

-- The groups of a match of `todo`; `none` is Python's None.
abbrev pub todo_reports : Str → ℕ → Option Str → Option Str → Option Str → List Report
todo_reports filename linenum leading_whitespace username middle_whitespace =
    (elim leading_whitespace [
      | none ↦ []
      | some s ↦
          if ltb 1 (length s)
          then comment_report filename linenum "whitespace/todo" 2 "Too many spaces before TODO"
            ∷ []
          else []
    ])
    ++ ((elim username [
      | none ↦
          comment_report filename linenum "readability/todo" 2
            "Missing username in TODO; it should look like \"// TODO(my_username): Stuff.\""
          ∷ []
      | some s ↦ []
    ])
        ++ (elim middle_whitespace [
          | none ↦
              comment_report filename linenum "whitespace/todo" 2
                "TODO(my_username) should be followed by a space"
              ∷ []
          | some s ↦
              if not (s =s codes " ") && not (is_empty s)
              then comment_report filename linenum "whitespace/todo" 2
                  "TODO(my_username) should be followed by a space"
                ∷ []
              else []
        ]))

unfoldable pub todo_of : Str → ℕ → Str → List Report
unfolding match
todo_of filename linenum comment = elim (match todo comment) [
  | none ↦ []
  | some m ↦
      todo_reports filename linenum (group_text comment m 1) (group_text comment m 2)
        (group_text comment m 3)
]

abbrev pub space_after : Str → ℕ → Str → List Report
space_after filename linenum comment =
    if matches no_space comment && not (matches doxygen comment)
    then comment_report filename linenum "whitespace/comments" 4
        "Should have a space between // and comment"
      ∷ []
    else []

unfoldable pub check_comment : Str → Str → ℕ → ℕ → List Report
unfolding find count sub match todo_of
check_comment line filename linenum next_line_start = elim (find line (codes "//")) [
  | none ↦ []
  | some commentpos ↦
      if count (sub escaped [] (take commentpos line)) (codes "\"") % 2 == 0
      then two_spaces line filename linenum next_line_start commentpos
        ++ (todo_of filename linenum (drop commentpos line)
            ++ space_after filename linenum (drop commentpos line))
      else []
]
