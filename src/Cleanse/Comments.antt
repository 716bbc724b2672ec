-- ===== src/Cleanse/Comments.antt =====
-- `IsCppString` and `CleanseComments`: `//` comments and `/* */` comments within a line.
pub mod Laws
use core_arbiter.Prelude.{◌+◌, ◌%◌, ◌≡◌, refl, Bool, not, none, some, [], ◌==◌, if◌then◌else◌, take}
use core_arbiter.Str.{Str, codes, find, count, replace, rstrip}
use core_arbiter.Regex.{
  Regex, one_of, either, star, at_end, ahead, not_ahead, is_word, char, none_of, space, plus, text,
  ◌⨾◌, sub,
}

-- `IsCppString`. The three counts are subtracted in the source; the parity of the difference is that
-- of the sum, also where the difference is negative.
unfoldable pub is_cpp_string : Str → Bool
unfolding replace count
is_cpp_string line =
    let l = replace line (codes "\\\\") (codes "XX") in
    (count l (codes "\"") + count l (codes "\\\"") + count l (codes "'\"'")) % 2 == 1

-- `_RE_PATTERN_C_COMMENTS`: `/\*(?:[^*]|\*(?!/))*\*/`
abbrev pub c_comment : Regex
c_comment =
    text (codes "/*")
    ⨾ star (either (none_of (codes "*")) (char b'*' ⨾ not_ahead (char b'/')))
    ⨾ text (codes "*/")

-- `_RE_PATTERN_CLEANSE_LINE_C_COMMENTS`; its group is not read
abbrev pub line_c_comments : Regex
line_c_comments = either (star space ⨾ c_comment ⨾ star space ⨾ at_end) (
    either (c_comment ⨾ plus space)
      (either (plus space ⨾ c_comment ⨾ ahead (one_of (λ c. not (is_word c)))) c_comment))

-- The line up to a `//` that does not stand in a string.
unfoldable pub cut_line_comment : Str → Str
unfolding find rstrip is_cpp_string
cut_line_comment line = elim (find line (codes "//")) [
  | none ↦ line
  | some pos ↦ if is_cpp_string (take pos line) then line else rstrip (take pos line)
]

unfoldable pub cleanse_comments : Str → Str
unfolding cut_line_comment sub
cleanse_comments line = sub line_c_comments [] (cut_line_comment line)
