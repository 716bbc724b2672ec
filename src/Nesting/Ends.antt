-- ===== src/Nesting/Ends.antt =====
-- `CheckBegin` and `CheckEnd` of the four classes of blocks.
pub mod Total
use core_arbiter.Prelude.{
  ℕ, zero, suc, ◌+◌, ◌-◌, Bool, true, false, not, ◌&&◌, ◌||◌, Option, none, some, List, [], ◌∷◌,
  ◌++◌, ltb, ◌==◌, if◌then◌else◌, length, get_elem?,
}
use core_arbiter.Str.{Str, codes, char_in}
use core_arbiter.Regex.{
  Regex, one_of, either, star, group, at_start, at_end, word_boundary, is_blank, char, any_char,
  none_of, space, plus, text, ◌⨾◌, group_text, match, search_regex, matches, is_found,
}
use core_arbiter.Cleanse.Lines.{CleansedLines}
use core_arbiter.Nesting.Blocks.{ClassInfo, class_info, namespace_info, BlockInfo, or_empty}
use core_arbiter.Report.{Report}

-- `(^|[^:]):($|[^:])`; its groups are not read
abbrev pub bare_colon : Regex
bare_colon = either at_start (none_of (codes ":")) ⨾ char b':' ⨾ either at_end (none_of (codes ":"))

-- `CheckBegin`, given the line `clean_lines.elided[linenum]`
unfoldable pub check_begin : Str → BlockInfo → BlockInfo
unfolding search_regex
check_begin line b = elim b.block_class [
  | class_info c ↦
      if is_found bare_colon line
      then record b { block_class = class_info (record c { is_derived = true }) }
      else b
  | _ ↦ b
]

-- `\b(DISALLOW_COPY_AND_ASSIGN|DISALLOW_IMPLICIT_CONSTRUCTORS)\(NAME\)`; a class name has only
-- characters that stand for themselves in a pattern
abbrev pub disallow_macro : Str → Regex
disallow_macro name =
    word_boundary
    ⨾ group 1 (
        either (text (codes "DISALLOW_COPY_AND_ASSIGN"))
          (text (codes "DISALLOW_IMPLICIT_CONSTRUCTORS")))
    ⨾ text (codes "(" ++ name ++ codes ")")

-- `^\s*$`
abbrev pub only_space : Regex
only_space = at_start ⨾ star space ⨾ at_end

abbrev pub not_last_thing : Str → ℕ → Str → Report
not_last_thing filename linenum macro = record {
  filename = filename;
  linenum = linenum;
  category = codes "readability/constructors";
  confidence = 3;
  message = macro ++ codes " should be the last thing in the class";
}

-- `for i in xrange(linenum - 1, self.starting_linenum, -1)`: the lines behind the first of the class,
-- with how many there are, the last one first; `none` is an index out of range.
unfoldable pub disallow_loop : Str → List Str → Str → ℕ → ℕ → Bool → Option (List Report)
unfolding search_regex match
disallow_loop filename elided name start zero seen = some []
disallow_loop filename elided name start (suc k) seen = elim (get_elem? elided (start + suc k)) [
  | none ↦ none
  | some line ↦ elim (search_regex (disallow_macro name) line) [
    | some m ↦ some (
        if seen
        then not_last_thing filename (start + suc k) (or_empty (group_text line m 1)) ∷ []
        else [])
    | none ↦ disallow_loop filename elided name start k (seen || not (matches only_space line))
  ]
]

-- `^( *)\}`
abbrev pub closing_indent : Regex
closing_indent = at_start ⨾ group 1 (star (char b' ')) ⨾ char b'}'

abbrev pub parent_name : ClassInfo → Str
parent_name c = if c.is_struct then codes "struct " ++ c.name else codes "class " ++ c.name

abbrev pub misaligned : Str → ℕ → ClassInfo → Report
misaligned filename linenum c = record {
  filename = filename;
  linenum = linenum;
  category = codes "whitespace/indent";
  confidence = 3;
  message = codes "Closing brace should be aligned with beginning of " ++ parent_name c;
}

-- The second half of `_ClassInfo.CheckEnd`.
unfoldable pub check_alignment : Str → ℕ → ClassInfo → Str → List Report
unfolding match
check_alignment filename linenum c line = elim (match closing_indent line) [
  | none ↦ []
  | some m ↦
      if length (or_empty (group_text line m 1)) == c.class_indent
      then []
      else misaligned filename linenum c ∷ []
]

abbrev pub class_reports :
    Str → ℕ → ClassInfo → Option Str → Option (List Report) → Option (List Report)
class_reports filename linenum c line none = none
class_reports filename linenum c none (some reports) = none
class_reports filename linenum c (some line) (some reports) =
    some (reports ++ check_alignment filename linenum c line)

-- `_ClassInfo.CheckEnd`, for a block that begins on line `start`.
unfoldable pub check_class_end : Str → List Str → ℕ → ℕ → ClassInfo → Option (List Report)
unfolding disallow_loop check_alignment
check_class_end filename elided start linenum c =
    class_reports filename linenum c (get_elem? elided linenum)
      (disallow_loop filename elided c.name start (linenum - 1 - start) false)

-- `^\s*};*\s*(//|/\*)`, with which the patterns on the end of a namespace begin
abbrev pub end_comment : Regex
end_comment =
    at_start
    ⨾ star space
    ⨾ char b'}'
    ⨾ star (char b';')
    ⨾ star space
    ⨾ group 1 (either (text (codes "//")) (text (codes "/*")))

-- `^\s*};*\s*(//|/\*).*\bnamespace\b`
abbrev pub any_namespace_end : Regex
any_namespace_end =
    end_comment ⨾ star any_char ⨾ word_boundary ⨾ text (codes "namespace") ⨾ word_boundary

-- `[\*/\.\\\s]*$`
abbrev pub comment_tail : Regex
comment_tail = star (one_of (λ c. char_in c (codes "*/.\\") || is_blank c)) ⨾ at_end

-- `^\s*};*\s*(//|/\*).*\bnamespace\s+NAME[\*/\.\\\s]*$`, with the name escaped
abbrev pub named_end : Str → Regex
named_end name =
    end_comment
    ⨾ star any_char
    ⨾ word_boundary
    ⨾ text (codes "namespace")
    ⨾ plus space
    ⨾ text name
    ⨾ comment_tail

-- `^\s*};*\s*(//|/\*).*\bnamespace[\*/\.\\\s]*$`
abbrev pub anonymous_end : Regex
anonymous_end =
    end_comment ⨾ star any_char ⨾ word_boundary ⨾ text (codes "namespace") ⨾ comment_tail

-- `^\s*}.*\b(namespace anonymous|anonymous namespace)\b`
abbrev pub says_anonymous : Regex
says_anonymous =
    at_start
    ⨾ star space
    ⨾ char b'}'
    ⨾ star any_char
    ⨾ word_boundary
    ⨾ group 1 (either (text (codes "namespace anonymous")) (text (codes "anonymous namespace")))
    ⨾ word_boundary

abbrev pub bad_namespace_end : Str → ℕ → Str → Report
bad_namespace_end filename linenum message = record {
  filename = filename;
  linenum = linenum;
  category = codes "readability/namespace";
  confidence = 5;
  message = message;
}

-- The part of `_NamespaceInfo.CheckEnd` behind its guard; an empty name is false.
unfoldable pub namespace_comment : Str → ℕ → Str → Str → List Report
unfolding match
namespace_comment filename linenum [] line =
    if matches anonymous_end line
    then []
    else if matches says_anonymous line
    then bad_namespace_end filename linenum (
        codes "Anonymous namespace should be terminated with \"// namespace\""
        ++ codes " or \"// anonymous namespace\"")
      ∷ []
    else bad_namespace_end filename linenum
        (codes "Anonymous namespace should be terminated with \"// namespace\"")
      ∷ []
namespace_comment filename linenum (c ∷ name) line =
    if matches (named_end (c ∷ name)) line
    then []
    else bad_namespace_end filename linenum
        (codes "Namespace should be terminated with \"// namespace " ++ (c ∷ name) ++ codes "\"")
      ∷ []

-- `_NamespaceInfo.CheckEnd`, given the line `clean_lines.raw_lines[linenum]`. The end of a block is on
-- no line before its start.
unfoldable pub check_namespace_end : Str → ℕ → ℕ → Str → Str → List Report
unfolding namespace_comment match
check_namespace_end filename start linenum name line =
    if ltb linenum (start + 10) && not (matches any_namespace_end line)
    then []
    else namespace_comment filename linenum name line

-- `CheckEnd`
unfoldable pub check_end : Str → CleansedLines → ℕ → BlockInfo → Option (List Report)
unfolding check_class_end check_namespace_end
check_end filename clean_lines linenum b = elim b.block_class [
  | class_info c ↦ check_class_end filename clean_lines.elided b.starting_linenum linenum c
  | namespace_info name ↦ elim (get_elem? clean_lines.raw_lines linenum) [
    | none ↦ none
    | some line ↦ some (check_namespace_end filename b.starting_linenum linenum name line)
  ]
  | _ ↦ some []
]
