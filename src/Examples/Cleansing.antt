-- ===== src/Examples/Cleansing.antt =====
-- The cleansing of lines on small files.

use core_arbiter.Prelude.{◌≡◌, refl, Option, none, some, List, [], ◌∷◌, ◌++◌, length}
use core_arbiter.Str.{Str, codes, find}
use core_arbiter.Cleanse.Collapse.{collapse_strings}
use core_arbiter.Cleanse.Collapse.Total.{collapse_strings-total}
use core_arbiter.Cleanse.Comments.{cleanse_comments}
use core_arbiter.Cleanse.Comments.Laws.{in_string, cleanse_comments-in_string}
use core_arbiter.Cleanse.Lines.{CleansedLines, cleansed_lines}
use core_arbiter.Cleanse.Lines.Same.{SameLength, cleansed_lines-SameLength}
use core_arbiter.Cleanse.MultiLine.{
  closes_comment, find_next_multi_line_comment_start, find_next_multi_line_comment_end, dummy,
  remove_multi_line_comments_from_range, no_end, remove_multi_line_comments, opens_comment,
}
use core_arbiter.Cleanse.MultiLine.OnePass.{outside}
use core_arbiter.Cleanse.MultiLine.Refines.{behind, remove_multi_line_comments-outside}
use core_arbiter.Cleanse.MultiLine.Result.{Cleared, remove_multi_line_comments-Cleared}
use core_arbiter.Cleanse.RawStrings.{closing, cleanse_raw_strings}
use core_arbiter.Cleanse.RawStrings.Spec.{has_raw, blanks, cleanse_raw_strings-raw_string}
use core_arbiter.Cleanse.RawStrings.Total.{cleanse_raw_strings-total}
use core_arbiter.Prelude.Forall.{All}
use core_arbiter.Regex.Loops.{OneLine}
use core_arbiter.Report.{Report}
use core_arbiter.Cleanse.RawStrings.Start.{raw_text, utf8}
use core_arbiter.Str.{rstrip}
use core_arbiter.Prelude.{false, if◌then◌else◌}
use core_arbiter.Regex.Loops.{one_line}

abbrev small_file : List Str
small_file = codes "int a = R\"x(1" ∷ codes "/* 'b' */ 2)x\"; // c" ∷ codes "f(\"d\");" ∷ []

small_file-OneLine : All OneLine small_file
small_file-OneLine = (
  one_line (codes "int a = R\"x(1") refl,
  (one_line (codes "/* 'b' */ 2)x\"; // c") refl, (one_line (codes "f(\"d\");") refl, tt)),
)

cleansed_lines-SameLength_example :
    (c : CleansedLines) × (cleansed_lines small_file ≡ some c) × SameLength small_file c
cleansed_lines-SameLength_example = cleansed_lines-SameLength small_file small_file-OneLine

abbrev commented : List Str
commented =
    codes "a" ∷ codes " /* b" ∷ codes "c" ∷ codes "d */ " ∷ codes "/* e */ f" ∷ codes "/* g" ∷ []

commented_run :
    remove_multi_line_comments (codes "f") commented
    ≡ some (
      codes "a" ∷ dummy ∷ dummy ∷ dummy ∷ codes "/* e */ f" ∷ codes "/* g" ∷ [],
      some (no_end (codes "f") 5),
    )
unfolding remove_multi_line_comments find_next_multi_line_comment_start
    find_next_multi_line_comment_end remove_multi_line_comments_from_range opens_comment
    closes_comment
commented_run = refl

remove_multi_line_comments-outside_example :
    remove_multi_line_comments (codes "f") commented
    ≡ some (behind (codes "f") [] (outside commented))
remove_multi_line_comments-outside_example =
    remove_multi_line_comments-outside (codes "f") commented

remove_multi_line_comments-Cleared_example :
    (r : List Str × Option Report) × (remove_multi_line_comments (codes "f") commented ≡ some r)
    × Cleared commented r
remove_multi_line_comments-Cleared_example =
    remove_multi_line_comments-Cleared (codes "f") commented

raw_run :
    cleanse_raw_strings (codes "a = R\"x(b\"c)x\" + 1; // d" ∷ [])
    ≡ some (codes "a = \"\" + 1; // d" ∷ [])
unfolding cleanse_raw_strings
raw_run = refl

cleanse_raw_strings-total_example :
    (out : List Str) × (cleanse_raw_strings small_file ≡ some out)
    × (length out ≡ length small_file)
cleanse_raw_strings-total_example = cleanse_raw_strings-total small_file

not_closed : find (codes "(b)\"") (closing (codes "x")) ≡ none
unfolding find
not_closed = refl

not_closed_in_body : find (codes "  zz)") (closing (codes "x")) ≡ none
unfolding find
not_closed_in_body = refl

closed : find (codes "  c )x\" + 1;") (closing (codes "x")) ≡ some 4
unfolding find
closed = refl

plain_end : has_raw (codes " + 1;") ≡ false
unfolding has_raw
plain_end = refl

plain_line : has_raw (codes "f(\"d\");") ≡ false
unfolding has_raw
plain_line = refl

cleanse_raw_strings-raw_string_example :
    cleanse_raw_strings (
      (codes "int a = " ++ raw_text utf8 (codes "x") (codes "(b)\""))
      ∷ ((codes "  zz)" ∷ []) ++ codes "  c )x\" + 1;" ∷ (codes "f(\"d\");" ∷ [])))
    ≡ some (
        (codes "int a = " ++ codes "\"\"")
        ∷ (blanks (codes "  zz)" ∷ [])
            ++ (codes "  " ++ codes "\"\"" ++ codes " + 1;") ∷ (codes "f(\"d\");" ∷ [])))
cleanse_raw_strings-raw_string_example =
    cleanse_raw_strings-raw_string utf8 (codes "int a = ") (codes "x") (codes "(b)\"")
      (codes "  zz)" ∷ []) (codes "  ") (codes " )x\" + 1;") b'c' 4 (codes "f(\"d\");" ∷ []) refl
      refl refl (one_line (codes "int a = ") refl) refl (one_line (codes "(b)\"") refl) not_closed
      (not_closed_in_body, tt) refl refl closed plain_end (plain_line, tt)

comments_run : cleanse_comments (codes "f(a, /* b */ c);  // d \"e") ≡ codes "f(a, c);"
unfolding cleanse_comments
comments_run = refl

comment_in_string : cleanse_comments (codes "s = \"//\"; /* x */ ") ≡ codes "s = \"//\";"
unfolding cleanse_comments
comment_in_string = refl

cleanse_comments-in_string_example :
    cleanse_comments (codes "s = \"http:" ++ (codes "//" ++ codes "a\";")) ≡ (
      if in_string false (codes "s = \"http:")
      then codes "s = \"http:" ++ (codes "//" ++ codes "a\";")
      else rstrip (codes "s = \"http:"))
cleanse_comments-in_string_example =
    cleanse_comments-in_string (codes "s = \"http:") (codes "a\";")
      (refl, (refl, (refl, (refl, (refl, (refl, (refl, (refl, (refl, (refl, tt))))))))))
      (refl, (refl, (refl, tt)))

collapse_run :
    collapse_strings (codes "f(\"a\\\"b\", 'c', 1'000'0x, \"d")
    ≡ some (codes "f(\"\", '', 10000x, \"d")
unfolding collapse_strings
collapse_run = refl

collapse_strings-total_example :
    (out : Str) × (collapse_strings (codes "f(\"a\", 'c', 1'000);") ≡ some out)
collapse_strings-total_example =
    collapse_strings-total (codes "f(\"a\", 'c', 1'000);")
      (one_line (codes "f(\"a\", 'c', 1'000);") refl)
