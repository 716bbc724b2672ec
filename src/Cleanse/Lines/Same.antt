-- ===== src/Cleanse/Lines/Same.antt =====
-- The lengths of the lists of a `CleansedLines`.

use core_arbiter.Prelude.{suc, ◌≡◌, refl, ap, ◌∙◌, false, some, List, [], ◌∷◌, ◌==◌, length}
use core_arbiter.Str.{Str}
use core_arbiter.Cleanse.Collapse.Total.{collapse_strings-total}
use core_arbiter.Cleanse.Comments.{cleanse_comments}
use core_arbiter.Cleanse.Lines.{CleansedLines, cleanse_each, cleansed_lines}
use core_arbiter.Cleanse.RawStrings.Chars.{OutAll, cleanse_raw_strings-All}
use core_arbiter.Cleanse.RawStrings.Total.{cleanse_raw_strings-total}
use core_arbiter.Prelude.Forall.{All}
use core_arbiter.Regex.Loops.{OneLine}

record Copies (plain : List Str) : Type 0 where
  lines : List Str
  elided : List Str
  ran : cleanse_each plain ≡ some (lines, elided)
  length_lines : length lines ≡ length plain
  length_elided : length elided ≡ length plain

cleanse_each-Copies : (plain : List Str) → All OneLine plain → Copies plain
unfolding cleanse_each
cleanse_each-Copies [] h = record {
  lines = [];
  elided = [];
  ran = refl;
  length_lines = refl;
  length_elided = refl;
}
cleanse_each-Copies (line ∷ plain) h =
    let (collapsed, e) = collapse_strings-total line h.0 in
    let r : Copies plain = cleanse_each-Copies plain h.1 in
    record {
      lines = cleanse_comments line ∷ r.lines;
      elided = cleanse_comments collapsed ∷ r.elided;
      ran = rw (e, r.ran, cleanse_each);
      length_lines = ap suc r.length_lines;
      length_elided = ap suc r.length_elided;
    }

-- What the class says of itself: all four lists have the length of the file.
pub record SameLength (raw : List Str) (c : CleansedLines) : Type 0 where
  pub raw_is : c.raw_lines ≡ raw
  pub num_lines_is : c.num_lines ≡ length raw
  pub without_raw_strings : length c.lines_without_raw_strings ≡ length raw
  pub lines : length c.lines ≡ length raw
  pub elided : length c.elided ≡ length raw

-- For lines without a newline in them the constructor of `CleansedLines` returns, and its four lists
-- have the length that `NumLines` gives, which is that of the input.
pub cleansed_lines-SameLength :
    (raw : List Str)
    → All OneLine raw
    → (c : CleansedLines) × (cleansed_lines raw ≡ some c) × SameLength raw c
unfolding cleansed_lines
cleansed_lines-SameLength raw h =
    let (plain, e, len) = cleanse_raw_strings-total raw in
    let nl : OutAll (λ c. (c == b'\n') ≡ false) refl (some plain) =
      rw e at (cleanse_raw_strings-All (λ c. (c == b'\n') ≡ false) refl raw h) in
    let r : Copies plain = cleanse_each-Copies plain nl in
    let c : CleansedLines = record {
      elided = r.elided;
      lines = r.lines;
      raw_lines = raw;
      num_lines = length raw;
      lines_without_raw_strings = plain;
    } in
    (
      c,
      rw (e, cleansed_lines) (rw (r.ran)),
      record {
        raw_is = refl;
        num_lines_is = refl;
        without_raw_strings = len;
        lines = r.length_lines ∙ len;
        elided = r.length_elided ∙ len;
      },
    )
