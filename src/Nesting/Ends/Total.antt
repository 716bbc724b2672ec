-- ===== src/Nesting/Ends/Total.antt =====
-- `CheckEnd`: its indices.

use core_arbiter.Prelude.{
  get_elem?-some, ℕ, zero, suc, ◌+◌, ◌-◌, ◌<◌, ◌≡◌, inl, inr, Bool, false, not, ◌||◌, Option, none,
  some, List, [], ◌∷◌, arith, ltb, if◌then◌else◌, Bool-cases, length, get_elem?,
}
use core_arbiter.Str.{Str}
use core_arbiter.Regex.{Found, group_text, search_regex, matches}
use core_arbiter.Cleanse.Lines.{CleansedLines}
use core_arbiter.Nesting.Blocks.{
  ClassInfo, BlockClass, plain_block, extern_c, class_info, namespace_info, BlockInfo, or_empty,
}
use core_arbiter.Nesting.Ends.{
  disallow_macro, only_space, not_last_thing, disallow_loop, class_reports, check_class_end,
  check_namespace_end, check_end,
}
use core_arbiter.Prelude.Fallible.{Returns}
use core_arbiter.Report.{Report}

abbrev Done : Option (List Report) → Type 0
Done = Returns (λ r. Unit {0})

disallow_loop-Done :
    (filename : Str) (elided : List Str) (name : Str) (start k : ℕ) (seen : Bool)
    → start + k < length elided
    → Done (disallow_loop filename elided name start k seen)
unfolding disallow_loop
disallow_loop-Done filename elided name start zero seen h = tt
disallow_loop-Done filename elided name start (suc k) seen h =
    let (line, e) = get_elem?-some elided (start + suc k) h in
    rw (e, disallow_loop)
      (go line
        (disallow_loop-Done filename elided name start k (seen || not (matches only_space line))
          (omega arith))
        (search_regex (disallow_macro name) line))
  where
    go :
        (line : Str)
        → Done (disallow_loop filename elided name start k (seen || not (matches only_space line)))
        → (o : Option Found)
        → Done (elim o [
          | some m ↦ some (
              if seen
              then not_last_thing filename (start + suc k) (or_empty (group_text line m 1)) ∷ []
              else [])
          | none ↦
              disallow_loop filename elided name start k (seen || not (matches only_space line))
        ])
    go line ih none = ih
    go line ih (some m) = tt

class_reports-Done :
    (filename : Str) (linenum : ℕ) (c : ClassInfo) (line : Str) (o : Option (List Report))
    → Done o
    → Done (class_reports filename linenum c (some line) o)
class_reports-Done filename linenum c line none h = h
class_reports-Done filename linenum c line (some reports) h = tt

-- On a line of the file `CheckEnd` raises nothing.
pub check_end-Done :
    (filename : Str) (clean_lines : CleansedLines) (linenum : ℕ) (b : BlockInfo)
    → linenum < length clean_lines.elided
    → linenum < length clean_lines.raw_lines
    → Returns (λ (r : List Report). Unit {0}) (check_end filename clean_lines linenum b)
unfolding check_end check_class_end
check_end-Done filename clean_lines linenum b h k = go b.block_class
  where
    on_raw :
        (name : Str) (o : Option Str) (line : Str)
        → o ≡ some line
        → Done (elim o [
          | none ↦ none
          | some line ↦ some (check_namespace_end filename b.starting_linenum linenum name line)
        ])
    on_raw name none line e = absurd (ground arith)
    on_raw name (some l) line e = tt

    class_end :
        (c : ClassInfo)
        → Done (check_class_end filename clean_lines.elided b.starting_linenum linenum c)
    class_end c =
        let (line, e) = get_elem?-some clean_lines.elided linenum h in
        rw e (
          class_reports-Done filename linenum c line _
            (elim (Bool-cases (ltb b.starting_linenum linenum)) [
              | inl q ↦
                  disallow_loop-Done filename clean_lines.elided c.name b.starting_linenum
                    (linenum - 1 - b.starting_linenum) false (ground arith)
              | inr q ↦ let z : linenum - 1 - b.starting_linenum ≡ 0 = ground arith in rw z tt
            ]))

    go :
        (k : BlockClass)
        → Done (elim k [
          | class_info c ↦ check_class_end filename clean_lines.elided b.starting_linenum linenum c
          | namespace_info name ↦ elim (get_elem? clean_lines.raw_lines linenum) [
            | none ↦ none
            | some line ↦ some (check_namespace_end filename b.starting_linenum linenum name line)
          ]
          | _ ↦ some []
        ])
    go plain_block = tt
    go extern_c = tt
    go (class_info c) = class_end c
    go (namespace_info name) =
        let (line, e) = get_elem?-some clean_lines.raw_lines linenum k in on_raw name _ line e
