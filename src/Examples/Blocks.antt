-- ===== src/Examples/Blocks.antt =====
-- Blocks of small files.

use core_arbiter.Prelude.{
  ℕ, ◌≡◌, refl, Option, none, some, List, [], ◌∷◌, ◌++◌, if◌then◌else◌, take,
}
use core_arbiter.Str.{Str, codes}
use core_arbiter.Cleanse.Lines.{CleansedLines}
use core_arbiter.Nesting.Blocks.{
  plain_block, extern_c, class_info, namespace_info, BlockInfo, initial_nesting_state,
}
use core_arbiter.Nesting.Update.{update_lines}
use core_arbiter.Prelude.{Bool, true, false, arith}
use core_arbiter.Nesting.Blocks.{PreprocessorInfo, NestingState, new_block}
use core_arbiter.Nesting.Preprocessor.{directive_of, update_preprocessor}
use core_arbiter.Nesting.Template.{in_template_argument_list}
use core_arbiter.Nesting.Template.Total.{in_template_argument_list-Returns}
use core_arbiter.Nesting.Update.Branches.{
  update_lines-Nested, Nested, Closes, plain_line, else_branch, finished, endif_line, if_block,
}
use core_arbiter.Nesting.Update.Restores.{anonymous, else_branches_restore}
use core_arbiter.Nesting.Update.Starts.{branches_start}
use core_arbiter.Nesting.Update.Tops.{no_more}
use core_arbiter.Report.{Report}
use core_arbiter.Prelude.{length}
use core_arbiter.Nesting.File.{prepare, block_reports}
use core_arbiter.Nesting.File.Total.{block_reports-prepare}
use core_arbiter.Prelude.Forall.{All}
use core_arbiter.Regex.Loops.{OneLine, one_line}
use core_arbiter.Nesting.Blocks.{new_namespace}
use core_arbiter.Nesting.Indentation.{indented_in_namespace, check_for_namespace_indentation}
use core_arbiter.Nesting.Indentation.Near.{NearReport, check_for_namespace_indentation-near}

abbrev first_branch : List Str
first_branch = codes " : public C {" ∷ []

abbrev last_branch : List Str
last_branch = codes "{ {" ∷ []

abbrev last_lines : List Str
last_lines = codes "  public: f(int x) { asm(\"y\"); }" ∷ codes "};  }  // x" ∷ []

abbrev branch_end : List Str
branch_end = codes "#else" ∷ (last_branch ++ codes "#endif" ∷ last_lines)

abbrev block_lines : List Str
block_lines = codes "namespace a { struct B" ∷ codes "#if X" ∷ (first_branch ++ branch_end)

abbrev file_of : List Str → CleansedLines
file_of lines = record {
  elided = lines;
  lines = lines;
  raw_lines = lines;
  num_lines = length lines;
  lines_without_raw_strings = lines;
}

abbrev block_file : CleansedLines
block_file = file_of block_lines

abbrev names_of : List BlockInfo → List Str
names_of [] = []
names_of (b ∷ stack) = elim b.block_class [
  | class_info c ↦ (c.name ++ c.access ++ (if c.is_derived then codes "!" else [])) ∷ names_of stack
  | namespace_info name ↦ name ∷ names_of stack
  | extern_c ↦ codes "extern" ∷ names_of stack
  | plain_block ↦ codes "block" ∷ names_of stack
]

abbrev names_after : ℕ → List Str → Option (List Str)
names_after n lines =
    elim (update_lines (codes "f") (file_of lines) 0 (take n lines) initial_nesting_state) [
      | none ↦ none
      | some r ↦ some (names_of r.0.stack)
    ]

inside_branch : names_after 5 block_lines ≡ some (codes "block" ∷ codes "Bpublic" ∷ codes "a" ∷ [])
unfolding update_lines
inside_branch = refl

after_branches : names_after 7 block_lines ≡ some (codes "Bpublic!" ∷ codes "a" ∷ [])
unfolding update_lines
after_branches = refl

after_all : names_after 8 block_lines ≡ some []
unfolding update_lines
after_all = refl

-- A class behind a namespace on the same line is taken for a template argument.
abbrev short_lines : List Str
short_lines = codes "namespace a { template <class T> class B {" ∷ []

missed_class : names_after 1 short_lines ≡ some (codes "block" ∷ codes "a" ∷ [])
unfolding update_lines
missed_class = refl

first_branch-Nested : Nested first_branch
unfolding directive_of
first_branch-Nested = plain_line (codes " : public C {") refl finished

last_branch-Nested : Nested last_branch
unfolding directive_of
last_branch-Nested = plain_line (codes "{ {") refl finished

last_lines-Nested : Nested last_lines
unfolding directive_of
last_lines-Nested =
    plain_line (codes "  public: f(int x) { asm(\"y\"); }") refl
      (plain_line (codes "};  }  // x") refl finished)

branch_end-Closes : Closes branch_end
unfolding directive_of
branch_end-Closes =
    else_branch (codes "#else") refl last_branch-Nested
      (endif_line (codes "#endif") refl last_lines-Nested)

block_lines-Nested : Nested block_lines
unfolding directive_of
block_lines-Nested =
    plain_line (codes "namespace a { struct B") refl
      (if_block (codes "#if X") refl first_branch-Nested branch_end-Closes)

update_lines-Nested_example :
    (r : NestingState × List Report) × (update_lines
        (codes "f")
        block_file
        0
        block_lines
        initial_nesting_state
      ≡ some r)
    × (r.0.pp_stack ≡ [])
update_lines-Nested_example =
    update_lines-Nested (codes "f") block_file 0 initial_nesting_state block_lines-Nested
      (omega arith, omega arith)

abbrev open_info : PreprocessorInfo
open_info = record { stack_before_if = []; stack_before_else = []; seen_else = false }

-- In the first branch of an #if, in a block.
abbrev open_state : NestingState
open_state = record {
  stack = new_block 0 1 true ∷ [];
  previous_stack_top = none;
  pp_stack = open_info ∷ [];
  objects = 1;
}

else_branches_restore_example :
    (r : NestingState × List Report) × (update_lines
        (codes "f")
        block_file
        3
        (codes "#else" ∷ (last_branch ++ []))
        open_state
      ≡ some r)
    × (anonymous (update_preprocessor (codes "#endif") r.0).stack ≡ new_block 0 1 true ∷ [])
    × ((update_preprocessor (codes "#endif") r.0).pp_stack ≡ [])
unfolding directive_of
else_branches_restore_example =
    else_branches_restore (codes "f") block_file 3 (codes "#else") (codes "#endif") open_state
      open_info [] refl refl refl last_branch-Nested no_more refl (omega arith, omega arith)

branches_start_example :
    (r : NestingState × List Report) × (update_lines
        (codes "f")
        block_file
        1
        (codes "#if X" ∷ (first_branch ++ []))
        open_state
      ≡ some r)
    × (anonymous (update_preprocessor (codes "#elif Y") r.0).stack ≡ new_block 0 1 true ∷ [])
unfolding directive_of
branches_start_example =
    branches_start (codes "f") block_file 1 (codes "#if X") (codes "#elif Y") open_state refl
      first_branch-Nested no_more refl (omega arith, omega arith)

in_template_argument_list-Returns_example :
    (b : Bool) × (in_template_argument_list block_lines 0 5 ≡ some b)
in_template_argument_list-Returns_example = in_template_argument_list-Returns block_lines 0 5

short_lines-OneLine : All OneLine short_lines
short_lines-OneLine = (one_line (codes "namespace a { template <class T> class B {") refl, tt)

block_reports-prepare_example :
    (p : CleansedLines × List Report) × (prepare (codes "f") short_lines ≡ some p)
    × (length p.0.elided ≡ 3)
    × (reports : List Report) × (block_reports (codes "f") p.0 ≡ some reports)
block_reports-prepare_example = block_reports-prepare (codes "f") short_lines short_lines-OneLine

abbrev inner_lines : List Str
inner_lines = codes "  namespace {" ∷ []

-- A namespace in a namespace that began on an earlier line.
abbrev inner_state : NestingState
inner_state = record {
  stack = new_namespace 1 none 0 ∷ new_namespace 0 none 0 ∷ [];
  previous_stack_top = some (new_namespace 0 none 0);
  pp_stack = [];
  objects = 2;
}

indented_run :
    check_for_namespace_indentation (codes "f") inner_state (file_of inner_lines) 0
    ≡ some (indented_in_namespace (codes "f") 0 ∷ [])
unfolding check_for_namespace_indentation
indented_run = refl

check_for_namespace_indentation-near_example :
    (reports : List Report) × (check_for_namespace_indentation
        (codes "f")
        inner_state
        (file_of inner_lines)
        0
      ≡ some reports)
    × NearReport (codes "f") inner_state inner_lines 0 reports
check_for_namespace_indentation-near_example =
    check_for_namespace_indentation-near (codes "f") inner_state (file_of inner_lines) 0
      (omega arith)
