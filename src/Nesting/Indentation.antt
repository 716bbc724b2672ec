-- ===== src/Nesting/Indentation.antt =====
-- `CheckForNamespaceIndentation` and the functions that it calls.
pub mod Near
use core_arbiter.Prelude.{
  ℕ, Bool, true, false, not, ◌&&◌, ◌||◌, Option, none, some, List, [], ◌∷◌, ◌==◌, if◌then◌else◌,
}
use core_arbiter.Str.{Str, codes}
use core_arbiter.Regex.{Regex, at_start, space, plus, ◌⨾◌, match, matches}
use core_arbiter.Checks.Line.{at_line, is_macro_definition, is_forward_class_declaration}
use core_arbiter.Cleanse.Lines.{CleansedLines}
use core_arbiter.Nesting.Blocks.{BlockInfo, NestingState, is_namespace}
use core_arbiter.Prelude.Fallible.{◌>>=◌}
use core_arbiter.Report.{Report}

-- The second test is `==` of two objects, which tells them by their identity.
abbrev pub is_object : Option BlockInfo → BlockInfo → Bool
is_object none b = false
is_object (some p) b = is_namespace p.block_class && p.identity == b.identity

-- `is_namespace_indent_item` in `CheckForNamespaceIndentation`
unfoldable pub is_namespace_indent_item : NestingState → Bool
is_namespace_indent_item st = elim st.stack [
  | [] ↦ false
  | b ∷ rest ↦ elim rest [
    | [] ↦ false
    | c ∷ more ↦ b.check_namespace_indentation && is_object st.previous_stack_top c
  ]
]

abbrev pub top_is_namespace : List BlockInfo → Bool
top_is_namespace [] = false
top_is_namespace (b ∷ stack) = is_namespace b.block_class

abbrev pub second_is_namespace : List BlockInfo → Bool
second_is_namespace [] = false
second_is_namespace (b ∷ stack) = b.check_namespace_indentation && top_is_namespace stack

unfoldable pub is_block_in_name_space : NestingState → Bool → Bool
is_block_in_name_space st is_forward_declaration =
    if is_forward_declaration then top_is_namespace st.stack else second_is_namespace st.stack

-- The test for a macro is made only for an item or a forward declaration.
unfoldable pub should_check_namespace_indentation : NestingState → Bool → List Str → ℕ → Option Bool
unfolding is_forward_class_declaration is_macro_definition is_block_in_name_space
should_check_namespace_indentation st is_namespace_indent_item raw_lines_no_comments linenum = do
  is_forward_declaration ← is_forward_class_declaration raw_lines_no_comments linenum
  in_macro ←
      (if is_namespace_indent_item || is_forward_declaration
        then is_macro_definition raw_lines_no_comments linenum
        else some true)
  some (not in_macro && is_block_in_name_space st is_forward_declaration)

-- `^\s+`
abbrev pub leading_space : Regex
leading_space = at_start ⨾ plus space

abbrev pub indented_in_namespace : Str → ℕ → Report
indented_in_namespace filename linenum = record {
  filename = filename;
  linenum = linenum;
  category = codes "runtime/indentation_namespace";
  confidence = 4;
  message = codes "Do not indent within a namespace";
}

unfoldable pub check_item_indentation_in_namespace : Str → List Str → ℕ → Option (List Report)
unfolding match
check_item_indentation_in_namespace filename raw_lines_no_comments linenum =
    at_line raw_lines_no_comments linenum (λ line.
      if matches leading_space line then indented_in_namespace filename linenum ∷ [] else [])

unfoldable pub check_for_namespace_indentation :
    Str → NestingState → CleansedLines → ℕ → Option (List Report)
unfolding is_namespace_indent_item should_check_namespace_indentation
    check_item_indentation_in_namespace
check_for_namespace_indentation filename st clean_lines line = do
  checked ←
      should_check_namespace_indentation st (is_namespace_indent_item st) clean_lines.elided line
  (if checked
      then check_item_indentation_in_namespace filename clean_lines.elided line
      else some [])
