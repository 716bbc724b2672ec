-- ===== src/Nesting/Blocks.antt =====
-- The blocks and the state of `NestingState`, and its tests of the innermost block.

use core_arbiter.Prelude.Int.{ℤ, pos, ◌+ℤ◌, difference, is_int}
use core_arbiter.Prelude.{
  ℕ, ◌+◌, Bool, true, false, not, Option, none, some, List, [], ◌∷◌, ◌++◌, reverse, if◌then◌else◌,
  get_elem?, drop,
}
use core_arbiter.Str.{Str, codes, ◌=s◌, count}
use core_arbiter.Checks.File.{get_indent_level}
use core_arbiter.Cleanse.Lines.{CleansedLines}
use core_arbiter.Report.{Report}

-- `_NO_ASM`, `_INSIDE_ASM`, `_END_ASM` and `_BLOCK_ASM`
pub data Asm : Type 0 where
  no_asm inside_asm end_asm block_asm : Asm

-- The fields that only a `_ClassInfo` has.
pub record ClassInfo : Type 0 where
  pub name : Str
  pub is_derived : Bool
  pub access : Str
  pub is_struct : Bool
  pub class_indent : ℕ
  pub last_line : ℕ

-- The class of a block: `_BlockInfo`, `_ExternCInfo`, `_ClassInfo` or `_NamespaceInfo`.
pub data BlockClass : Type 0 where
  plain_block : BlockClass
  extern_c : BlockClass
  class_info : ClassInfo → BlockClass
  namespace_info : Str → BlockClass

-- The objects are told apart by `identity`.
pub record BlockInfo : Type 0 where
  pub identity : ℕ
  pub starting_linenum : ℕ
  pub seen_open_brace : Bool
  pub open_parentheses : ℤ
  pub inline_asm : Asm
  pub check_namespace_indentation : Bool
  pub block_class : BlockClass

pub record PreprocessorInfo : Type 0 where
  pub stack_before_if : List BlockInfo
  pub stack_before_else : List BlockInfo
  pub seen_else : Bool

-- The stacks have their top first. The source keeps in `previous_stack_top` the object itself; only
-- its class and its identity are read, which never change. `objects` counts the blocks made so far.
pub record NestingState : Type 0 where
  pub stack : List BlockInfo
  pub previous_stack_top : Option BlockInfo
  pub pp_stack : List PreprocessorInfo
  pub objects : ℕ

-- `__init__`; an empty list for `previous_stack_top` is false, as None is
abbrev pub initial_nesting_state : NestingState
initial_nesting_state = record { stack = []; previous_stack_top = none; pp_stack = []; objects = 0 }

-- `_BlockInfo(linenum, seen_open_brace)`
abbrev pub new_block : ℕ → ℕ → Bool → BlockInfo
new_block identity linenum seen_open_brace = record {
  identity = identity;
  starting_linenum = linenum;
  seen_open_brace = seen_open_brace;
  open_parentheses = pos 0;
  inline_asm = no_asm;
  check_namespace_indentation = false;
  block_class = plain_block;
}

-- `_ExternCInfo(linenum)`
abbrev pub new_extern_c : ℕ → ℕ → BlockInfo
new_extern_c identity linenum = record (new_block identity linenum true) { block_class = extern_c }

-- `name or ''`
abbrev pub or_empty : Option Str → Str
or_empty none = []
or_empty (some s) = s

-- `_NamespaceInfo(name, linenum)`
abbrev pub new_namespace : ℕ → Option Str → ℕ → BlockInfo
new_namespace identity name linenum = record (new_block identity linenum false) {
  check_namespace_indentation = true;
  block_class = namespace_info (or_empty name);
}

-- `for i in range(linenum, clean_lines.NumLines())`, over the lines that are left
unfoldable pub last_line_from : ℤ → ℕ → List Str → ℕ
unfolding count
last_line_from depth i [] = 0
last_line_from depth i (line ∷ lines) =
    let depth' = depth +ℤ difference (count line (codes "{")) (count line (codes "}")) in
    let rest = last_line_from depth' (i + 1) lines in if is_int 0 depth' then i else rest

-- `_ClassInfo(name, class_or_struct, clean_lines, linenum)`; `none` is an index out of range
unfoldable pub new_class : ℕ → Str → Str → CleansedLines → ℕ → Option BlockInfo
unfolding last_line_from get_indent_level
new_class identity name class_or_struct clean_lines linenum =
    elim (get_elem? clean_lines.raw_lines linenum) [
      | none ↦ none
      | some raw_line ↦ some (record (new_block identity linenum false) {
        check_namespace_indentation = true;
        block_class = class_info (record {
          name = name;
          is_derived = false;
          access = if class_or_struct =s codes "struct" then codes "public" else codes "private";
          is_struct = class_or_struct =s codes "struct";
          class_indent = get_indent_level raw_line;
          last_line = last_line_from (pos 0) linenum (drop linenum clean_lines.elided);
        });
      })
    ]

-- `SeenOpenBrace`, on the stack
unfoldable pub seen_open_brace_on : List BlockInfo → Bool
seen_open_brace_on [] = true
seen_open_brace_on (b ∷ stack) = b.seen_open_brace

unfoldable pub seen_open_brace : NestingState → Bool
unfolding seen_open_brace_on
seen_open_brace st = seen_open_brace_on st.stack

abbrev pub on_top : (BlockInfo → Bool) → List BlockInfo → Bool
on_top p [] = false
on_top p (b ∷ stack) = p b

abbrev pub is_namespace : BlockClass → Bool
is_namespace (namespace_info name) = true
is_namespace _ = false

abbrev pub is_extern_c : BlockClass → Bool
is_extern_c extern_c = true
is_extern_c _ = false

abbrev pub is_class : BlockClass → Bool
is_class (class_info c) = true
is_class _ = false

-- `IsBlockInfo`
abbrev pub is_block_info : BlockInfo → Bool
is_block_info b = elim b.block_class [ plain_block ↦ true | _ ↦ false ]

unfoldable pub in_namespace_body : NestingState → Bool
in_namespace_body st = on_top (λ b. is_namespace b.block_class) st.stack

unfoldable pub in_extern_c : NestingState → Bool
in_extern_c st = on_top (λ b. is_extern_c b.block_class) st.stack

unfoldable pub in_class_declaration : NestingState → Bool
in_class_declaration st = on_top (λ b. is_class b.block_class) st.stack

abbrev pub is_no_asm : Asm → Bool
is_no_asm no_asm = true
is_no_asm _ = false

unfoldable pub in_asm_block : NestingState → Bool
in_asm_block st = on_top (λ b. not (is_no_asm b.inline_asm)) st.stack

-- `InnermostClass`
unfoldable pub innermost_class_of : List BlockInfo → Option BlockInfo
innermost_class_of [] = none
innermost_class_of (b ∷ stack) = if is_class b.block_class then some b else innermost_class_of stack

unfoldable pub innermost_class : NestingState → Option BlockInfo
unfolding innermost_class_of
innermost_class st = innermost_class_of st.stack

abbrev pub incomplete : Str → ℕ → Str → Str → Str → Report
incomplete filename linenum category kind name = record {
  filename = filename;
  linenum = linenum;
  category = category;
  confidence = 5;
  message = codes "Failed to find complete declaration of " ++ kind ++ codes " " ++ name;
}

-- `CheckCompletedBlocks`, of one block and of the stack, which it reads from the bottom
unfoldable pub completed_block : Str → BlockInfo → List Report
completed_block filename obj = elim obj.block_class [
  | class_info c ↦
      incomplete filename obj.starting_linenum (codes "build/class") (codes "class") c.name ∷ []
  | namespace_info name ↦
      incomplete filename obj.starting_linenum (codes "build/namespaces") (codes "namespace") name
      ∷ []
  | _ ↦ []
]

unfoldable pub completed_blocks : Str → List BlockInfo → List Report
unfolding completed_block
completed_blocks filename [] = []
completed_blocks filename (obj ∷ stack) =
    completed_block filename obj ++ completed_blocks filename stack

unfoldable pub check_completed_blocks : Str → NestingState → List Report
unfolding completed_blocks
check_completed_blocks filename st = completed_blocks filename (reverse st.stack)
