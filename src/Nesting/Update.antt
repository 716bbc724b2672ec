-- ===== src/Nesting/Update.antt =====
-- `NestingState.Update`, in the parts that its comments name. `none` is an exception, or fuel that
-- ran out.
pub mod Rounds
pub mod Runs
pub mod Branches
pub mod Tops
pub mod Starts
pub mod Restores
pub mod Classes
pub mod Total
use core_arbiter.Prelude.{true, false}
use core_arbiter.Prelude.{
  ℕ, zero, suc, ◌+◌, Bool, true, not, ◌&&◌, ◌||◌, Option, none, some, List, [], ◌∷◌, ◌++◌, ◌==◌,
  if◌then◌else◌, length, get_elem?, drop,
}
use core_arbiter.Str.{Str, codes, char_in, find, count, ◌=s◌}
use core_arbiter.Regex.{
  Regex, one_of, either, star, group, at_start, at_end, word_boundary, is_upper, is_word, is_blank,
  char, any_char, any_of, none_of, space, plus, opt, text, ◌⨾◌, group_text, match, matches,
}
use core_arbiter.Cleanse.Lines.{CleansedLines}
use core_arbiter.Nesting.Blocks.{
  Asm, no_asm, inside_asm, end_asm, block_asm, ClassInfo, class_info, BlockInfo, NestingState,
  or_empty, new_namespace, new_class, seen_open_brace, new_extern_c, new_block,
}
use core_arbiter.Nesting.Ends.{check_begin, only_space, parent_name, check_end}
use core_arbiter.Nesting.Preprocessor.{update_preprocessor}
use core_arbiter.Nesting.Template.{in_template_argument_list}
use core_arbiter.Prelude.Fallible.{◌>>=◌}
use core_arbiter.Prelude.Int.{ℤ, difference, ◌+ℤ◌, is_int}
use core_arbiter.Report.{Report}

-- `_MATCH_ASM`: `^\s*(?:asm|_asm|__asm|__asm__)(?:\s+(volatile|__volatile__))?\s*[{(]`
abbrev pub asm_start : Regex
asm_start =
    at_start
    ⨾ star space
    ⨾ either (text (codes "asm"))
        (either (text (codes "_asm")) (either (text (codes "__asm")) (text (codes "__asm__"))))
    ⨾ opt (plus space ⨾ group 1 (either (text (codes "volatile")) (text (codes "__volatile__"))))
    ⨾ star space
    ⨾ any_of (codes "{(")

-- The change of `inline_asm` by a line, from the change of the depth and the new depth.
unfoldable pub next_asm : Str → ℤ → ℤ → Asm → Asm
unfolding match
next_asm line depth_change depth inside_asm = if is_int 0 depth then end_asm else inside_asm
next_asm line depth_change depth block_asm = block_asm
next_asm line depth_change depth _ =
    if not (is_int 0 depth_change) && is_int 1 depth && matches asm_start line
    then inside_asm
    else no_asm

abbrev pub depth_change_of : Str → ℤ
depth_change_of line = difference (count line (codes "(")) (count line (codes ")"))

-- Count parentheses, on the innermost block.
unfoldable pub count_parentheses : Str → List BlockInfo → List BlockInfo
unfolding count next_asm
count_parentheses line [] = []
count_parentheses line (b ∷ stack) =
    let depth = b.open_parentheses +ℤ depth_change_of line in
    record b {
      open_parentheses = depth;
      inline_asm = next_asm line (depth_change_of line) depth b.inline_asm;
    }
    ∷ stack

abbrev pub with_stack : List BlockInfo → NestingState → NestingState
with_stack stack st = record st { stack = stack }

-- `self.stack.append(…)` of a new object, which takes the next number.
abbrev pub push : (ℕ → BlockInfo) → NestingState → NestingState
push make st = record st { stack = make st.objects ∷ st.stack; objects = suc st.objects }

-- `^\s*namespace\b\s*([:\w]+)?(.*)$`
abbrev pub namespace_decl : Regex
namespace_decl =
    at_start
    ⨾ star space
    ⨾ text (codes "namespace")
    ⨾ word_boundary
    ⨾ star space
    ⨾ opt (group 1 (plus (one_of (λ c. is_word c || c == b':'))))
    ⨾ group 2 (star any_char)
    ⨾ at_end

-- With the rest of the line: up to behind its first brace, if there is one.
unfoldable pub open_namespace : ℕ → Option Str → Str → NestingState → Str × NestingState
unfolding find
open_namespace linenum name rest st = elim (find rest (codes "{")) [
  | none ↦ (rest, push (λ n. new_namespace n name linenum) st)
  | some k ↦ (
    drop (k + 1) rest,
    push (λ n. record (new_namespace n name linenum) { seen_open_brace = true }) st,
  )
]

-- One round of the loop over namespaces.
pub data NamespaceRound : Type 0 where
  no_namespace : NamespaceRound
  namespace_at : Option Str → Str → NamespaceRound
  namespace_fault : NamespaceRound

abbrev pub namespace_groups : Option Str → Option Str → NamespaceRound
namespace_groups name none = namespace_fault
namespace_groups name (some rest) = namespace_at name rest

unfoldable pub namespace_round : Str → NamespaceRound
unfolding match
namespace_round line = elim (match namespace_decl line) [
  | none ↦ no_namespace
  | some m ↦ namespace_groups (group_text line m 1) (group_text line m 2)
]

unfoldable pub consume_namespaces : ℕ → ℕ → Str → NestingState → Option (Str × NestingState)
unfolding namespace_round open_namespace
consume_namespaces zero linenum line st = none
consume_namespaces (suc fuel) linenum line st = elim (namespace_round line) [
  | no_namespace ↦ some (line, st)
  | namespace_at name rest ↦
      consume_namespaces fuel linenum (open_namespace linenum name rest st).0
        (open_namespace linenum name rest st).1
  | namespace_fault ↦ none
]

-- `^(\s*(?:template\s*<[\w\s<>,:]*>\s*)?(class|struct)\s+(?:[A-Z_]+\s+)*(\w+(?:::\w+)*))(.*)$`
abbrev pub class_decl : Regex
class_decl =
    at_start
    ⨾ group 1 (
        star space
        ⨾ opt (
            text (codes "template")
            ⨾ star space
            ⨾ char b'<'
            ⨾ star (one_of (λ c. is_word c || is_blank c || char_in c (codes "<>,:")))
            ⨾ char b'>'
            ⨾ star space)
        ⨾ group 2 (either (text (codes "class")) (text (codes "struct")))
        ⨾ plus space
        ⨾ star (plus (one_of (λ c. is_upper c || c == b'_')) ⨾ plus space)
        ⨾ group 3 (plus (one_of is_word) ⨾ star (text (codes "::") ⨾ plus (one_of is_word))))
    ⨾ group 4 (star any_char)
    ⨾ at_end

abbrev pub no_parentheses : List BlockInfo → Bool
no_parentheses [] = true
no_parentheses (b ∷ stack) = is_int 0 b.open_parentheses

abbrev pub push_class : Str → Str → CleansedLines → ℕ → NestingState → Option NestingState
push_class name class_or_struct clean_lines linenum st =
    elim (new_class st.objects name class_or_struct clean_lines linenum) [
      | none ↦ none
      | some b ↦ some (push (λ n. record b { identity = n }) st)
    ]

-- The four groups of a match; the rest of the line is kept where the class is no template argument.
abbrev pub declare_class :
    CleansedLines
    → ℕ
    → Str
    → NestingState
    → Option Str
    → Option Str
    → Option Str
    → Option Str
    → Option (Str × NestingState)
declare_class clean_lines linenum line st (some head) (some kind) (some name) (some rest) = do
  inside ← in_template_argument_list clean_lines.elided linenum (length head)
  (if inside
      then some (line, st)
      else (push_class name kind clean_lines linenum st >>= λ st'. some (rest, st')))
declare_class clean_lines linenum line st _ _ _ _ = none

unfoldable pub consume_class : CleansedLines → ℕ → Str → NestingState → Option (Str × NestingState)
unfolding match new_class in_template_argument_list
consume_class clean_lines linenum line st = elim (match class_decl line) [
  | none ↦ some (line, st)
  | some m ↦
      if no_parentheses st.stack
      then declare_class clean_lines linenum line st (group_text line m 1) (group_text line m 2)
          (group_text line m 3) (group_text line m 4)
      else some (line, st)
]

-- Run the checks of the innermost block while its brace has not been seen.
unfoldable pub begin_checks : Str → List BlockInfo → List BlockInfo
unfolding check_begin
begin_checks line [] = []
begin_checks line (b ∷ stack) = if b.seen_open_brace then b ∷ stack else check_begin line b ∷ stack

-- `^(.*)\b(public|private|protected|signals)(\s+(?:slots\s*)?)?:(?:[^:]|$)`
abbrev pub access_keyword : Regex
access_keyword =
    at_start
    ⨾ group 1 (star any_char)
    ⨾ word_boundary
    ⨾ group 2 (
        either (text (codes "public")) (
          either (text (codes "private"))
            (either (text (codes "protected")) (text (codes "signals")))))
    ⨾ opt (group 3 (plus space ⨾ opt (text (codes "slots") ⨾ star space)))
    ⨾ char b':'
    ⨾ either (none_of (codes ":")) at_end

abbrev pub bad_indent : Str → ℕ → Str → Str → ClassInfo → Report
bad_indent filename linenum access slots c = record {
  filename = filename;
  linenum = linenum;
  category = codes "whitespace/indent";
  confidence = 3;
  message = access ++ slots ++ codes ": should be indented +2 space inside " ++ parent_name c;
}

-- `len(indent) != classinfo.class_indent + 2 and Match(r'^\s*$', indent)`
abbrev pub indent_reports : Str → ℕ → ClassInfo → Str → Str → Str → List Report
indent_reports filename linenum c indent access slots =
    if not (length indent == c.class_indent + 2) && matches only_space indent
    then bad_indent filename linenum access slots c ∷ []
    else []

abbrev pub with_access : Str → ClassInfo → BlockInfo → BlockInfo
with_access access c b = record b { block_class = class_info (record c { access = access }) }

-- Update access control if the innermost block is a class.
unfoldable pub update_access : Str → ℕ → Str → List BlockInfo → List BlockInfo × List Report
unfolding match
update_access filename linenum line [] = ([], [])
update_access filename linenum line (b ∷ stack) = elim b.block_class [
  | class_info c ↦ elim (match access_keyword line) [
    | none ↦ (b ∷ stack, [])
    | some m ↦ (
      with_access (or_empty (group_text line m 2)) c b ∷ stack,
      indent_reports filename linenum c (or_empty (group_text line m 1))
          (or_empty (group_text line m 2)) (or_empty (group_text line m 3)),
    )
  ]
  | _ ↦ (b ∷ stack, [])
]

-- `^[^{;)}]*([{;)}])(.*)$`
abbrev pub next_brace : Regex
next_brace =
    at_start
    ⨾ star (none_of (codes "{;)}"))
    ⨾ group 1 (any_of (codes "{;)}"))
    ⨾ group 2 (star any_char)
    ⨾ at_end

-- `^extern\s*"[^"]*"\s*\{`
abbrev pub extern_start : Regex
extern_start =
    at_start
    ⨾ text (codes "extern")
    ⨾ star space
    ⨾ char b'"'
    ⨾ star (none_of (codes "\""))
    ⨾ char b'"'
    ⨾ star space
    ⨾ char b'{'

abbrev pub asm_of : Bool → Asm
asm_of true = block_asm
asm_of false = no_asm

-- A new block at a brace, in what is left of the line.
unfoldable pub new_scope : Str → ℕ → ℕ → BlockInfo
unfolding match
new_scope line linenum n =
    if matches extern_start line
    then new_extern_c n linenum
    else record (new_block n linenum true) { inline_asm = asm_of (matches asm_start line) }

abbrev pub mark_open : List BlockInfo → List BlockInfo
mark_open [] = []
mark_open (b ∷ stack) = record b { seen_open_brace = true } ∷ stack

abbrev pub pop : List BlockInfo → List BlockInfo
pop [] = []
pop (b ∷ stack) = stack

-- At `{`, and at `;` or `)`.
unfoldable pub open_brace : Str → ℕ → NestingState → NestingState
unfolding seen_open_brace new_scope
open_brace line linenum st =
    if seen_open_brace st
    then push (new_scope line linenum) st
    else with_stack (mark_open st.stack) st

unfoldable pub end_head : NestingState → NestingState
unfolding seen_open_brace
end_head st = if seen_open_brace st then st else with_stack (pop st.stack) st

-- At `}`.
abbrev pub close_brace_on :
    Str → CleansedLines → ℕ → NestingState → List BlockInfo → Option (NestingState × List Report)
close_brace_on filename clean_lines linenum st [] = some (st, [])
close_brace_on filename clean_lines linenum st (b ∷ stack) = do
  reports ← check_end filename clean_lines linenum b
  some (with_stack stack st, reports)

unfoldable pub brace_step :
    Str → CleansedLines → ℕ → Str → Str → NestingState → Option (NestingState × List Report)
unfolding open_brace end_head check_end
brace_step filename clean_lines linenum line token st =
    if token =s codes "{"
    then some (open_brace line linenum st, [])
    else if token =s codes ";" || token =s codes ")"
    then some (end_head st, [])
    else close_brace_on filename clean_lines linenum st st.stack

pub data BraceRound : Type 0 where
  no_brace : BraceRound
  brace_at : Str → Str → BraceRound
  brace_fault : BraceRound

abbrev pub brace_groups : Option Str → Option Str → BraceRound
brace_groups (some token) (some rest) = brace_at token rest
brace_groups _ _ = brace_fault

unfoldable pub brace_round : Str → BraceRound
unfolding match
brace_round line = elim (match next_brace line) [
  | none ↦ no_brace
  | some m ↦ brace_groups (group_text line m 1) (group_text line m 2)
]

-- Consume braces or semicolons from what is left of the line.
unfoldable pub consume_braces :
    ℕ → Str → CleansedLines → ℕ → Str → NestingState → Option (NestingState × List Report)
unfolding brace_round brace_step
consume_braces zero filename clean_lines linenum line st = none
consume_braces (suc fuel) filename clean_lines linenum line st = elim (brace_round line) [
  | no_brace ↦ some (st, [])
  | brace_at token rest ↦ do
    (st', reports) ← brace_step filename clean_lines linenum line token st
    (st'', later) ← consume_braces fuel filename clean_lines linenum rest st'
    some (st'', reports ++ later)
  | brace_fault ↦ none
]

abbrev pub top_of : List BlockInfo → Option BlockInfo
top_of [] = none
top_of (b ∷ stack) = some b

-- The first two parts: the preprocessor and the parentheses.
unfoldable pub enter_line : Str → NestingState → NestingState
unfolding update_preprocessor count_parentheses
enter_line line st =
    let st' = update_preprocessor line (record st { previous_stack_top = top_of st.stack }) in
    with_stack (count_parentheses line st'.stack) st'

-- From the class declarations on, with what is left of the line. `line` is the whole line.
unfoldable pub finish_line :
    Str → CleansedLines → ℕ → Str → Str → NestingState → Option (NestingState × List Report)
unfolding begin_checks update_access consume_braces
finish_line filename clean_lines linenum line rest st =
    let begun = begin_checks line st.stack in
    let accessed = update_access filename linenum rest begun in
    (consume_braces (length rest + 1) filename clean_lines linenum rest (with_stack accessed.0 st)
      >>= λ r. some (r.0, accessed.1 ++ r.1))

-- The line is shorter after each round of the two loops, so its length and one is enough fuel.
unfoldable pub update_line :
    Str → CleansedLines → ℕ → Str → NestingState → Option (NestingState × List Report)
unfolding enter_line consume_namespaces consume_class finish_line
update_line filename clean_lines linenum line st = do
  (rest, st') ← consume_namespaces (length line + 1) linenum line (enter_line line st)
  (rest', st'') ← consume_class clean_lines linenum rest st'
  finish_line filename clean_lines linenum line rest' st''

-- `Update`
unfoldable pub update : Str → CleansedLines → ℕ → NestingState → Option (NestingState × List Report)
unfolding update_line
update filename clean_lines linenum st = do
  line ← get_elem? clean_lines.elided linenum
  update_line filename clean_lines linenum line st

-- `Update` on each line from `linenum` on, `lines` being these.
unfoldable pub update_lines :
    Str → CleansedLines → ℕ → List Str → NestingState → Option (NestingState × List Report)
unfolding update_line
update_lines filename clean_lines linenum [] st = some (st, [])
update_lines filename clean_lines linenum (line ∷ lines) st = do
  (st', reports) ← update_line filename clean_lines linenum line st
  (st'', later) ← update_lines filename clean_lines (linenum + 1) lines st'
  some (st'', reports ++ later)
