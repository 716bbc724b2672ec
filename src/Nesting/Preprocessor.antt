-- ===== src/Nesting/Preprocessor.antt =====
-- `UpdatePreprocessor`

use core_arbiter.Prelude.{ℕ, suc, ◌+◌, true, false, List, [], ◌∷◌, if◌then◌else◌, length}
use core_arbiter.Str.{Str, codes}
use core_arbiter.Regex.{
  Regex, either, star, group, at_start, word_boundary, char, space, text, ◌⨾◌, match, matches,
}
use core_arbiter.Nesting.Blocks.{BlockInfo, PreprocessorInfo, NestingState}

-- `^\s*#\s*(WORDS)\b`
abbrev pub directive : Regex → Regex
directive words = at_start ⨾ star space ⨾ char b'#' ⨾ star space ⨾ group 1 words ⨾ word_boundary

abbrev pub if_directive : Regex
if_directive =
    directive (either (text (codes "if")) (either (text (codes "ifdef")) (text (codes "ifndef"))))

abbrev pub else_directive : Regex
else_directive = directive (either (text (codes "else")) (text (codes "elif")))

-- `^\s*#\s*endif\b`
abbrev pub endif_directive : Regex
endif_directive =
    at_start ⨾ star space ⨾ char b'#' ⨾ star space ⨾ text (codes "endif") ⨾ word_boundary

-- What a line is to the preprocessor, in the order of the tests.
pub data Directive : Type 0 where
  begins_if begins_else ends_if no_directive : Directive

unfoldable pub directive_of : Str → Directive
unfolding match
directive_of line =
    if matches if_directive line
    then begins_if
    else if matches else_directive line
    then begins_else
    else if matches endif_directive line
    then ends_if
    else no_directive

-- `copy.deepcopy`: the same blocks, as new objects numbered from `n` on.
abbrev pub deep_copy : ℕ → List BlockInfo → List BlockInfo
deep_copy n [] = []
deep_copy n (b ∷ stack) = record b { identity = n } ∷ deep_copy (suc n) stack

-- `self.pp_stack.append(_PreprocessorInfo(copy.deepcopy(self.stack)))`
abbrev pub push_if : NestingState → NestingState
push_if st = record st {
  pp_stack =
      record {
        stack_before_if = deep_copy st.objects st.stack;
        stack_before_else = [];
        seen_else = false;
      }
      ∷ st.pp_stack;
  objects = st.objects + length st.stack;
}

-- `if not self.pp_stack[-1].seen_else`
abbrev pub mark_else : List BlockInfo → ℕ → PreprocessorInfo → PreprocessorInfo
mark_else stack n p =
    if p.seen_else then p else record p { seen_else = true; stack_before_else = deep_copy n stack }

-- The stack is copied even where it is not kept; that leaves a gap in the numbers.
abbrev pub restore_if : List PreprocessorInfo → NestingState → NestingState
restore_if [] st = st
restore_if (p ∷ pps) st = record st {
  pp_stack = mark_else st.stack st.objects p ∷ pps;
  stack = deep_copy (st.objects + length st.stack) p.stack_before_if;
  objects = st.objects + length st.stack + length p.stack_before_if;
}

abbrev pub pop_endif : List PreprocessorInfo → NestingState → NestingState
pop_endif [] st = st
pop_endif (p ∷ pps) st = record st {
  stack = if p.seen_else then p.stack_before_else else st.stack;
  pp_stack = pps;
}

unfoldable pub apply_directive : Directive → NestingState → NestingState
apply_directive begins_if st = push_if st
apply_directive begins_else st = restore_if st.pp_stack st
apply_directive ends_if st = pop_endif st.pp_stack st
apply_directive no_directive st = st

unfoldable pub update_preprocessor : Str → NestingState → NestingState
unfolding directive_of apply_directive
update_preprocessor line st = apply_directive (directive_of line) st
