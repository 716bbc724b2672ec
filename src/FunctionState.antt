-- ===== src/FunctionState.antt =====
-- The class `_FunctionState`: the function being read and the lines of its body.
pub mod Confidence
use core_arbiter.Prelude.{
  ℕ, zero, suc, ◌+◌, ◌*◌, ◌/◌, ◌^◌, Bool, true, false, not, List, [], ◌∷◌, ◌++◌, ltb, if◌then◌else◌,
}
use core_arbiter.Str.{Str, codes}
use core_arbiter.Regex.{Regex, either, char, text, ◌⨾◌, match, matches}
use core_arbiter.Report.{Report}
use core_arbiter.Str.Decimal.{decimal}

pub record FunctionState : Type 0 where
  pub in_a_function : Bool
  pub lines_in_function : ℕ
  pub current_function : Str

abbrev pub normal_trigger : ℕ
normal_trigger = 250

abbrev pub test_trigger : ℕ
test_trigger = 400

-- `__init__`
abbrev pub initial_function_state : FunctionState
initial_function_state = record {
  in_a_function = false;
  lines_in_function = 0;
  current_function = [];
}

unfoldable pub begin : Str → FunctionState → FunctionState
begin function_name fs = record {
  in_a_function = true;
  lines_in_function = 0;
  current_function = function_name;
}

unfoldable pub count_line : FunctionState → FunctionState
count_line fs =
    if fs.in_a_function then record fs { lines_in_function = fs.lines_in_function + 1 } else fs

unfoldable pub end : FunctionState → FunctionState
end fs = record fs { in_a_function = false }

-- `T(EST|est)`; its group is not read
abbrev pub test_name : Regex
test_name = char b'T' ⨾ either (text (codes "EST")) (text (codes "est"))

-- `int(math.log(n, 2))` for a number that is not 0, on fuel: the logarithm rounded down. The number
-- itself is enough fuel.
unfoldable pub log2_floor : ℕ → ℕ → ℕ
log2_floor zero n = 0
log2_floor (suc fuel) n = let rest = log2_floor fuel (n / 2) in if ltb n 2 then 0 else suc rest

unfoldable pub base_trigger : FunctionState → ℕ
unfolding match
base_trigger fs = if matches test_name fs.current_function then test_trigger else normal_trigger

abbrev pub clamp5 : ℕ → ℕ
clamp5 n = if ltb 5 n then 5 else n

abbrev pub too_long : FunctionState → Str → ℕ → ℕ → ℕ → Report
too_long fs filename linenum base trigger = record {
  filename = filename;
  linenum = linenum;
  category = codes "readability/fn_size";
  confidence = clamp5 (log2_floor (fs.lines_in_function / base) (fs.lines_in_function / base));
  message =
      codes "Small and focused functions are preferred: "
      ++ fs.current_function
      ++ codes " has "
      ++ decimal fs.lines_in_function
      ++ codes " non-comment lines (error triggered by exceeding "
      ++ decimal trigger
      ++ codes " lines).";
}

-- `Check`, at the verbosity level that `_VerboseLevel` returns.
unfoldable pub check : FunctionState → Str → ℕ → ℕ → List Report
check fs filename linenum verbose_level =
    let base = base_trigger fs in
    let trigger = base * 2 ^ verbose_level in
    if not fs.in_a_function
    then []
    else if ltb trigger fs.lines_in_function
    then too_long fs filename linenum base trigger ∷ []
    else []
