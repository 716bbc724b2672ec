-- ===== src/Examples/Matching.antt =====
-- Brackets matched on small lines.

use core_arbiter.Prelude.{◌+◌, ◌≡◌, refl, some, List, [], ◌∷◌, ◌++◌, length}
use core_arbiter.Str.{Str, codes}
use core_arbiter.Brackets.Forward.{closed, find_end_of_expression_in_line, Place, close_expression}
use core_arbiter.Brackets.Forward.Balanced.{find_end-Balanced}
use core_arbiter.Brackets.Text.{Balanced, nil, plain, nest, square, round}
use core_arbiter.Brackets.Forward.Bounds.{Ends, close_expression-Ends}
use core_arbiter.Prelude.{ℕ, Option, arith}
use core_arbiter.Brackets.Backward.{reverse_close_expression}
use core_arbiter.Checks.Blank.{get_previous_non_blank_line}
use core_arbiter.Checks.Blank.Last.{LastInk, get_previous_non_blank_line-LastInk}
use core_arbiter.Brackets.Backward.Bounds.{Begins, reverse_close_expression-Begins}

abbrev two_lines : List Str
two_lines = codes "f(a, g<b>(c" ∷ codes "[1]) + d; x" ∷ codes ") e" ∷ []

closed_below :
    close_expression two_lines 0 1 ≡ some (record { line = codes ") e"; linenum = 2; pos = some 1 })
unfolding close_expression
closed_below = refl

close_expression-Ends_example :
    (q : Place) × (close_expression two_lines 0 1 ≡ some q) × Ends two_lines 0 q
close_expression-Ends_example =
    close_expression-Ends two_lines 0 1 (codes "f(a, g<b>(c") b'(' refl refl

abbrev inside_call : Str
inside_call = codes "a<[1]"

inside_call-Balanced : Balanced inside_call
inside_call-Balanced =
    plain b'a' refl (plain b'<' refl (nest b'[' b']' square (plain b'1' refl nil) nil))

find_end-Balanced_example :
    find_end_of_expression_in_line
      (codes "f" ++ b'(' ∷ (inside_call ++ b')' ∷ codes ">;"))
      (length (codes "f"))
      []
    ≡ closed (length (codes "f") + length inside_call + 2)
find_end-Balanced_example =
    find_end-Balanced (codes "f") inside_call (codes ">;") b'(' b')' inside_call-Balanced round

opened_above :
    reverse_close_expression two_lines 2 0
    ≡ some (record { line = codes "f(a, g<b>(c"; linenum = 0; pos = some 1 })
unfolding reverse_close_expression
opened_above = refl

abbrev previous_lines : List Str
previous_lines = codes "a" ∷ codes " " ∷ [] ∷ codes "b" ∷ []

get_previous_non_blank_line-LastInk_example :
    (r : Option (Str × ℕ)) × (get_previous_non_blank_line previous_lines 3 ≡ some r)
    × LastInk previous_lines 3 r
get_previous_non_blank_line-LastInk_example =
    get_previous_non_blank_line-LastInk previous_lines 3 (omega arith)

reverse_close_expression-Begins_example :
    (q : Place) × (reverse_close_expression two_lines 2 0 ≡ some q) × Begins two_lines 2 q
reverse_close_expression-Begins_example =
    reverse_close_expression-Begins two_lines 2 0 (codes ") e") b')' refl refl

-- The `>` of `operator>` closes the `<` before, and that of `operator >` is passed over.
operator_greater_closes : find_end_of_expression_in_line (codes "<a operator> b>") 0 [] ≡ closed 12
unfolding find_end_of_expression_in_line
operator_greater_closes = refl

operator_space_greater_passes :
    find_end_of_expression_in_line (codes "<a operator > b>") 0 [] ≡ closed 16
unfolding find_end_of_expression_in_line
operator_space_greater_passes = refl
