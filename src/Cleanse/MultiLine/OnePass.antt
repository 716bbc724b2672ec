-- ===== src/Cleanse/MultiLine/OnePass.antt =====
-- What `RemoveMultiLineComments` means, told in one pass over the lines without any index.

use core_arbiter.Prelude.{ℕ, suc, true, false, Option, none, some, List, [], ◌∷◌}
use core_arbiter.Str.{Str}
use core_arbiter.Cleanse.MultiLine.{closes_comment, dummy, opens_comment}

-- The lines left, and how many lines stand before a comment that has no end.
abbrev pub Outcome : Type 0
Outcome = List Str × Option ℕ

abbrev pub keep : Str → Outcome → Outcome
keep line (lines, none) = (line ∷ lines, none)
keep line (lines, some n) = (line ∷ lines, some (suc n))

-- `outside` reads the lines outside a comment. `inside` reads those after the first of a comment;
-- `none` means that the comment has no end.
unfoldable mutual
  pub outside : List Str → Outcome
  outside [] = ([], none)
  outside (line ∷ lines) = elim (opens_comment line) [
    | false ↦ keep line (outside lines)
    | true ↦ elim (closes_comment line) [
      | true ↦ keep dummy (outside lines)
      | false ↦ elim (inside lines) [ none ↦ (line ∷ lines, some 0) | some out ↦ keep dummy out ]
    ]
  ]

  pub inside : List Str → Option Outcome
  inside [] = none
  inside (line ∷ lines) = elim (closes_comment line) [
    | true ↦ some (keep dummy (outside lines))
    | false ↦ elim (inside lines) [ none ↦ none | some out ↦ some (keep dummy out) ]
  ]
