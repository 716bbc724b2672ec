-- ===== src/Cleanse/MultiLine/Result.antt =====
-- What the lines are after `RemoveMultiLineComments`.

use core_arbiter.Prelude.{suc, ◌≡◌, refl, Option, none, some, List, [], ◌∷◌, arith, length}
use core_arbiter.Str.{Str}
use core_arbiter.Cleanse.MultiLine.{dummy}
use core_arbiter.Cleanse.MultiLine.OnePass.{Outcome, keep, outside, inside}
use core_arbiter.Prelude.{ap, ◌∙◌, inl, inr, Bool-cases}
use core_arbiter.Cleanse.MultiLine.{closes_comment, opens_comment}
use core_arbiter.Prelude.{false}
use core_arbiter.Cleanse.MultiLine.Search.{Fails}
use core_arbiter.Cleanse.MultiLine.{remove_multi_line_comments}
use core_arbiter.Cleanse.MultiLine.Refines.{behind, remove_multi_line_comments-outside}
use core_arbiter.Report.{Report}

abbrev OneMore : List Str → Option Outcome → Type 0
OneMore lines none = Unit
OneMore lines (some out) = length out.0 ≡ length lines

length-keep : (l : Str) (o : Outcome) → length (keep l o).0 ≡ suc (length o.0)
length-keep l (ls, none) = refl
length-keep l (ls, some n) = refl

one_more :
    (ls : List Str) (o : Option Outcome)
    → OneMore ls o
    → OneMore (dummy ∷ ls) (elim o [ none ↦ none | some out ↦ some (keep dummy out) ])
one_more ls none h = tt
one_more ls (some out) h = length-keep dummy out ∙ ap suc h

mutual
  unfolding outside inside

  length-outside : (ls : List Str) → length (outside ls).0 ≡ length ls
  length-outside [] = refl
  length-outside (l ∷ ls) = ground (
    arith,
    length-keep l (outside ls),
    length-keep dummy (outside ls),
    length-outside ls,
    length-inside ls,
  )

  length-inside : (ls : List Str) → OneMore ls (inside ls)
  length-inside [] = tt
  length-inside (l ∷ ls) = elim (Bool-cases (closes_comment l)) [
    | inl t ↦ rw (t, inside) (length-keep dummy (outside ls) ∙ ap suc (length-outside ls))
    | inr f ↦ rw (f, inside) (one_more ls (inside ls) (length-inside ls))
  ]

dummy_closed : opens_comment dummy ≡ false
unfolding opens_comment
dummy_closed = refl

abbrev Plain : Outcome → Type 0
Plain (ls, none) = Fails opens_comment ls
Plain (ls, some n) = Unit

abbrev PlainIfAny : Option Outcome → Type 0
PlainIfAny none = Unit
PlainIfAny (some out) = Plain out

keep-Plain : (l : Str) (o : Outcome) → opens_comment l ≡ false → Plain o → Plain (keep l o)
keep-Plain l (ls, none) e h = (e, h)
keep-Plain l (ls, some n) e h = tt

keep_inside-Plain :
    (o : Option Outcome)
    → PlainIfAny o
    → PlainIfAny (elim o [ none ↦ none | some out ↦ some (keep dummy out) ])
keep_inside-Plain none h = tt
keep_inside-Plain (some out) h = keep-Plain dummy out dummy_closed h

unended_or-Plain :
    (ls : List Str) (o : Option Outcome)
    → PlainIfAny o
    → Plain (elim o [ none ↦ (ls, some 0) | some out ↦ keep dummy out ])
unended_or-Plain ls none h = tt
unended_or-Plain ls (some out) h = keep-Plain dummy out dummy_closed h

mutual
  unfolding outside inside

  outside-Plain : (ls : List Str) → Plain (outside ls)
  outside-Plain [] = tt
  outside-Plain (l ∷ ls) = elim (Bool-cases (opens_comment l)) [
    | inr f ↦ rw (f, outside) (keep-Plain l (outside ls) f (outside-Plain ls))
    | inl t ↦ elim (Bool-cases (closes_comment l)) [
      | inl u ↦
          rw (t, outside) (rw u (keep-Plain dummy (outside ls) dummy_closed (outside-Plain ls)))
      | inr v ↦ rw (t, outside) (rw v (unended_or-Plain (l ∷ ls) (inside ls) (inside-Plain ls)))
    ]
  ]

  inside-Plain : (ls : List Str) → PlainIfAny (inside ls)
  inside-Plain [] = tt
  inside-Plain (l ∷ ls) = elim (Bool-cases (closes_comment l)) [
    | inl t ↦ rw (t, inside) (keep-Plain dummy (outside ls) dummy_closed (outside-Plain ls))
    | inr f ↦ rw (f, inside) (keep_inside-Plain (inside ls) (inside-Plain ls))
  ]

-- After the loop: the lines that are left, and no report, or one of a comment without an end.
abbrev pub Cleared : List Str → List Str × Option Report → Type 0
Cleared lines (out, none) = (length out ≡ length lines) × Fails opens_comment out
Cleared lines (out, some r) = length out ≡ length lines

behind-Cleared :
    (filename : Str) (lines : List Str) (o : Outcome)
    → length o.0 ≡ length lines
    → Plain o
    → Cleared lines (behind filename [] o)
behind-Cleared filename lines (out, none) e h = (e, h)
behind-Cleared filename lines (out, some n) e h = e

behind-length : (filename : Str) (o : Outcome) → length (behind filename [] o).0 ≡ length o.0
behind-length filename (out, none) = refl
behind-length filename (out, some n) = refl

pub length-behind-outside :
    (filename : Str) (lines : List Str)
    → length (behind filename [] (outside lines)).0 ≡ length lines
length-behind-outside filename lines = behind-length filename (outside lines) ∙ length-outside lines

-- `RemoveMultiLineComments` returns on every list of lines, keeps their number, and where it reports
-- nothing it leaves no line on which a multi-line comment begins.
pub remove_multi_line_comments-Cleared :
    (filename : Str) (lines : List Str)
    → (r : List Str × Option Report) × (remove_multi_line_comments filename lines ≡ some r)
      × Cleared lines r
remove_multi_line_comments-Cleared filename lines = (
  behind filename [] (outside lines),
  remove_multi_line_comments-outside filename lines,
  behind-Cleared filename lines (outside lines) (length-outside lines) (outside-Plain lines),
)
