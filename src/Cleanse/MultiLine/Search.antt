-- ===== src/Cleanse/MultiLine/Search.antt =====
-- What the index loops of `RemoveMultiLineComments` do on a list that is split at the index.
use mathlib.Core.List.{append_assoc}
use mathlib.Core.Path.{ap₂}
use core_arbiter.Prelude.{
  ℕ, ◌+◌, ◌≡◌, refl, sym, ap, ◌∙◌, Bool, true, false, none, some, List, [], ◌∷◌, ◌++◌, arith,
  length, drop, set, length-append,
}
use core_arbiter.Str.{Str}
use core_arbiter.Cleanse.MultiLine.{
  closes_comment, first_from, find_next_multi_line_comment_start, find_next_multi_line_comment_end,
  dummy, clear_range, opens_comment,
}
use core_arbiter.Prelude.Forall.{All}

abbrev pub Fails : (Str → Bool) → List Str → Type 0
Fails test = All (λ l. test l ≡ false)

-- Where the first line that passes the test stands.
pub data Split (test : Str → Bool) (lines : List Str) : Type 0 where
  absent : Fails test lines → Split test lines
  present :
      (before : List Str) (line : Str) (later : List Str)
      → lines ≡ before ++ line ∷ later
      → Fails test before
      → test line ≡ true
      → Split test lines

pub Split-at_first : (test : Str → Bool) (lines : List Str) → Split test lines
Split-at_first test [] = absent tt
Split-at_first test (l ∷ ls) = go (test l) refl (Split-at_first test ls)
  where
    go : (b : Bool) → test l ≡ b → Split test ls → Split test (l ∷ ls)
    go true e s = present [] l ls refl tt e
    go false e (absent h) = absent (e, h)
    go false e (present before line later q h t) =
        present (l ∷ before) line later (ap (◌∷◌ l) q) (e, h) t

pub drop-append : (p ls : List Str) → drop (length p) (p ++ ls) ≡ ls
drop-append [] ls = refl
drop-append (x ∷ p) ls = drop-append p ls

first_from-absent :
    (test : Str → Bool) (lines : List Str) (i : ℕ)
    → Fails test lines
    → first_from test lines i ≡ none
unfolding first_from
first_from-absent test [] i h = refl
first_from-absent test (l ∷ ls) i h = rw (h.0, first_from) (first_from-absent test ls (i + 1) h.1)

first_from-present :
    (test : Str → Bool) (before : List Str) (line : Str) (later : List Str) (i : ℕ)
    → Fails test before
    → test line ≡ true
    → first_from test (before ++ line ∷ later) i ≡ some (i + length before)
unfolding first_from
first_from-present test [] line later i h t = rw (t, first_from) (ground arith)
first_from-present test (l ∷ ls) line later i h t =
    rw (h.0, first_from) (first_from-present test ls line later (i + 1) h.1 t ∙ ground arith)

module _ (p : List Str) where
  pub start-absent :
      (ls : List Str)
      → Fails opens_comment ls
      → find_next_multi_line_comment_start (p ++ ls) (length p) ≡ length (p ++ ls)
  unfolding find_next_multi_line_comment_start
  start-absent ls h = rw (drop-append p ls, first_from-absent opens_comment ls (length p) h)

  pub start-present :
      (before : List Str) (line : Str) (later : List Str)
      → Fails opens_comment before
      → opens_comment line ≡ true
      → find_next_multi_line_comment_start (p ++ (before ++ line ∷ later)) (length p)
        ≡ length p + length before
  unfolding find_next_multi_line_comment_start
  start-present before line later h t = rw (
    drop-append p (before ++ line ∷ later),
    first_from-present opens_comment before line later (length p) h t,
  )

  pub end-absent :
      (ls : List Str)
      → Fails closes_comment ls
      → find_next_multi_line_comment_end (p ++ ls) (length p) ≡ length (p ++ ls)
  unfolding find_next_multi_line_comment_end
  end-absent ls h = rw (drop-append p ls, first_from-absent closes_comment ls (length p) h)

  pub end-present :
      (before : List Str) (line : Str) (later : List Str)
      → Fails closes_comment before
      → closes_comment line ≡ true
      → find_next_multi_line_comment_end (p ++ (before ++ line ∷ later)) (length p)
        ≡ length p + length before
  unfolding find_next_multi_line_comment_end
  end-present before line later h t = rw (
    drop-append p (before ++ line ∷ later),
    first_from-present closes_comment before line later (length p) h t,
  )

abbrev pub dummies : List Str → List Str
dummies [] = []
dummies (l ∷ ls) = dummy ∷ dummies ls

set-append :
    (p : List Str) (l d : Str) (ls : List Str) → set (p ++ l ∷ ls) (length p) d ≡ p ++ d ∷ ls
set-append [] l d ls = refl
set-append (x ∷ p) l d ls = ap (◌∷◌ x) (set-append p l d ls)

pub clear_range-dummies :
    (mid p later : List Str)
    → clear_range (length mid) (length p) (p ++ (mid ++ later)) ≡ p ++ (dummies mid ++ later)
unfolding clear_range
clear_range-dummies [] p later = refl
clear_range-dummies (l ∷ mid) p later =
    let here : set (p ++ l ∷ (mid ++ later)) (length p) dummy
        ≡ (p ++ dummy ∷ []) ++ (mid ++ later) =
      set-append p l dummy (mid ++ later) ∙ sym (append_assoc p (dummy ∷ []) (mid ++ later)) in
    let place : length p + 1 ≡ length (p ++ dummy ∷ []) =
      omega (arith, length-append p (dummy ∷ [])) in
    let moved : clear_range (length (l ∷ mid)) (length p) (p ++ l ∷ (mid ++ later))
        ≡ clear_range (length mid) (length (p ++ dummy ∷ []))
            ((p ++ dummy ∷ []) ++ (mid ++ later)) =
      ap₂ (clear_range (length mid)) place here in
    moved
    ∙ clear_range-dummies mid (p ++ dummy ∷ []) later
    ∙ append_assoc p (dummy ∷ []) (dummies mid ++ later)
