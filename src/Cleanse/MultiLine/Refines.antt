-- ===== src/Cleanse/MultiLine/Refines.antt =====
-- `RemoveMultiLineComments` against the one pass over the lines.
use mathlib.Core.List.{append_assoc, append-nil}
use mathlib.Core.Path.{ap₂}
use native.Mathlib.Nat.{add-zero}
use core_arbiter.Prelude.{
  ℕ, ◌+◌, ◌≡◌, refl, ap, true, Option, none, some, List, [], ◌∷◌, ◌++◌, length,
}
use core_arbiter.Str.{Str}
use core_arbiter.Cleanse.MultiLine.{closes_comment, no_end, opens_comment}
use core_arbiter.Cleanse.MultiLine.OnePass.{Outcome, keep, outside, inside}
use core_arbiter.Cleanse.MultiLine.Search.{Fails, dummies}
use core_arbiter.Report.{Report}
use core_arbiter.Prelude.{suc, ◌≤◌, ◌<◌, sym, ◌∙◌, arith, length-append}
use core_arbiter.Cleanse.MultiLine.{
  find_next_multi_line_comment_start, find_next_multi_line_comment_end,
  remove_multi_line_comments_from_range, remove_from,
}
use core_arbiter.Prelude.{◌-◌}
use core_arbiter.Cleanse.MultiLine.{clear_range}
use core_arbiter.Cleanse.MultiLine.Search.{end-absent, clear_range-dummies}
use core_arbiter.Cleanse.MultiLine.Search.{Split, absent, present, Split-at_first, end-present}
use core_arbiter.Prelude.{zero}
use core_arbiter.Cleanse.MultiLine.{remove_multi_line_comments}
use core_arbiter.Cleanse.MultiLine.Search.{start-absent, start-present}

abbrev keeps : List Str → Outcome → Outcome
keeps [] o = o
keeps (l ∷ ls) o = keep l (keeps ls o)

-- The outcome of the lines behind those of `p`.
abbrev pub behind : Str → List Str → Outcome → List Str × Option Report
behind filename p (lines, none) = (p ++ lines, none)
behind filename p (lines, some n) = (p ++ lines, some (no_end filename (length p + n)))

behind-keep :
    (filename : Str) (p : List Str) (l : Str) (o : Outcome)
    → behind filename (p ++ l ∷ []) o ≡ behind filename p (keep l o)
behind-keep filename p l (lines, none) = rw (append_assoc p (l ∷ []) lines)
behind-keep filename p l (lines, some n) =
    let at : length (p ++ l ∷ []) + n ≡ length p + suc n =
      omega (arith, length-append p (l ∷ [])) in
    ap₂ (λ (ls : List Str) (k : ℕ). (ls, some (no_end filename k))) (append_assoc p (l ∷ []) lines)
      at

behind-keeps :
    (filename : Str) (ls p : List Str) (o : Outcome)
    → behind filename (p ++ ls) o ≡ behind filename p (keeps ls o)
behind-keeps filename [] p o = rw (append-nil p)
behind-keeps filename (l ∷ ls) p o =
    ap (λ q. behind filename q o) (sym (append_assoc p (l ∷ []) ls))
    ∙ behind-keeps filename ls (p ++ l ∷ []) o
    ∙ behind-keep filename p l (keeps ls o)

outside-skip :
    (before later : List Str)
    → Fails opens_comment before
    → outside (before ++ later) ≡ keeps before (outside later)
unfolding outside
outside-skip [] later h = refl
outside-skip (l ∷ before) later h = rw (h.0, outside) (ap (keep l) (outside-skip before later h.1))

inside-absent : (lines : List Str) → Fails closes_comment lines → inside lines ≡ none
unfolding inside
inside-absent [] h = refl
inside-absent (l ∷ ls) h = rw (h.0, inside) (rw (inside-absent ls h.1))

inside-present :
    (before : List Str) (line : Str) (later : List Str)
    → Fails closes_comment before
    → closes_comment line ≡ true
    → inside (before ++ line ∷ later) ≡ some (keeps (dummies (before ++ line ∷ [])) (outside later))
unfolding inside
inside-present [] line later h t = rw (t, inside)
inside-present (l ∷ ls) line later h t = rw (h.0, inside) (rw (inside-present ls line later h.1 t))

abbrev or_unended : List Str → Option Outcome → Outcome
or_unended lines none = (lines, some 0)
or_unended lines (some out) = out

outside-opens :
    (line : Str) (later : List Str)
    → opens_comment line ≡ true
    → outside (line ∷ later) ≡ or_unended (line ∷ later) (inside (line ∷ later))
unfolding outside
outside-opens line later h = ground arith

-- One round of the loop, by where the comment begins and ends.
module _ (filename : Str) (fuel : ℕ) (lines : List Str) (i begin end : ℕ) (more : i < length lines)
    (starts : find_next_multi_line_comment_start lines i ≡ begin)
    (stops : find_next_multi_line_comment_end lines begin ≡ end) where
  round_none : length lines ≤ begin → remove_from filename (suc fuel) lines i ≡ some (lines, none)
  unfolding remove_from
  round_none h = rw (starts, remove_from) (ground arith)

  round_unended :
      begin < length lines
      → length lines ≤ end
      → remove_from filename (suc fuel) lines i ≡ some (lines, some (no_end filename begin))
  unfolding remove_from
  round_unended h k = rw (starts, stops, remove_from) (ground arith)

  round_cleared :
      begin < length lines
      → end < length lines
      → remove_from filename (suc fuel) lines i
        ≡ remove_from filename fuel
            (remove_multi_line_comments_from_range lines begin (end + 1))
            (end + 1)
  unfolding remove_from
  round_cleared h k = rw (starts, stops, remove_from) (ground arith)

stop_at_end :
    (filename : Str) (fuel : ℕ) (lines : List Str) (i : ℕ)
    → length lines ≤ i
    → remove_from filename (suc fuel) lines i ≡ some (lines, none)
unfolding remove_from
stop_at_end filename fuel lines i h = ground arith

length-dummies : (ls : List Str) → length (dummies ls) ≡ length ls
length-dummies [] = refl
length-dummies (l ∷ ls) = ap suc (length-dummies ls)

cleared :
    (p mid : List Str) (e : Str) (post : List Str)
    → remove_multi_line_comments_from_range
        (p ++ (mid ++ e ∷ post))
        (length p)
        (length p + length mid + 1)
      ≡ (p ++ dummies (mid ++ e ∷ [])) ++ post
unfolding remove_multi_line_comments_from_range
cleared p mid e post =
    let rounds : length p + length mid + 1 - length p ≡ length (mid ++ e ∷ []) =
      omega (arith, length-append mid (e ∷ [])) in
    let lines : p ++ (mid ++ e ∷ post) ≡ p ++ ((mid ++ e ∷ []) ++ post) =
      ap (◌++◌ p) (sym (append_assoc mid (e ∷ []) post)) in
    ap₂ (λ (n : ℕ) (ls : List Str). clear_range n (length p) ls) rounds lines
    ∙ clear_range-dummies (mid ++ e ∷ []) p post
    ∙ sym (append_assoc p (dummies (mid ++ e ∷ [])) post)

abbrev Agrees : Str → ℕ → Type 0
Agrees filename fuel =
    (p ls : List Str)
    → length ls < fuel
    → remove_from filename fuel (p ++ ls) (length p) ≡ some (behind filename p (outside ls))

module _ (filename : Str) (fuel : ℕ) (p : List Str) (i : ℕ) (before : i ≤ length p) (line : Str)
    (later : List Str) (opens : opens_comment line ≡ true)
    (starts : find_next_multi_line_comment_start (p ++ line ∷ later) i ≡ length p) where
  more_lines : length p < length (p ++ line ∷ later)
  more_lines = omega (arith, length-append p (line ∷ later))

  unended_comment :
      Fails closes_comment (line ∷ later)
      → remove_from filename (suc fuel) (p ++ line ∷ later) i
        ≡ some (behind filename p (outside (line ∷ later)))
  unended_comment h =
      let outs : outside (line ∷ later) ≡ (line ∷ later, some 0) =
        outside-opens line later opens
        ∙ ap (or_unended (line ∷ later)) (inside-absent (line ∷ later) h) in
      round_unended filename fuel (p ++ line ∷ later) i (length p) _ (omega (arith, more_lines))
        starts (end-absent p (line ∷ later) h) more_lines (omega arith)
      ∙ (rw (outs, add-zero (length p)) refl)

  closed_comment :
      (mid : List Str) (e : Str) (post : List Str)
      → line ∷ later ≡ mid ++ e ∷ post
      → Fails closes_comment mid
      → closes_comment e ≡ true
      → length (line ∷ later) ≤ fuel
      → Agrees filename fuel
      → remove_from filename (suc fuel) (p ++ line ∷ later) i
        ≡ some (behind filename p (outside (line ∷ later)))
  closed_comment mid e post q h t le ih =
      let d : List Str = dummies (mid ++ e ∷ []) in
      let stops : find_next_multi_line_comment_end (p ++ line ∷ later) (length p)
          ≡ length p + length mid =
        ap (λ ls. find_next_multi_line_comment_end (p ++ ls) (length p)) q
        ∙ end-present p mid e post h t in
      let outs : outside (line ∷ later) ≡ keeps d (outside post) =
        outside-opens line later opens
        ∙ ap (λ ls. or_unended (line ∷ later) (inside ls)) q
        ∙ ap (or_unended (line ∷ later)) (inside-present mid e post h t) in
      let sizes : length (line ∷ later) ≡ length mid + suc (length post) =
        ap length q ∙ length-append mid (e ∷ post) in
      let lines : remove_multi_line_comments_from_range (p ++ line ∷ later) (length p)
            (length p + length mid + 1)
          ≡ (p ++ d) ++ post =
        ap
          (λ ls.
            remove_multi_line_comments_from_range (p ++ ls) (length p) (length p + length mid + 1))
          q
        ∙ cleared p mid e post in
      let at : length p + length mid + 1 ≡ length (p ++ d) =
        omega
          (arith, length-append p d, length-dummies (mid ++ e ∷ []), length-append mid (e ∷ [])) in
      round_cleared filename fuel (p ++ line ∷ later) i (length p) (length p + length mid)
        (omega (arith, more_lines)) starts stops more_lines
        (omega (arith, length-append p (line ∷ later), sizes))
      ∙ ap₂ (remove_from filename fuel) lines at
      ∙ ih (p ++ d) post (omega (arith, sizes, le))
      ∙ ap some (behind-keeps filename d p (outside post) ∙ ap (behind filename p) (sym outs))

outside-plain : (ls : List Str) → Fails opens_comment ls → outside ls ≡ (ls, none)
unfolding outside
outside-plain [] h = refl
outside-plain (l ∷ ls) h = rw (h.0, outside) (ap (keep l) (outside-plain ls h.1))

-- From the index of the lines that are left to the first comment in them.
module _ (filename : Str) (fuel : ℕ) (ih : Agrees filename fuel) (p ls : List Str)
    (pos : 0 < length ls) (le : length ls ≤ fuel) where
  no_comment :
      Fails opens_comment ls
      → remove_from filename (suc fuel) (p ++ ls) (length p) ≡ some (behind filename p (outside ls))
  no_comment h =
      round_none filename fuel (p ++ ls) (length p) (length (p ++ ls)) _
        (omega (arith, length-append p ls)) (start-absent p ls h) refl (omega arith)
      ∙ ap (λ o. some (behind filename p o)) (sym (outside-plain ls h))

  one_comment :
      (before : List Str) (line : Str) (later : List Str)
      → ls ≡ before ++ line ∷ later
      → Fails opens_comment before
      → opens_comment line ≡ true
      → remove_from filename (suc fuel) (p ++ ls) (length p) ≡ some (behind filename p (outside ls))
  one_comment before line later q h t =
      let p' : List Str = p ++ before in
      let sizes : length ls ≡ length before + length (line ∷ later) =
        ap length q ∙ length-append before (line ∷ later) in
      let shape : p ++ ls ≡ p' ++ line ∷ later =
        ap (◌++◌ p) q ∙ sym (append_assoc p before (line ∷ later)) in
      let place : length p + length before ≡ length p' = sym (length-append p before) in
      let starts : find_next_multi_line_comment_start (p' ++ line ∷ later) (length p) ≡ length p' =
        ap (λ l. find_next_multi_line_comment_start l (length p))
          (append_assoc p before (line ∷ later))
        ∙ start-present p before line later h t
        ∙ place in
      let outs : behind filename p' (outside (line ∷ later)) ≡ behind filename p (outside ls) =
        behind-keeps filename before p (outside (line ∷ later))
        ∙ ap (behind filename p) (sym (ap outside q ∙ outside-skip before (line ∷ later) h)) in
      ap (λ l. remove_from filename (suc fuel) l (length p)) shape
      ∙ at_comment p' line later t starts (omega (arith, place)) (omega (arith, sizes, le))
          (Split-at_first closes_comment (line ∷ later))
      ∙ ap some outs
    where
      at_comment :
          (p' : List Str) (line : Str) (later : List Str)
          → opens_comment line ≡ true
          → find_next_multi_line_comment_start (p' ++ line ∷ later) (length p) ≡ length p'
          → length p ≤ length p'
          → length (line ∷ later) ≤ fuel
          → Split closes_comment (line ∷ later)
          → remove_from filename (suc fuel) (p' ++ line ∷ later) (length p)
            ≡ some (behind filename p' (outside (line ∷ later)))
      at_comment p' line later t starts b le (absent h) =
          unended_comment filename fuel p' (length p) b line later t starts h
      at_comment p' line later t starts b le (present mid e post q h k) =
          closed_comment filename fuel p' (length p) b line later t starts mid e post q h k le ih

  first_comment :
      Split opens_comment ls
      → remove_from filename (suc fuel) (p ++ ls) (length p) ≡ some (behind filename p (outside ls))
  first_comment (absent h) = no_comment h
  first_comment (present before line later q h t) = one_comment before line later q h t

remove_from-Agrees : (filename : Str) (fuel : ℕ) → Agrees filename fuel
remove_from-Agrees filename zero p ls lt = absurd (omega arith)
remove_from-Agrees filename (suc fuel) p [] lt =
    stop_at_end filename fuel (p ++ []) (length p) (omega (arith, length-append p []))
    ∙ (unfold outside in refl)
remove_from-Agrees filename (suc fuel) p (l ∷ ls) lt =
    first_comment filename fuel (remove_from-Agrees filename fuel) p (l ∷ ls) (omega arith)
      (omega arith) (Split-at_first opens_comment (l ∷ ls))

-- `RemoveMultiLineComments` ends, and on every list of lines it leaves the lines, and reports the
-- unended comment at the line number, that the one pass `outside` says.
pub remove_multi_line_comments-outside :
    (filename : Str) (lines : List Str)
    → remove_multi_line_comments filename lines ≡ some (behind filename [] (outside lines))
unfolding remove_multi_line_comments
remove_multi_line_comments-outside filename lines =
    remove_from-Agrees filename (length lines + 1) [] lines (omega arith)
