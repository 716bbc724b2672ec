-- ===== src/Nolint/Comment/Parse.antt =====
-- What `ParseNolintSuppressions` does at a NOLINT comment with a given text.
use core_arbiter.Prelude.{
  ℕ, suc, ◌+◌, ◌-◌, ◌≡◌, refl, sym, ap, ◌∙◌, Bool, true, false, not, Option, none, some, List, [],
  ◌∷◌, ◌++◌, arith, if◌then◌else◌, length, length-append,
}
use core_arbiter.Str.{Str, codes, ◌=s◌, is_in, char_in, ends_with}
use core_arbiter.Regex.{Found, starts_word, group_text, span_of, slice}
use core_arbiter.Regex.Position.{group_text-span}
use core_arbiter.Regex.Groups.{whole, onto}
use core_arbiter.Regex.Runs.{whole-onto, slice-onto, take-all}
use mathlib.Core.List.{append_assoc, reverse-append}
use core_arbiter.Nolint.{
  Suppressions, inner, suppress_category, suppress, is_given, parse_nolint_suppressions,
}
use core_arbiter.Tables.{error_categories, legacy_error_categories}
use core_arbiter.Nolint.Comment.{next_text, category_text, comment_text, IsClear, asked}
use core_arbiter.Nolint.Comment.Search.{category_span, next_span, comment-found}

ends_with-last : (s : Str) (c : ℕ) → ends_with (s ++ c ∷ []) (c ∷ []) ≡ true
ends_with-last s c = rw (reverse-append s (c ∷ [])) (ground arith)

inner-category : (category : Str) → inner (category_text (some category)) ≡ category
inner-category category =
    let n : length (category ++ b')' ∷ []) - 1 ≡ length category =
      omega (arith, length-append category (b')' ∷ [])) in
    let m : suc (length (category ++ b')' ∷ [])) - 1 - 1 ≡ length category = omega (arith, n) in
    rw m (take-all category (b')' ∷ []))

snoc-not_empty : (s : Str) (c : ℕ) → ((s ++ c ∷ []) =s []) ≡ false
snoc-not_empty [] c = refl
snoc-not_empty (d ∷ s) c = refl

star-category :
    (category : Str) → (category_text (some category) =s codes "(*)") ≡ (category =s codes "*")
star-category [] = refl
star-category (c ∷ []) = refl
star-category (c ∷ d ∷ s) =
    let no : ((s ++ b')' ∷ []) =s []) ≡ false = snoc-not_empty s (b')') in ground arith

abbrev given_text : Option Str → Option Str
given_text none = none
given_text (some category) = some (category_text (some category))

last_two_swapped :
    {A : Type 0} (a b c : Bool) (x y z w : A)
    → (if a then x else if b then y else if not c then w else z)
      ≡ (if a then x else if b then y else if c then z else w)
last_two_swapped true b c x y z w = refl
last_two_swapped false true c x y z w = refl
last_two_swapped false false true x y z w = refl
last_two_swapped false false false x y z w = refl

suppress-asked :
    (filename : Str) (linenum line : ℕ) (category : Option Str) (s : Suppressions)
    → suppress filename linenum line (given_text category) s
      ≡ asked filename linenum line category s
unfolding suppress suppress_category
suppress-asked filename linenum line none s = refl
suppress-asked filename linenum line (some category) s =
    rw
      (
        star-category category,
        ends_with-last (b'(' ∷ category) (b')'),
        inner-category category,
        suppress_category,
      )
      (last_two_swapped (category =s codes "*") (is_in category error_categories)
        (is_in category legacy_error_categories) _ _ _ _)

abbrev behind_nolint : Str → Str
behind_nolint before = onto (codes "NOLINT") (onto before [])

abbrev behind_next : Bool → Str → Str
behind_next next before = onto (next_text next) (behind_nolint before)

abbrev commented : Bool → Str → Str → Str
commented next before later = before ++ (codes "NOLINT" ++ (next_text next ++ later))

text-nolint :
    (next : Bool) (before later : Str)
    → commented next before later ≡ whole (behind_nolint before) (next_text next ++ later)
text-nolint next before later = sym (
    whole-onto (codes "NOLINT") (onto before []) (next_text next ++ later)
    ∙ whole-onto before [] (codes "NOLINT" ++ (next_text next ++ later)))

text-next :
    (next : Bool) (before later : Str)
    → commented next before later ≡ whole (behind_next next before) later
text-next next before later =
    text-nolint next before later ∙ sym (whole-onto (next_text next) (behind_nolint before) later)

span_of-next : (next : Bool) (b : Str) → span_of 2 (next_span next b) ≡ none
span_of-next true b = refl
span_of-next false b = refl

span_of-category :
    (category : Option Str) (b : Str) (gs : List (ℕ × ℕ × ℕ))
    → span_of 1 (category_span category b gs) ≡ span_of 1 gs
span_of-category none b gs = refl
span_of-category (some category) b gs = refl

category-group :
    (next : Bool) (category : Option Str) (before rest : Str) (m : Found)
    → m.groups
      ≡ category_span category (behind_next next before) (next_span next (behind_nolint before))
    → group_text (commented next before (category_text category ++ rest)) m 2 ≡ given_text category
category-group next none before rest m e =
    let missing : span_of 2 m.groups ≡ none =
      ap (span_of 2) e ∙ span_of-next next (behind_nolint before) in
    rw (missing, group_text) refl
category-group next (some category) before rest m e =
    let ct = category_text (some category) in
    let b = behind_next next before in
    let i = length b in
    let j = length (onto ct b) in
    group_text-span (commented next before (ct ++ rest)) m 2 i j (ap (span_of 2) e)
    ∙ ap (λ t. some t)
        (ap (λ t. slice t i j) (text-next next before (ct ++ rest)) ∙ slice-onto b ct rest)

next-group :
    (next : Bool) (category : Option Str) (before rest : Str) (m : Found)
    → m.groups
      ≡ category_span category (behind_next next before) (next_span next (behind_nolint before))
    → is_given (group_text (commented next before (category_text category ++ rest)) m 1) ≡ next
next-group false category before rest m e =
    let missing : span_of 1 m.groups ≡ none =
      ap (span_of 1) e ∙ span_of-category category (behind_next false before) [] in
    rw (missing, group_text, is_given) refl
next-group true category before rest m e =
    let later = category_text category ++ rest in
    let b = behind_nolint before in
    let i = length b in
    let j = length (onto (codes "NEXTLINE") b) in
    ap is_given (
      group_text-span (commented true before later) m 1 i j
        (ap (span_of 1) e ∙ span_of-category category (behind_next true before) (next_span true b))
      ∙ ap (λ t. some t)
          (ap (λ t. slice t i j) (text-nolint true before later)
            ∙ slice-onto b (codes "NEXTLINE") later))

-- A comment NOLINT or NOLINTNEXTLINE, behind a text without an N that does not end in the middle of
-- a word, with a category in parentheses that is not empty and has no `)`, or with none and then
-- neither a word character nor `(` behind it. It suppresses the category if that is known, and every
-- category if there is none or it is `*`, on its line, or with NEXTLINE on the next; a legacy category
-- is ignored, and any other reported.
pub parse_nolint-comment :
    (filename before rest : Str) (next : Bool) (category : Option Str) (linenum : ℕ)
    (s : Suppressions)
    → char_in b'N' before ≡ false
    → starts_word (onto before []) ≡ false
    → IsClear category rest
    → parse_nolint_suppressions filename (before ++ (comment_text next category ++ rest)) linenum s
      ≡ asked filename linenum (if next then linenum + 1 else linenum) category s
unfolding parse_nolint_suppressions
parse_nolint-comment filename before rest next category linenum s n h clear =
    let (m, found, groups) = comment-found next category before rest n h clear in
    let same : before ++ (comment_text next category ++ rest)
        ≡ commented next before (category_text category ++ rest) =
      ap (λ t. before ++ (codes "NOLINT" ++ t))
        (append_assoc (next_text next) (category_text category) rest) in
    ap (λ t. (parse_nolint_suppressions filename t linenum s)) same
    ∙ rw
        (
          found,
          next-group next category before rest m groups,
          category-group next category before rest m groups,
          parse_nolint_suppressions,
        )
        (suppress-asked filename linenum (if next then linenum + 1 else linenum) category s)
