-- ===== src/Nolint/Comment/Search.antt =====
-- Where the pattern finds a NOLINT comment.
use core_arbiter.Prelude.{
  ℕ, suc, ◌≡◌, refl, sym, ap, ◌∙◌, Bool, true, false, not, Option, none, some, List, [], ◌∷◌, ◌++◌,
  arith, ◌==◌, length, all,
}
use core_arbiter.Str.{Str, codes, char_in}
use core_arbiter.Regex.{
  Regex, Cursor, Then, one_of, star, close_group, Found, word_boundary, text, opt, group, char,
  plus, none_of, ◌⨾◌, starts_word, run, search_from, search_regex, differs,
}
use core_arbiter.Regex.Groups.{onto}
use core_arbiter.Regex.Runs.{
  at, run-one_of, run-one_of-none, test-none, first_through, run-star, onto-append,
}
use mathlib.Core.List.{append_assoc}
use core_arbiter.Nolint.{nolint_comment}
use core_arbiter.Nolint.Comment.{next_text, category_text, IsClear}

-- The spans of the groups behind the comment.
abbrev pub category_span : Option Str → Str → List (ℕ × ℕ × ℕ) → List (ℕ × ℕ × ℕ)
category_span none b gs = gs
category_span (some category) b gs =
    (2, length b, length (onto (category_text (some category)) b)) ∷ gs

abbrev pub next_span : Bool → Str → List (ℕ × ℕ × ℕ)
next_span true b = (1, length b, length (onto (codes "NEXTLINE") b)) ∷ []
next_span false b = []

abbrev category_part : Regex
category_part = word_boundary ⨾ opt (group 2 (char b'(' ⨾ plus (none_of (codes ")")) ⨾ char b')'))

abbrev not_closing : ℕ → Bool
not_closing d = not (char_in d (codes ")"))

none_of-all : (s : Str) → char_in b')' s ≡ false → all (λ d. not (char_in d (codes ")"))) s ≡ true
none_of-all [] h = refl
none_of-all (c ∷ s) h = ground (arith, none_of-all s (ground arith))

category_part-run :
    (category : Option Str) (b rest : Str) (gs : List (ℕ × ℕ × ℕ))
    → starts_word b ≡ true
    → IsClear category rest
    → run category_part (at b (category_text category ++ rest) gs) some
      ≡ some (at (onto (category_text category) b) rest (category_span category b gs))
unfolding run
category_part-run none b [] gs h clear = rw h refl
category_part-run none b (y ∷ rest) gs h clear =
    let no : (b'(' == y) ≡ false = ground arith in rw (h, clear.0, no) refl
category_part-run (some []) b rest gs h clear = absurd (ground arith)
category_part-run (some (c ∷ s)) b rest gs h clear =
    let before = onto s (c ∷ b'(' ∷ b) in
    let e = at (b')' ∷ before) rest ((2, length b, suc (length before)) ∷ gs) in
    let first : not (char_in c (codes ")")) ≡ true = ground arith in
    let last : Then = λ d. run (char b')') d (λ d'. some (close_group 2 (at b [] gs) d')) in
    let loop =
      run-star not_closing s (b')' ∷ rest) (c ∷ b'(' ∷ b) gs last e (none_of-all s (ground arith))
        refl refl in
    let ends : (s ++ b')' ∷ []) ++ rest ≡ s ++ b')' ∷ rest = append_assoc s (b')' ∷ []) rest in
    let stops : onto (s ++ b')' ∷ []) (c ∷ b'(' ∷ b) ≡ b')' ∷ before =
      onto-append s (b')' ∷ []) (c ∷ b'(' ∷ b) in
    let in_group : run (group 2 (char b'(' ⨾ plus (none_of (codes ")")) ⨾ char b')'))
          (at b (b'(' ∷ c ∷ (s ++ b')' ∷ rest)) gs) some
        ≡ some e =
      run-one_of not_closing c (s ++ b')' ∷ rest) (b'(' ∷ b) gs
        (λ d. run (star (one_of not_closing)) d last) first
      ∙ loop in
    let whole_part : run category_part (at b (b'(' ∷ c ∷ (s ++ b')' ∷ rest)) gs) some ≡ some e =
      rw (h, in_group) refl in
    ap (λ t. run category_part (at b (b'(' ∷ c ∷ t) gs) some) ends
    ∙ whole_part
    ∙ ap (λ t. some (at t rest ((2, length b, length t) ∷ gs))) (sym stops)

next_part-run :
    (next : Bool) (category : Option Str) (b rest : Str)
    → starts_word b ≡ true
    → IsClear category rest
    → run
        (opt (group 1 (text (codes "NEXTLINE"))) ⨾ category_part)
        (at b (next_text next ++ (category_text category ++ rest)) [])
        some
      ≡ some (
          at
            (onto (category_text category) (onto (next_text next) b))
            rest
            (category_span category (onto (next_text next) b) (next_span next b)))
unfolding run
next_part-run true category b rest h clear =
    first_through
      (run category_part
        (at (onto (codes "NEXTLINE") b) (category_text category ++ rest) (next_span true b)) some)
      (run category_part (at b (codes "NEXTLINE" ++ (category_text category ++ rest)) []) some)
      (at (onto (category_text category) (onto (codes "NEXTLINE") b)) rest
        (category_span category (onto (codes "NEXTLINE") b) (next_span true b)))
      (category_part-run category (onto (codes "NEXTLINE") b) rest (next_span true b) refl clear)
next_part-run false none b [] h clear = category_part-run none b [] [] h clear
next_part-run false none b (y ∷ rest) h clear =
    let no : (b'N' == y) ≡ false = ground arith in
    rw (no, run) (category_part-run none b (y ∷ rest) [] h clear)
next_part-run false (some category) b rest h clear =
    category_part-run (some category) b rest [] h clear

-- Where the comment ends, and its groups.
abbrev pub behind_comment : Bool → Option Str → Str → Str → Cursor
behind_comment next category b rest =
    at (onto (category_text category) (onto (next_text next) (onto (codes "NOLINT") b))) rest (
      category_span category (onto (next_text next) (onto (codes "NOLINT") b))
        (next_span next (onto (codes "NOLINT") b)))

comment-run :
    (next : Bool) (category : Option Str) (b rest : Str)
    → starts_word b ≡ false
    → IsClear category rest
    → run nolint_comment
        (at b (codes "NOLINT" ++ (next_text next ++ (category_text category ++ rest))) [])
        some
      ≡ some (behind_comment next category b rest)
unfolding run
comment-run next category b rest h clear =
    rw h (next_part-run next category (onto (codes "NOLINT") b) rest refl clear)

abbrev behind_boundary : Regex
behind_boundary = text (codes "NOLINT") ⨾ opt (group 1 (text (codes "NEXTLINE"))) ⨾ category_part

not_here :
    (x : ℕ) (b s : Str) → (b'N' == x) ≡ false → run nolint_comment (at b (x ∷ s) []) some ≡ none
unfolding run
not_here x b s h =
    test-none (differs (starts_word b) (starts_word (x ∷ s)))
      (run behind_boundary (at b (x ∷ s) []) some)
      (run-one_of-none (λ d. b'N' == d) x s b []
        (λ d.
          run (text (codes "OLINT")) d
            (λ d'. run (opt (group 1 (text (codes "NEXTLINE"))) ⨾ category_part) d' some))
        h)

-- The search passes a text without an N.
search-skips :
    (before b s : Str)
    → char_in b'N' before ≡ false
    → search_from nolint_comment b (before ++ s) ≡ search_from nolint_comment (onto before b) s
unfolding search_from
search-skips [] b s h = refl
search-skips (x ∷ before) b s h =
    rw (not_here x b (before ++ s) (ground arith), search_from)
      (search-skips before (x ∷ b) s (ground arith))

-- A comment of the text, behind one without an N, is found.
pub comment-found :
    (next : Bool) (category : Option Str) (before rest : Str)
    → char_in b'N' before ≡ false
    → starts_word (onto before []) ≡ false
    → IsClear category rest
    → (m : Found) × (search_regex nolint_comment
          (before ++ (codes "NOLINT" ++ (next_text next ++ (category_text category ++ rest))))
        ≡ some m)
      × (m.groups ≡ (behind_comment next category (onto before []) rest).groups)
unfolding search_regex
comment-found next category before rest n h clear =
    let d = behind_comment next category (onto before []) rest in
    let later = next_text next ++ (category_text category ++ rest) in
    let ran = comment-run next category (onto before []) rest h clear in
    (
      record { start = length (onto before []); stop = length d.before; groups = d.groups },
      search-skips before [] (codes "NOLINT" ++ later) n ∙ rw (ran, search_from) refl,
      refl,
    )
