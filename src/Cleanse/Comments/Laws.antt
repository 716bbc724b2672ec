-- ===== src/Cleanse/Comments/Laws.antt =====
-- `CleanseComments` on a `//` in a string and outside.

use core_arbiter.Prelude.{
  ℕ, zero, suc, ◌+◌, ◌%◌, ◌≡◌, refl, ap, ◌∙◌, inl, inr, Bool, false, not, some, [], ◌∷◌, ◌++◌,
  Bool-cases, if_cases, arith, Option-cases, length, ◌==◌, if◌then◌else◌,
}
use core_arbiter.Prelude.Forall.{All, All-append}
use core_arbiter.Str.{
  Str, codes, char_in, find, rstrip, count, count_from, replace, replace_from, is_space,
}
use core_arbiter.Regex.{Cursor, run, sub, sub_from}
use core_arbiter.Regex.Chars.{Takes-All}
use core_arbiter.Regex.Position.{split_seq}
use core_arbiter.Regex.Runs.{at, take-all}
use core_arbiter.Cleanse.RawStrings.Start.{text-after}
use core_arbiter.Cleanse.Comments.{
  is_cpp_string, c_comment, line_c_comments, cut_line_comment, cleanse_comments,
}
use core_arbiter.Regex.Sound.{Takes, left, right, run-Takes}

-- Whether a text ends in a string, read from its start: each quotation mark opens one or closes it.
pub in_string : Bool → Str → Bool
in_string inside [] = inside
in_string inside (c ∷ s) = in_string (if c == b'"' then not inside else inside) s

-- Characters of code without escapes, character literals, slashes and stars.
abbrev pub IsPlain : ℕ → Type 0
IsPlain c = (char_in c (codes "\\'/*") ≡ false)

abbrev NoStar : ℕ → Type 0
NoStar c = (b'*' == c) ≡ false

no_comment : {c d : Cursor} → Takes c_comment c d → All NoStar c.after → ⊥
no_comment t h =
    let (c1, t1, u1) = split_seq t in
    let e = text-after (codes "/*") t1 in let starred = (rw e at h).1.0 in cc

no_line_comment : {c d : Cursor} → Takes line_c_comments c d → All NoStar c.after → ⊥
no_line_comment (left t) h =
    let (c1, t1, u1) = split_seq t in
    let (c2, t2, u2) = split_seq u1 in no_comment t2 (Takes-All NoStar t1 h)
no_line_comment (right (left t)) h = let (c1, t1, u1) = split_seq t in no_comment t1 h
no_line_comment (right (right (left t))) h =
    let (c1, t1, u1) = split_seq t in
    let (c2, t2, u2) = split_seq u1 in no_comment t2 (Takes-All NoStar t1 h)
no_line_comment (right (right (right t))) h = no_comment t h

sub_from-NoStar :
    (fuel : ℕ) (before s : Str) → All NoStar s → sub_from line_c_comments [] fuel before s ≡ s
unfolding sub_from
sub_from-NoStar zero before s h = refl
sub_from-NoStar (suc fuel) before [] h = refl
sub_from-NoStar (suc fuel) before (x ∷ s) h =
    let c = at before (x ∷ s) [] in
    elim (Option-cases (run line_c_comments c some)) [
      | inl e ↦ rw (e, sub_from) (ap (λ t. x ∷ t) (sub_from-NoStar fuel (x ∷ before) s h.1))
      | inr (d, e) ↦ absurd (no_line_comment (run-Takes line_c_comments c d e) h)
    ]

rstrip-NoStar : (s : Str) → All NoStar s → All NoStar (rstrip s)
unfolding rstrip
rstrip-NoStar [] h = tt
rstrip-NoStar (c ∷ s) h = go (rstrip s) (rstrip-NoStar s h.1)
  where
    go :
        (r : Str)
        → All NoStar r
        → All NoStar (elim r [ [] ↦ if is_space c then [] else c ∷ [] | d ∷ t ↦ c ∷ d ∷ t ])
    go (d ∷ t) k = (h.0, k)
    go [] k = elim (Bool-cases (is_space c)) [ inl t ↦ rw t tt | inr f ↦ rw f (h.0, tt) ]

find-slashes :
    (code comment : Str)
    → All IsPlain code
    → find (code ++ (codes "//" ++ comment)) (codes "//") ≡ some (length code)
unfolding find
find-slashes [] comment h = ground arith
find-slashes (c ∷ code) comment h =
    let no : (c == b'/') ≡ false = ground arith in rw (no, find-slashes code comment h.1, find) refl

count-absent :
    (code : Str) (c : ℕ) (p : Str) → char_in c code ≡ false → count_from 0 code (c ∷ p) ≡ 0
unfolding count_from
count-absent [] c p h = refl
count-absent (d ∷ code) c p h = ground (arith, count-absent code c p (ground arith))

replace-absent :
    (code : Str) (c : ℕ) (p new : Str)
    → char_in c code ≡ false
    → replace_from 0 code (c ∷ p) new ≡ code
unfolding replace_from
replace-absent [] c p new h = refl
replace-absent (d ∷ code) c p new h = ground (arith, replace-absent code c p new (ground arith))

parity-suc : (n : ℕ) (b : Bool) → (n % 2 == 1) ≡ b → (suc n % 2 == 1) ≡ not b
parity-suc n b h = ground arith

count-quotes :
    (code : Str) (b : Bool) (n : ℕ)
    → ((n % 2 == 1) ≡ b)
    → ((count_from 0 code (codes "\"") + n) % 2 == 1) ≡ in_string b code
unfolding count_from in_string
count-quotes [] b n h = let e : 0 + n ≡ n = omega arith in rw e h
count-quotes (c ∷ code) b n h = elim (Bool-cases (c == b'"')) [
  | inl t ↦
      let e : suc (count_from 0 code (codes "\"")) + n ≡ count_from 0 code (codes "\"") + suc n =
        omega arith in
      rw (t, e, count_from, in_string) (count-quotes code (not b) (suc n) (parity-suc n b h))
  | inr f ↦ rw (f, count_from, in_string) (count-quotes code b n h)
]

plain-lacks :
    (code : Str) → All IsPlain code → (char_in b'\\' code ≡ false) × (char_in b'\'' code ≡ false)
plain-lacks [] h = (refl, refl)
plain-lacks (c ∷ code) h = let (e, f) = plain-lacks code h.1 in (ground arith, ground arith)

-- In plain code IsCppString tells whether the text ends in a string.
is_cpp_string-in_string :
    (code : Str) → All IsPlain code → is_cpp_string code ≡ in_string false code
unfolding is_cpp_string replace count
is_cpp_string-in_string code h =
    let (backslash, apostrophe) = plain-lacks code h in
    let same = replace-absent code b'\\' (codes "\\") (codes "XX") backslash in
    let no_escape = count-absent code b'\\' (codes "\"") backslash in
    let no_char = count-absent code b'\'' (codes "\"'") apostrophe in
    let parity = count-quotes code false 0 refl in
    let zeros : count_from 0 code (codes "\"") + 0 + 0 ≡ count_from 0 code (codes "\"") + 0 =
      omega arith in
    rw (same, no_escape, no_char, zeros) parity

plain-NoStar : (code : Str) → All IsPlain code → All NoStar code
plain-NoStar [] h = tt
plain-NoStar (c ∷ code) h = (ground arith, plain-NoStar code h.1)

cut_line_comment-in_string :
    (code comment : Str)
    → All IsPlain code
    → cut_line_comment (code ++ (codes "//" ++ comment))
      ≡ (if in_string false code then code ++ (codes "//" ++ comment) else rstrip code)
unfolding cut_line_comment
cut_line_comment-in_string code comment h =
    let first = take-all code (codes "//" ++ comment) in
    rw (find-slashes code comment h, cut_line_comment)
      (rw first (rw (is_cpp_string-in_string code h) refl))

sub-NoStar : (s : Str) → All NoStar s → sub line_c_comments [] s ≡ s
unfolding sub
sub-NoStar s h = sub_from-NoStar (length s + 1) [] s h

-- CleanseComments on code, `//` and a comment, where the code has no slash, star, backslash or
-- apostrophe and the comment no star: if the `//` stands in a string, the line stays as it is; if not,
-- the code is left without the white space at its end.
pub cleanse_comments-in_string :
    (code comment : Str)
    → All IsPlain code
    → All NoStar comment
    → cleanse_comments (code ++ (codes "//" ++ comment))
      ≡ (if in_string false code then code ++ (codes "//" ++ comment) else rstrip code)
unfolding cleanse_comments
cleanse_comments-in_string code comment h k =
    ap (sub line_c_comments []) (cut_line_comment-in_string code comment h)
    ∙ sub-NoStar (if in_string false code then code ++ (codes "//" ++ comment) else rstrip code) (
        if_cases (All NoStar) (in_string false code) (code ++ (codes "//" ++ comment)) (rstrip code)
          (λ _.
            All-append NoStar code (codes "//" ++ comment) (plain-NoStar code h) (refl, (refl, k)))
          (λ _. rstrip-NoStar code (plain-NoStar code h)))
