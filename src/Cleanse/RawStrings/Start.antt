-- ===== src/Cleanse/RawStrings/Start.antt =====
-- Which text begins a raw string.
use core_arbiter.Prelude.{
  ℕ, suc, ◌≡◌, refl, sym, ap, ◌∙◌, Bool, true, false, not, ◌||◌, none, some, List, [], ◌∷◌, ◌++◌,
  arith, ◌==◌, inl, inr, Option-cases, length, all,
}
use mathlib.Core.List.{append-nil, append_assoc}
use core_arbiter.Str.{Str, codes, char_in}
use core_arbiter.Regex.{
  Regex, Cursor, Then, star, group, at_end, word_boundary, char, any_char, text, ◌⨾◌, starts_word,
  is_word, is_blank, run, start_cursor, close_group,
}
use core_arbiter.Regex.Sound.{Takes, nothing, one, both, left, right, run-Takes}
use core_arbiter.Regex.Position.{split_seq}
use core_arbiter.Regex.Groups.{onto}
use core_arbiter.Regex.Loops.{OneLine}
use core_arbiter.Regex.Runs.{at, run-star, run-lazy_star, first_through, onto-append}
use core_arbiter.Cleanse.RawStrings.{raw_prefix, delimiter_char, raw_start}

-- The prefixes of a raw string.
pub data Prefix : Type 0 where
  plain utf8 utf16 utf32 wide : Prefix

abbrev pub prefix_text : Prefix → Str
prefix_text plain = codes "R"
prefix_text utf8 = codes "u8R"
prefix_text utf16 = codes "uR"
prefix_text utf32 = codes "UR"
prefix_text wide = codes "LR"

-- A character of the name of a delimiter.
abbrev pub is_delimiter : ℕ → Bool
is_delimiter c = not (is_blank c || char_in c (codes "\\()"))

-- The beginning of a raw string that does not end on its line.
abbrev pub raw_text : Prefix → Str → Str → Str
raw_text p name tail = prefix_text p ++ b'"' ∷ (name ++ b'(' ∷ tail)

abbrev quote_part : Regex
quote_part =
    char b'"' ⨾ group 2 (star delimiter_char) ⨾ char b'(' ⨾ group 3 (star any_char) ⨾ at_end

abbrev raw_part : Regex
raw_part = word_boundary ⨾ raw_prefix ⨾ quote_part

abbrev pub quote_end : Str → Str → Str → List (ℕ × ℕ × ℕ) → Cursor
quote_end name tail b gs =
    let inner = b'(' ∷ onto name (b'"' ∷ b) in
    at (onto tail inner) [] (
      (3, length inner, length (onto tail inner))
      ∷ (2, suc (length b), length (onto name (b'"' ∷ b)))
      ∷ gs)

OneLine-all : (s : Str) → OneLine s → all (λ d. not (d == b'\n')) s ≡ true
OneLine-all [] h = refl
OneLine-all (c ∷ s) h = ground (arith, OneLine-all s h.1, h.0)

quote_part-run :
    (name tail b : Str) (gs : List (ℕ × ℕ × ℕ))
    → all is_delimiter name ≡ true
    → OneLine tail
    → run quote_part (at b (b'"' ∷ (name ++ b'(' ∷ tail)) gs) some ≡ some (quote_end name tail b gs)
unfolding run
quote_part-run name tail b gs h nl =
    let before = onto name (b'"' ∷ b) in
    let gs2 = (2, suc (length b), length before) ∷ gs in
    let e = quote_end name tail b gs in
    let last : Then = λ d. run at_end (close_group 3 (at (b'(' ∷ before) [] []) d) some in
    let in_tail =
      run-star (λ d. not (d == b'\n')) tail [] (b'(' ∷ before) gs2 last e (OneLine-all tail nl) tt
        refl in
    let next : Then = λ d.
      run (char b'(' ⨾ group 3 (star any_char) ⨾ at_end) (close_group 2 (at (b'"' ∷ b) [] []) d)
        some in
    run-star is_delimiter name (b'(' ∷ tail) (b'"' ∷ b) gs next e h refl (
      ap (λ t. run (star any_char) (at (b'(' ∷ before) t gs2) last) (sym (append-nil tail))
      ∙ in_tail)

raw_prefix-run :
    (p : Prefix) (t b : Str) (gs : List (ℕ × ℕ × ℕ)) (k : Then) (e : Cursor)
    → k (at (onto (prefix_text p) b) (b'"' ∷ t) gs) ≡ some e
    → run raw_prefix (at b (prefix_text p ++ b'"' ∷ t) gs) k ≡ some e
unfolding run
raw_prefix-run plain t b gs k e h = first_through _ _ e h
raw_prefix-run utf8 t b gs k e h = first_through _ _ e h
raw_prefix-run utf16 t b gs k e h = first_through _ _ e h
raw_prefix-run utf32 t b gs k e h = first_through _ _ e h
raw_prefix-run wide t b gs k e h = h

raw_part-run :
    (p : Prefix) (name tail b : Str) (gs : List (ℕ × ℕ × ℕ))
    → starts_word b ≡ false
    → all is_delimiter name ≡ true
    → OneLine tail
    → run raw_part (at b (raw_text p name tail) gs) some
      ≡ some (quote_end name tail (onto (prefix_text p) b) gs)
unfolding run
raw_part-run p name tail b gs w h nl = inside p (
    raw_prefix-run p (name ++ b'(' ∷ tail) b gs (λ d. run quote_part d some)
      (quote_end name tail (onto (prefix_text p) b) gs)
      (quote_part-run name tail (onto (prefix_text p) b) gs h nl))
  where
    inside :
        (p : Prefix)
        → run raw_prefix (at b (raw_text p name tail) gs) (λ d. run quote_part d some)
          ≡ some (quote_end name tail (onto (prefix_text p) b) gs)
        → run raw_part (at b (raw_text p name tail) gs) some
          ≡ some (quote_end name tail (onto (prefix_text p) b) gs)
    inside plain r = rw w r
    inside utf8 r = rw w r
    inside utf16 r = rw w r
    inside utf32 r = rw w r
    inside wide r = rw w r

pub text-after : (s : Str) {c d : Cursor} → Takes (text s) c d → c.after ≡ s ++ d.after
text-after [] nothing = refl
text-after (x ∷ s) (both (one y rest q t e) u) =
    let same : x ≡ y = ground arith in
    let later : rest ≡ s ++ _ = ap (λ c. c.after) (sym e) ∙ text-after s u in
    q ∙ ap (λ z. z ∷ rest) (sym same) ∙ ap (λ w. x ∷ w) later

prefix-after :
    {c d : Cursor} → Takes raw_prefix c d → (p : Prefix) × (c.after ≡ prefix_text p ++ d.after)
prefix-after (left t) = (plain, text-after (codes "R") t)
prefix-after (right (left t)) = (utf8, text-after (codes "u8R") t)
prefix-after (right (right (left t))) = (utf16, text-after (codes "uR") t)
prefix-after (right (right (right (left t)))) = (utf32, text-after (codes "UR") t)
prefix-after (right (right (right (right t)))) = (wide, text-after (codes "LR") t)

pub quote-after :
    {r : Regex} {c d : Cursor} → Takes (char b'"' ⨾ r) c d → (t : Str) × (c.after ≡ b'"' ∷ t)
quote-after (both (one y rest q t e) u) = (rest, ground arith)

boundary-same : {c d : Cursor} → Takes word_boundary c d → d ≡ c
boundary-same (Takes.boundary k) = refl

-- The first quotation mark of a text is in one place.
before_quote :
    (s s' r r' : Str)
    → char_in b'"' s ≡ false
    → char_in b'"' s' ≡ false
    → s ++ b'"' ∷ r ≡ s' ++ b'"' ∷ r'
    → s ≡ s'
before_quote [] [] r r' h k e = refl
before_quote [] (x ∷ s') r r' h k e = absurd (ground arith)
before_quote (x ∷ s) [] r r' h k e = absurd (ground arith)
before_quote (x ∷ s) (y ∷ s') r r' h k e =
    let tails : s ++ b'"' ∷ r ≡ s' ++ b'"' ∷ r' = cc in
    let heads : x ≡ y = cc in
    let rest = before_quote s s' r r' (ground arith) (ground arith) tails in cc

prefix-word :
    (p : Prefix) → (all is_word (prefix_text p) ≡ true) × (char_in b'"' (prefix_text p) ≡ false)
prefix-word plain = (refl, refl)
prefix-word utf8 = (refl, refl)
prefix-word utf16 = (refl, refl)
prefix-word utf32 = (refl, refl)
prefix-word wide = (refl, refl)

all-first : (s t : Str) → all is_word (s ++ t) ≡ true → all is_word s ≡ true
all-first [] t h = refl
all-first (x ∷ s) t h = ground (arith, all-first s t (ground arith))

word_last : (t b : Str) (x : ℕ) → all is_word (x ∷ t) ≡ true → starts_word (onto t (x ∷ b)) ≡ true
word_last [] b x h = ground arith
word_last (y ∷ t) b x h = word_last t (x ∷ b) y (ground arith)

char_in-append :
    (c : ℕ) (s t : Str) → char_in c s ≡ false → char_in c t ≡ false → char_in c (s ++ t) ≡ false
char_in-append c [] t h k = k
char_in-append c (x ∷ s) t h k = ground (arith, char_in-append c s t (ground arith) k)

-- No raw string begins in front of one, in a text without quotation marks that ends outside a word.
not_earlier :
    (p : Prefix) (a t after : Str) (x : ℕ) (gs : List (ℕ × ℕ × ℕ))
    → starts_word (onto (a ++ x ∷ t) []) ≡ false
    → char_in b'"' (x ∷ t) ≡ false
    → run raw_part (at (onto a []) (x ∷ (t ++ (prefix_text p ++ b'"' ∷ after))) gs) some ≡ none
not_earlier p a t after x gs w h =
    let c = at (onto a []) (x ∷ (t ++ (prefix_text p ++ b'"' ∷ after))) gs in
    elim (Option-cases (run raw_part c some)) [
      | inl e ↦ e
      | inr (d, e) ↦
          let (c1, t1, u1) = split_seq (run-Takes raw_part c d e) in
          let (c2, t2, u2) = split_seq u1 in
          let (p', prefix) = prefix-after t2 in
          let (r, quote) = quote-after u2 in
          let text_is : ((x ∷ t) ++ prefix_text p) ++ b'"' ∷ after ≡ prefix_text p' ++ b'"' ∷ r =
            append_assoc (x ∷ t) (prefix_text p) (b'"' ∷ after)
            ∙ sym (ap (λ z. z.after) (boundary-same t1))
            ∙ prefix
            ∙ ap (λ z. prefix_text p' ++ z) quote in
          let same =
            before_quote ((x ∷ t) ++ prefix_text p) (prefix_text p') after r
              (char_in-append b'"' (x ∷ t) (prefix_text p) h (prefix-word p).1) (prefix-word p').1
              text_is in
          let words : all is_word (x ∷ t) ≡ true =
            all-first (x ∷ t) (prefix_text p) (ap (all is_word) same ∙ (prefix-word p').0) in
          let ends : starts_word (onto (a ++ x ∷ t) []) ≡ true =
            ap starts_word (onto-append a (x ∷ t) []) ∙ word_last t (onto a []) x words in
          absurd (cc)
    ]

quote_free-last :
    (a t : Str) (x : ℕ) → char_in b'"' (a ++ x ∷ t) ≡ false → char_in b'"' (x ∷ t) ≡ false
quote_free-last [] t x h = h
quote_free-last (y ∷ a) t x h = quote_free-last a t x (ground arith)

pub raw_start-run :
    (p : Prefix) (head name tail : Str)
    → char_in b'"' head ≡ false
    → starts_word (onto head []) ≡ false
    → OneLine head
    → all is_delimiter name ≡ true
    → OneLine tail
    → run raw_start (start_cursor (head ++ raw_text p name tail)) some
      ≡ some (
          quote_end name tail
            (onto (prefix_text p) (onto head []))
            ((1, 0, length (onto head [])) ∷ []))
unfolding run
raw_start-run p head name tail q w nl h nl' =
    let after = name ++ b'(' ∷ tail in
    run-lazy_star head (raw_text p name tail) [] []
      (λ d. run raw_part (close_group 1 (at [] [] []) d) some)
      (quote_end name tail (onto (prefix_text p) (onto head []))
        ((1, 0, length (onto head [])) ∷ []))
      nl
      (λ a t x e.
        not_earlier p a t after x ((1, 0, length (onto a [])) ∷ [])
          (ap (λ s. starts_word (onto s [])) (sym e) ∙ w)
          (quote_free-last a t x (ap (char_in b'"') (sym e) ∙ q)))
      (raw_part-run p name tail (onto head []) ((1, 0, length (onto head [])) ∷ []) w h nl')
