-- ===== src/Cleanse/RawStrings/Spec.antt =====
-- `CleanseRawStrings` on a raw string over several lines.
use core_arbiter.Prelude.{
  ℕ, suc, ◌+◌, ◌≡◌, refl, sym, ap, ◌∙◌, Bool, true, false, not, ◌&&◌, ◌||◌, Option, none, some,
  List, [], ◌∷◌, ◌++◌, arith, ◌==◌, inl, inr, Option-cases, length, drop, all,
}
use native.Mathlib.Numerals.{add-one}
use core_arbiter.Prelude.Forall.{All}
use mathlib.Core.List.{append-nil, append_assoc}
use core_arbiter.Str.{Str, codes, find, char_in, starts_with}
use core_arbiter.Regex.{
  Regex, Cursor, Then, Found, run, one_of, is_blank, match, matches, group_text, slice,
  start_cursor, starts_word, close_group,
}
use core_arbiter.Regex.Sound.{Takes, both}
use core_arbiter.Regex.Position.{split_seq, match-Takes}
use core_arbiter.Regex.Groups.{whole, onto, Takes-whole, text-before}
use core_arbiter.Regex.Chars.{Takes-All}
use core_arbiter.Regex.Loops.{OneLine}
use core_arbiter.Regex.Runs.{at, run-star, whole-onto, slice-onto, run-one_of}
use core_arbiter.Cleanse.RawStrings.{
  no_more, goes_on, raw_round, raw_start, raw_prefix, in_line_comment, leading_space, closing,
  take_out, round_at, lead_of, cleanse_line, cleanse_lines, cleanse_raw_strings, open_raw,
  open_line,
}
use core_arbiter.Cleanse.RawStrings.Start.{
  Prefix, prefix_text, raw_text, is_delimiter, quote_end, raw_start-run, quote-after, text-after,
}

open_line-plain : (line : Str) → raw_round line ≡ no_more → open_line line ≡ some (none, line)
unfolding open_raw
open_line-plain line h = rw (add-one (length line), h, open_raw)

open_line-goes_on :
    (line d head : Str) → raw_round line ≡ goes_on d head → open_line line ≡ some (some d, head)
unfolding open_raw
open_line-goes_on line d head h = rw (add-one (length line), h, open_raw)

-- An R stands in front of a quotation mark.
unfoldable pub has_raw : Str → Bool
has_raw [] = false
has_raw (c ∷ s) = (c == b'R' && starts_with s (codes "\"")) || has_raw s

has_raw-whole : (before s : Str) → has_raw s ≡ true → has_raw (whole before s) ≡ true
unfolding has_raw
has_raw-whole [] s h = h
has_raw-whole (x ∷ before) s h = has_raw-whole before (x ∷ s) (ground arith)

ends_in_r : {c d : Cursor} → Takes raw_prefix c d → (b : Str) × (d.before ≡ b'R' ∷ b)
ends_in_r (Takes.left t) = (_, text-before (codes "R") t)
ends_in_r (Takes.right (Takes.left t)) = (_, text-before (codes "u8R") t)
ends_in_r (Takes.right (Takes.right (Takes.left t))) = (_, text-before (codes "uR") t)
ends_in_r (Takes.right (Takes.right (Takes.right (Takes.left t)))) = (_, text-before (codes "UR") t)
ends_in_r (Takes.right (Takes.right (Takes.right (Takes.right t)))) =
    (_, text-before (codes "LR") t)

raw_start-has_raw : (line : Str) (m : Found) → match raw_start line ≡ some m → has_raw line ≡ true
unfolding has_raw
raw_start-has_raw line m h =
    let (d, t, e) = match-Takes raw_start line m h in
    let (c1, t1, u1) = split_seq t in
    let (c2, t2, u2) = split_seq u1 in
    let (c3, t3, u3) = split_seq u2 in
    let (c4, t4, u4) = split_seq u3 in
    let (b, r) = ends_in_r t4 in
    let (s, quote) = quote-after u4 in
    let same : whole c4.before c4.after ≡ line = Takes-whole (both t1 (both t2 (both t3 t4))) in
    let parts : whole (b'R' ∷ b) (b'"' ∷ s) ≡ line =
      ap (λ z. whole z (b'"' ∷ s)) (sym r) ∙ ap (whole c4.before) (sym quote) ∙ same in
    ap has_raw (sym parts) ∙ has_raw-whole b (b'R' ∷ b'"' ∷ s) refl

raw_round-plain : (line : Str) → has_raw line ≡ false → raw_round line ≡ no_more
unfolding raw_round
raw_round-plain line h = elim (Option-cases (match raw_start line)) [
  | inl e ↦ rw (e, raw_round) refl
  | inr (m, e) ↦ absurd (let raw = raw_start-has_raw line m e in cc)
]

cleanse_lines-plain :
    (lines : List Str) → All (λ l. has_raw l ≡ false) lines → cleanse_lines none lines ≡ some lines
unfolding cleanse_lines
cleanse_lines-plain [] h = refl
cleanse_lines-plain (line ∷ lines) h =
    rw
      (
        open_line-plain line (raw_round-plain line h.0),
        cleanse_lines-plain lines h.1,
        cleanse_lines,
      )
      refl

slash_free : (s : Str) → char_in b'/' s ≡ false → All (λ c. (b'/' == c) ≡ false) s
slash_free [] h = tt
slash_free (c ∷ s) h = (ground arith, slash_free s (ground arith))

not_in_comment : (head : Str) → char_in b'/' head ≡ false → matches in_line_comment head ≡ false
not_in_comment head h = elim (Option-cases (match in_line_comment head)) [
  | inl e ↦ rw (e, matches) refl
  | inr (m, e) ↦
      let (d, t, g) = match-Takes in_line_comment head m e in
      let (c1, t1, u1) = split_seq t in
      let (c2, t2, u2) = split_seq u1 in
      let free = Takes-All (λ c. (b'/' == c) ≡ false) (both t1 t2) (slash_free head h) in
      let slashes = text-after (codes "//") u2 in let slash = (rw slashes at free).0 in absurd (cc)
]

abbrev found_to : Cursor → Found
found_to d = record { start = 0; stop = length d.before; groups = d.groups }

match-run :
    (r : Regex) (s : Str) (d : Cursor)
    → run r (start_cursor s) some ≡ some d
    → match r s ≡ some (found_to d)
unfolding match
match-run r s d h = rw h refl

blanks_lead :
    (lead text : Str) (y : ℕ)
    → all is_blank lead ≡ true
    → is_blank y ≡ false
    → lead_of (lead ++ y ∷ text) ≡ some lead
unfolding match run
blanks_lead lead text y h k =
    let b = onto lead [] in
    let ink : not (is_blank y) ≡ true = ap not k in
    let d = at (y ∷ b) text ((1, 0, length b) ∷ []) in
    let last : Then =
      λ z. run (one_of (λ c. not (is_blank c))) (close_group 1 (at [] [] []) z) some in
    let ran : run leading_space (start_cursor (lead ++ y ∷ text)) some ≡ some d =
      run-star is_blank lead (y ∷ text) [] [] last d h k
        (run-one_of (λ c. not (is_blank c)) y text b ((1, 0, length b) ∷ []) some ink) in
    rw (match-run leading_space (lead ++ y ∷ text) d ran, lead_of)
      (ap (λ t. some t) (slice-onto [] lead (y ∷ text)))

round_at-some :
    {o1 o2 o3 : Option Str} {a b c : Str}
    → o1 ≡ some a
    → o2 ≡ some b
    → o3 ≡ some c
    → round_at o1 o2 o3 ≡ round_at (some a) (some b) (some c)
round_at-some e1 e2 e3 = rw (e1, e2, e3) refl

raw_round-raw_text :
    (p : Prefix) (head name tail : Str)
    → char_in b'"' head ≡ false
    → char_in b'/' head ≡ false
    → starts_word (onto head []) ≡ false
    → OneLine head
    → all is_delimiter name ≡ true
    → OneLine tail
    → find tail (closing name) ≡ none
    → raw_round (head ++ raw_text p name tail) ≡ goes_on (closing name) (head ++ codes "\"\"")
unfolding raw_round match take_out
raw_round-raw_text p head name tail q c w nl h nl' f =
    let line = head ++ raw_text p name tail in
    let b = onto (prefix_text p) (onto head []) in
    let d = quote_end name tail b ((1, 0, length (onto head [])) ∷ []) in
    let later = name ++ b'(' ∷ tail in
    let inner = onto name (b'"' ∷ b) in
    let ran = match-run raw_start line d (raw_start-run p head name tail q w nl h nl') in
    let from_name : line ≡ whole (b'"' ∷ b) later = sym (
      whole-onto (prefix_text p) (onto head []) (b'"' ∷ later)
      ∙ whole-onto head [] (raw_text p name tail)) in
    let from_tail : line ≡ whole (b'(' ∷ inner) (tail ++ []) =
      from_name
      ∙ sym (whole-onto name (b'"' ∷ b) (b'(' ∷ tail))
      ∙ ap (λ t. whole (b'(' ∷ inner) t) (sym (append-nil tail)) in
    let one_is : slice line 0 (length (onto head [])) ≡ head =
      slice-onto [] head (raw_text p name tail) in
    let two_is : slice line (suc (length b)) (length inner) ≡ name =
      ap (λ t. slice t (suc (length b)) (length inner)) from_name
      ∙ slice-onto (b'"' ∷ b) name (b'(' ∷ tail) in
    let three_is : slice line (suc (length inner)) (length (onto tail (b'(' ∷ inner))) ≡ tail =
      ap (λ t. slice t (suc (length inner)) (length (onto tail (b'(' ∷ inner)))) from_tail
      ∙ slice-onto (b'(' ∷ inner) tail [] in
    let one_text : group_text line (found_to d) 1 ≡ some head = ap (λ t. some t) one_is in
    let two_text : group_text line (found_to d) 2 ≡ some name = ap (λ t. some t) two_is in
    let three_text : group_text line (found_to d) 3 ≡ some tail = ap (λ t. some t) three_is in
    rw (ran, raw_round)
      (round_at-some one_text two_text three_text ∙ rw (not_in_comment head c, f, take_out) refl)

abbrev pub blanks : List Str → List Str
blanks [] = []
blanks (l ∷ ls) = codes "\"\"" ∷ blanks ls

cleanse_lines-body :
    (d : Str) (body rest out : List Str)
    → All (λ l. find l d ≡ none) body
    → cleanse_lines (some d) rest ≡ some out
    → cleanse_lines (some d) (body ++ rest) ≡ some (blanks body ++ out)
unfolding cleanse_lines
cleanse_lines-body d [] rest out h e = e
cleanse_lines-body d (l ∷ body) rest out h e =
    rw (h.0, cleanse_lines-body d body rest out h.1 e, cleanse_lines) refl

has_raw-lead :
    (lead behind : Str)
    → all is_blank lead ≡ true
    → has_raw behind ≡ false
    → has_raw (lead ++ (codes "\"\"" ++ behind)) ≡ false
unfolding has_raw
has_raw-lead [] behind h k = k
has_raw-lead (c ∷ lead) behind h k = ground (arith, has_raw-lead lead behind (ground arith) k)

-- The line that ends the raw string, and the lines behind it.
cleanse_lines-last :
    (d lead text : Str) (y n : ℕ) (rest : List Str)
    → all is_blank lead ≡ true
    → is_blank y ≡ false
    → find (lead ++ y ∷ text) d ≡ some n
    → has_raw (drop (n + length d) (lead ++ y ∷ text)) ≡ false
    → All (λ l. has_raw l ≡ false) rest
    → cleanse_lines (some d) ((lead ++ y ∷ text) ∷ rest)
      ≡ some ((lead ++ codes "\"\"" ++ drop (n + length d) (lead ++ y ∷ text)) ∷ rest)
unfolding cleanse_lines cleanse_line
cleanse_lines-last d lead text y n rest h k f r all_plain =
    let behind = drop (n + length d) (lead ++ y ∷ text) in
    let line = lead ++ codes "\"\"" ++ behind in
    let assoc = append_assoc lead (codes "\"\"") behind in
    rw
      (
        f,
        blanks_lead lead text y h k,
        open_line-plain line
            (raw_round-plain line (ap has_raw assoc ∙ has_raw-lead lead behind h r)),
        cleanse_lines-plain rest all_plain,
        cleanse_line,
        cleanse_lines,
      )
      refl

-- A raw string over several lines. The first line is `head`, which has neither a quotation mark nor a
-- slash and does not end in the middle of a word, then a prefix, `"`, the name of the delimiter, `(`
-- and `tail`. No line of `body` holds the closing delimiter; the last line, which begins with the
-- white space `lead`, holds it first at `n`. Neither behind it nor on a line of `rest` does an R stand
-- in front of a quotation mark. Then CleanseRawStrings returns: the first line becomes `head` and
-- `""`, the lines of `body` become `""`, the last line becomes `lead`, `""` and what stands behind the
-- delimiter, and the lines of `rest` stay.
pub cleanse_raw_strings-raw_string :
    (p : Prefix) (head name tail : Str) (body : List Str) (lead text : Str) (y n : ℕ)
    (rest : List Str)
    → char_in b'"' head ≡ false
    → char_in b'/' head ≡ false
    → starts_word (onto head []) ≡ false
    → OneLine head
    → all is_delimiter name ≡ true
    → OneLine tail
    → find tail (closing name) ≡ none
    → All (λ l. find l (closing name) ≡ none) body
    → all is_blank lead ≡ true
    → is_blank y ≡ false
    → find (lead ++ y ∷ text) (closing name) ≡ some n
    → has_raw (drop (n + length (closing name)) (lead ++ y ∷ text)) ≡ false
    → All (λ l. has_raw l ≡ false) rest
    → cleanse_raw_strings ((head ++ raw_text p name tail) ∷ (body ++ (lead ++ y ∷ text) ∷ rest))
      ≡ some (
          (head ++ codes "\"\"")
          ∷ (blanks body
              ++ (lead ++ codes "\"\"" ++ drop (n + length (closing name)) (lead ++ y ∷ text))
                ∷ rest))
unfolding cleanse_raw_strings cleanse_lines
cleanse_raw_strings-raw_string p head name tail body lead text y n rest q c w nl h nl' f fs hl k g r
      plain =
    let first = head ++ raw_text p name tail in
    let d = closing name in
    let behind = (lead ++ codes "\"\"" ++ drop (n + length d) (lead ++ y ∷ text)) ∷ rest in
    rw
      (
        open_line-goes_on first d (head ++ codes "\"\"")
            (raw_round-raw_text p head name tail q c w nl h nl' f),
        cleanse_lines-body d body ((lead ++ y ∷ text) ∷ rest) behind fs
            (cleanse_lines-last d lead text y n rest hl k g r plain),
        cleanse_raw_strings,
        cleanse_lines,
      )
      refl
