-- ===== src/Str.antt =====
-- Python's `unicode` text as its code points, and the methods of it that scripts/cpplint.py calls:
-- `startswith`, `endswith`, `find`, `count`, `replace`, `split`, `join`, `strip`, `lower`, `==`, `<`.
pub mod Search
pub mod Decimal
use Prim.Native.Char.{code}
use core_arbiter.Prelude.{
  ℕ, zero, suc, ◌+◌, ◌-◌, String, Bool, true, false, ◌&&◌, ◌||◌, Option, none, some, List, [], ◌∷◌,
  ◌++◌, reverse, ltb, leb, ◌==◌, if◌then◌else◌, length, drop, is_empty,
}

abbrev pub Str : Type 0
Str = List ℕ

-- The code points of a literal. `String` has its own `[]` and `∷`.
abbrev pub codes : String → Str
codes String.[] = []
codes (String.◌∷◌ c s) = code c ∷ codes s

infix 50 ◌=s◌
abbrev pub ◌=s◌ : Str → Str → Bool
[] =s [] = true
[] =s (d ∷ t) = false
(c ∷ s) =s [] = false
(c ∷ s) =s (d ∷ t) = (c == d) && (s =s t)

-- `s in (...)` and `s in set`
abbrev pub is_in : Str → List Str → Bool
is_in s [] = false
is_in s (t ∷ ts) = s =s t || is_in s ts

abbrev pub char_in : ℕ → Str → Bool
char_in c [] = false
char_in c (d ∷ s) = c == d || char_in c s

-- `s < t`: by code points, a proper prefix first
abbrev pub lt_str : Str → Str → Bool
lt_str s [] = false
lt_str [] (d ∷ t) = true
lt_str (c ∷ s) (d ∷ t) = ltb c d || (c == d && lt_str s t)

-- `s.startswith(p)`
abbrev pub starts_with : Str → Str → Bool
starts_with s [] = true
starts_with [] (d ∷ p) = false
starts_with (c ∷ s) (d ∷ p) = c == d && starts_with s p

-- `s.endswith(p)`
abbrev pub ends_with : Str → Str → Bool
ends_with s p = starts_with (reverse s) (reverse p)

-- `s.find(p)`; `none` is -1
unfoldable pub find : Str → Str → Option ℕ
find [] p = if starts_with [] p then some 0 else none
find (c ∷ s) p =
    if starts_with (c ∷ s) p
    then some 0
    else elim (find s p) [ none ↦ none | some n ↦ some (suc n) ]

-- `s.find(p, start)` for a start within the text
unfoldable pub find_from : Str → Str → ℕ → Option ℕ
unfolding find
find_from s p start = elim (find (drop start s) p) [ none ↦ none | some n ↦ some (start + n) ]

-- `s.count(p)` for a text `p` that is not empty: occurrences that do not overlap. The number is how
-- many characters of the last occurrence are still to pass.
unfoldable pub count_from : ℕ → Str → Str → ℕ
count_from skip [] p = 0
count_from (suc skip) (c ∷ s) p = count_from skip s p
count_from zero (c ∷ s) p = elim (starts_with (c ∷ s) p) [
  | true ↦ suc (count_from (length p - 1) s p)
  | false ↦ count_from zero s p
]

unfoldable pub count : Str → Str → ℕ
unfolding count_from
count s p = count_from 0 s p

-- `s.replace(old, new)` for a text `old` that is not empty
unfoldable pub replace_from : ℕ → Str → Str → Str → Str
replace_from skip [] old new = []
replace_from (suc skip) (c ∷ s) old new = replace_from skip s old new
replace_from zero (c ∷ s) old new = elim (starts_with (c ∷ s) old) [
  | true ↦ new ++ replace_from (length old - 1) s old new
  | false ↦ c ∷ replace_from zero s old new
]

unfoldable pub replace : Str → Str → Str → Str
unfolding replace_from
replace s old new = replace_from 0 s old new

-- What `unicode.isspace` accepts in Python 2; `strip` takes these off.
abbrev pub is_space : ℕ → Bool
is_space c =
    leb 9 c && leb c 13
    || leb 28 c && leb c 32
    || char_in c (0x85 ∷ 0xa0 ∷ 0x1680 ∷ 0x180e ∷ 0x2028 ∷ 0x2029 ∷ 0x202f ∷ 0x205f ∷ 0x3000 ∷ [])
    || leb 0x2000 c && leb c 0x200a

unfoldable pub lstrip : Str → Str
lstrip [] = []
lstrip (c ∷ s) = if is_space c then lstrip s else c ∷ s

unfoldable pub rstrip : Str → Str
rstrip [] = []
rstrip (c ∷ s) =
    let rest = rstrip s in elim rest [ [] ↦ if is_space c then [] else c ∷ [] | d ∷ r ↦ c ∷ d ∷ r ]

unfoldable pub strip : Str → Str
unfolding lstrip rstrip
strip s = lstrip (rstrip s)

-- `s.split(sep)` for one character; the first piece and the others
unfoldable pub split_pieces : ℕ → Str → Str × List Str
split_pieces sep [] = ([], [])
split_pieces sep (c ∷ s) =
    let (piece, pieces) = split_pieces sep s in
    if c == sep then ([], piece ∷ pieces) else (c ∷ piece, pieces)

unfoldable pub split : ℕ → Str → List Str
unfolding split_pieces
split sep s = let (piece, pieces) = split_pieces sep s in piece ∷ pieces

-- `sep.join(pieces)`
unfoldable pub join : Str → List Str → Str
join sep [] = []
join sep (s ∷ []) = s
join sep (s ∷ t ∷ ts) = s ++ sep ++ join sep (t ∷ ts)

abbrev pub lower_char : ℕ → ℕ
lower_char c = if leb b'A' c && leb c b'Z' then c + 32 else c

-- `s.lower()` where the letters of the text are ASCII
unfoldable pub lower : Str → Str
lower [] = []
lower (c ∷ s) = lower_char c ∷ lower s

abbrev pub upper_char : ℕ → ℕ
upper_char c = if leb b'a' c && leb c b'z' then c - 32 else c

-- `s.upper()` where the letters of the text are ASCII
unfoldable pub upper : Str → Str
upper [] = []
upper (c ∷ s) = upper_char c ∷ upper s

-- `s.split()`: the word at the start, which may be empty, and the words after it
unfoldable pub split_words : Str → Str × List Str
split_words [] = ([], [])
split_words (c ∷ s) =
    let (word, later) = split_words s in
    if is_space c then ([], if is_empty word then later else word ∷ later) else (c ∷ word, later)

unfoldable pub words : Str → List Str
unfolding split_words
words s = let (word, later) = split_words s in if is_empty word then later else word ∷ later

-- `s.find(p) != -1`
abbrev pub contains : Str → Str → Bool
contains s p = elim (find s p) [ none ↦ false | some n ↦ true ]

-- `s.rfind(c)` for one character; `none` is -1
unfoldable pub rfind_char : ℕ → Str → Option ℕ
rfind_char c [] = none
rfind_char c (d ∷ s) = elim (rfind_char c s) [
  | none ↦ if d == c then some 0 else none
  | some n ↦ some (suc n)
]

-- The texts one after the other.
abbrev pub joined : List Str → Str
joined [] = []
joined (s ∷ ss) = s ++ joined ss
