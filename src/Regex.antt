-- ===== src/Regex.antt =====
-- Python's `re`, as far as scripts/cpplint.py uses it: patterns as a data type, and a matcher that
-- backtracks in the order of Python's (left alternative first, greedy loops longest first, lazy
-- loops shortest first). A loop does not go round again on an empty match, as in Python.
-- `Match`, `Search` and `ReplaceAll` compile the pattern once per text and cache it; a pattern is a
-- value here, so the cache has no counterpart.
pub mod Sound
pub mod Position
pub mod Chars
pub mod Loops
pub mod Groups
pub mod Runs
use core_arbiter.Prelude.{
  ℕ, zero, suc, ◌+◌, ◌-◌, Bool, true, false, not, ◌&&◌, ◌||◌, Option, none, some, List, [], ◌∷◌,
  ◌++◌, ltb, leb, ◌==◌, if◌then◌else◌, length, take, drop,
}
use core_arbiter.Str.{Str, char_in}

pub data Regex : Type 0 where
  empty : Regex
  one_of : (ℕ → Bool) → Regex
  seq : Regex → Regex → Regex
  either : Regex → Regex → Regex
  star : Regex → Regex
  lazy_star : Regex → Regex
  group : ℕ → Regex → Regex
  at_start : Regex
  at_end : Regex
  word_boundary : Regex
  ahead : Regex → Regex
  not_ahead : Regex → Regex

-- The place in the text: what stands before, last character first, and what is still to come; and
-- for each group that has matched, where it begins and ends.
pub record Cursor : Type 0 where
  pub before : Str
  pub after : Str
  pub groups : List (ℕ × ℕ × ℕ)

abbrev pub is_digit : ℕ → Bool
is_digit c = leb b'0' c && leb c b'9'

abbrev pub is_upper : ℕ → Bool
is_upper c = leb b'A' c && leb c b'Z'

abbrev pub is_word : ℕ → Bool
is_word c = is_digit c || is_upper c || leb b'a' c && leb c b'z' || c == b'_'

-- `\s` in a pattern that is not compiled with `re.UNICODE`
abbrev pub is_blank : ℕ → Bool
is_blank c = leb 9 c && leb c 13 || c == 32

abbrev pub starts_word : Str → Bool
starts_word [] = false
starts_word (c ∷ s) = is_word c

-- `$`: at the end, or before a newline that ends the text
abbrev pub is_at_end : Str → Bool
is_at_end [] = true
is_at_end (c ∷ []) = c == b'\n'
is_at_end (c ∷ d ∷ s) = false

abbrev pub is_none {ℓ} : {A : Type ℓ} → Option A → Bool
is_none none = true
is_none (some a) = false

abbrev pub is_empty_str : Str → Bool
is_empty_str [] = true
is_empty_str (c ∷ s) = false

abbrev pub differs : Bool → Bool → Bool
differs a b = if a then not b else b

abbrev pub Then : Type 0
Then = Cursor → Option Cursor

-- The first alternative that goes through.
abbrev pub or_else : Option Cursor → Option Cursor → Option Cursor
or_else none b = b
or_else (some c) b = some c

abbrev pub step_char : (ℕ → Bool) → Cursor → Str → Then → Option Cursor
step_char p c [] k = none
step_char p c (x ∷ s) k = elim (p x) [
  | true ↦ k (record c { before = x ∷ c.before; after = s })
  | false ↦ none
]

-- One round of a loop goes on only if it has moved.
abbrev pub moved : Cursor → Cursor → Bool
moved c d = ltb (length d.after) (length c.after)

unfoldable pub repeat : (Cursor → Then → Option Cursor) → ℕ → Cursor → Then → Option Cursor
repeat m zero c k = k c
repeat m (suc fuel) c k =
    elim (m c (λ d. elim (moved c d) [ true ↦ repeat m fuel d k | false ↦ none ])) [
      | none ↦ k c
      | some d ↦ some d
    ]

unfoldable pub repeat_lazily : (Cursor → Then → Option Cursor) → ℕ → Cursor → Then → Option Cursor
repeat_lazily m zero c k = k c
repeat_lazily m (suc fuel) c k = elim (k c) [
  | none ↦ m c (λ d. elim (moved c d) [ true ↦ repeat_lazily m fuel d k | false ↦ none ])
  | some d ↦ some d
]

abbrev pub close_group : ℕ → Cursor → Cursor → Cursor
close_group n c d = record d { groups = (n, length c.before, length d.before) ∷ d.groups }

unfoldable pub run : Regex → Cursor → Then → Option Cursor
unfolding repeat repeat_lazily
run empty c k = k c
run (one_of p) c k = step_char p c c.after k
run (seq r s) c k = run r c (λ d. run s d k)
run (either r s) c k = elim (run r c k) [ none ↦ run s c k | some d ↦ some d ]
run (star r) c k = repeat (run r) (length c.after) c k
run (lazy_star r) c k = repeat_lazily (run r) (length c.after) c k
run (group n r) c k = run r c (λ d. k (close_group n c d))
run at_start c k = elim (is_empty_str c.before) [ true ↦ k c | false ↦ none ]
run at_end c k = elim (is_at_end c.after) [ true ↦ k c | false ↦ none ]
run word_boundary c k = elim (differs (starts_word c.before) (starts_word c.after)) [
  | true ↦ k c
  | false ↦ none
]
run (ahead r) c k = elim (run r c some) [ none ↦ none | some d ↦ k c ]
run (not_ahead r) c k = elim (run r c some) [ none ↦ k c | some d ↦ none ]

-- Shorthands for patterns.
abbrev pub char : ℕ → Regex
char c = one_of (λ d. c == d)

abbrev pub any_char : Regex
any_char = one_of (λ d. not (d == b'\n'))

abbrev pub any_of : Str → Regex
any_of cs = one_of (λ d. char_in d cs)

abbrev pub none_of : Str → Regex
none_of cs = one_of (λ d. not (char_in d cs))

abbrev pub space : Regex
space = one_of is_blank

abbrev pub plus : Regex → Regex
plus r = seq r (star r)

abbrev pub opt : Regex → Regex
opt r = either r empty

abbrev pub text : Str → Regex
text [] = empty
text (c ∷ s) = seq (char c) (text s)

-- `\w`, `\S` and `\d`
abbrev pub word : Regex
word = one_of is_word

abbrev pub ink : Regex
ink = one_of (λ c. not (is_blank c))

abbrev pub digit : Regex
digit = one_of is_digit

-- The texts as alternatives, in this order.
abbrev pub one_text : List Str → Regex
one_text [] = one_of (λ c. false)
one_text (s ∷ []) = text s
one_text (s ∷ t ∷ ts) = either (text s) (one_text (t ∷ ts))

infixr 60 ◌⨾◌
abbrev pub ◌⨾◌ : Regex → Regex → Regex
r ⨾ s = seq r s

-- A match: where it begins and ends, and its groups.
pub record Found : Type 0 where
  pub start : ℕ
  pub stop : ℕ
  pub groups : List (ℕ × ℕ × ℕ)

abbrev pub span_of : ℕ → List (ℕ × ℕ × ℕ) → Option (ℕ × ℕ)
span_of n [] = none
span_of n ((m, i, j) ∷ gs) = if n == m then some (i, j) else span_of n gs

-- `s[i:j]`
abbrev pub slice : Str → ℕ → ℕ → Str
slice s i j = take (j - i) (drop i s)

-- `m.group(n)`
abbrev pub group_text : Str → Found → ℕ → Option Str
group_text s m n = elim (span_of n m.groups) [ none ↦ none | some (i, j) ↦ some (slice s i j) ]

abbrev pub start_cursor : Str → Cursor
start_cursor s = record { before = []; after = s; groups = [] }

abbrev pub to_found : Cursor → Option Cursor → Option Found
to_found c none = none
to_found c (some d) =
    some (record { start = length c.before; stop = length d.before; groups = d.groups })

-- `Match(pattern, s)`: at the start of the text
unfoldable pub match : Regex → Str → Option Found
unfolding run
match r s = to_found (start_cursor s) (run r (start_cursor s) some)

-- `Search(pattern, s)`: at the leftmost place
unfoldable pub search_from : Regex → Str → Str → Option Found
unfolding run
search_from r before [] =
    let c : Cursor = record { before = before; after = []; groups = [] } in
    to_found c (run r c some)
search_from r before (x ∷ s) =
    let c : Cursor = record { before = before; after = x ∷ s; groups = [] } in
    elim (run r c some) [ none ↦ search_from r (x ∷ before) s | some d ↦ to_found c (some d) ]

unfoldable pub search_regex : Regex → Str → Option Found
unfolding search_from
search_regex r s = search_from r [] s

-- `ReplaceAll(pattern, rep, s)` for patterns that match no empty text, as all those do with which
-- it is called here. The fuel is the length of the text and one: each round takes a character.
unfoldable pub sub_from : Regex → Str → ℕ → Str → Str → Str
unfolding run
sub_from r rep zero before s = s
sub_from r rep (suc fuel) before [] = []
sub_from r rep (suc fuel) before (x ∷ s) =
    let c : Cursor = record { before = before; after = x ∷ s; groups = [] } in
    elim (run r c some) [
      | none ↦ x ∷ sub_from r rep fuel (x ∷ before) s
      | some d ↦ elim (moved c d) [
        | true ↦ rep ++ sub_from r rep fuel d.before d.after
        | false ↦ x ∷ sub_from r rep fuel (x ∷ before) s
      ]
    ]

unfoldable pub sub : Regex → Str → Str → Str
unfolding sub_from
sub r rep s = sub_from r rep (length s + 1) [] s

abbrev pub matches : Regex → Str → Bool
matches r s = not (is_none (match r s))

abbrev pub is_found : Regex → Str → Bool
is_found r s = not (is_none (search_regex r s))
