-- ===== src/Files/Guard/Accepts.antt =====
-- Which headers `CheckForHeaderGuard` takes for guarded.
use core_arbiter.Prelude.{
  ℕ, ◌+◌, ◌<◌, ◌≡◌, refl, Bool, true, false, not, ◌&&◌, ◌||◌, Option, some, List, [], ◌∷◌, arith,
  inl, inr, ◌⊎◌, if_cases, Option-cases, Bool-cases, not, ◌||◌, ◌&&◌, if◌then◌else◌, length,
  is_empty, get_elem?-some, get_elem?,
}
use core_arbiter.Prelude.Forall.{All, All-append}
use core_arbiter.Str.{Str, codes, ◌=s◌, words}
use core_arbiter.Regex.{Regex, match}
use core_arbiter.Report.{Report}
use core_arbiter.Cleanse.Lines.{CleansedLines}
use core_arbiter.Nolint.{Suppressions, parse_nolint_suppressions}
use core_arbiter.Nolint.Exact.{
  Effect, nothing, every_category, one_category, unknown, parse_nolint-Effect,
}
use core_arbiter.Regex.{Found, group_text, matches}
use core_arbiter.Prelude.{any}
use core_arbiter.Str.{starts_with}
use core_arbiter.Files.Guard.{
  with_more, line_comment_on, block_comment_on, line_comment, inner_lines, has_underscore,
}
use core_arbiter.Files.System.{FileSystem}
use core_arbiter.Files.Guard.{
  get_header_guard_cpp_variable, is_silenced, GuardLines, no_guard_lines, guard_words, guard_line,
  guard_lines, no_guard, is_unguarded, endif_reports, guard_result, check_for_header_guard, told,
  guard_report, block_comment_reports,
}

-- The second word of a line that begins with the directive, or nothing.
abbrev pub argument : Str → List Str → Str
argument directive [] = []
argument directive (word ∷ []) = []
argument directive (word ∷ arg ∷ rest) = if word =s directive then arg else []

-- The first argument that a directive has in the lines, or nothing.
pub first_argument : Str → List Str → Str
first_argument directive [] = []
first_argument directive (line ∷ lines) =
    if is_empty (argument directive (words line))
    then first_argument directive lines
    else argument directive (words line)

-- The first #ifndef and the first #define have the same argument.
pub is_guarded : List Str → Bool
unfolding first_argument
is_guarded lines =
    not (is_empty (first_argument (codes "#ifndef") lines))
    && not (is_empty (first_argument (codes "#define") lines))
    && first_argument (codes "#ifndef") lines =s first_argument (codes "#define") lines

abbrev or_else : Str → Str → Str
or_else s t = if is_empty s then t else s

keep_nil : (s : Str) → s ≡ or_else s []
keep_nil [] = refl
keep_nil (c ∷ s) = refl

guard_words-ifndef :
    (n : ℕ) (ws : List Str) (g : GuardLines)
    → (guard_words n ws g).ifndef ≡ or_else g.ifndef (argument (codes "#ifndef") ws)
guard_words-ifndef n [] g = keep_nil g.ifndef
guard_words-ifndef n (w ∷ []) g = keep_nil g.ifndef
guard_words-ifndef n (w ∷ a ∷ ws) g = ground arith

guard_words-define :
    (n : ℕ) (ws : List Str) (g : GuardLines)
    → (guard_words n ws g).define ≡ or_else g.define (argument (codes "#define") ws)
guard_words-define n [] g = keep_nil g.define
guard_words-define n (w ∷ []) g = keep_nil g.define
guard_words-define n (w ∷ a ∷ ws) g = ground arith

guard_line-ifndef :
    (n : ℕ) (line : Str) (g : GuardLines)
    → (guard_line n line g).ifndef ≡ or_else g.ifndef (argument (codes "#ifndef") (words line))
unfolding guard_line
guard_line-ifndef n line g = ground (arith, guard_words-ifndef n (words line) g)

guard_line-define :
    (n : ℕ) (line : Str) (g : GuardLines)
    → (guard_line n line g).define ≡ or_else g.define (argument (codes "#define") (words line))
unfolding guard_line
guard_line-define n line g = ground (arith, guard_words-define n (words line) g)

guard_lines-ifndef :
    (n : ℕ) (lines : List Str) (g : GuardLines)
    → (guard_lines n lines g).ifndef ≡ or_else g.ifndef (first_argument (codes "#ifndef") lines)
unfolding guard_lines first_argument
guard_lines-ifndef n [] g = keep_nil g.ifndef
guard_lines-ifndef n (line ∷ lines) g =
    ground
      (arith, guard_lines-ifndef (n + 1) lines (guard_line n line g), guard_line-ifndef n line g)

guard_lines-define :
    (n : ℕ) (lines : List Str) (g : GuardLines)
    → (guard_lines n lines g).define ≡ or_else g.define (first_argument (codes "#define") lines)
unfolding guard_lines first_argument
guard_lines-define n [] g = keep_nil g.define
guard_lines-define n (line ∷ lines) g =
    ground
      (arith, guard_lines-define (n + 1) lines (guard_line n line g), guard_line-define n line g)

guard_words-endif :
    (n : ℕ) (ws : List Str) (g : GuardLines) → (guard_words n ws g).endif_linenum ≡ g.endif_linenum
guard_words-endif n [] g = refl
guard_words-endif n (w ∷ []) g = refl
guard_words-endif n (w ∷ a ∷ ws) g = ground arith

guard_line-endif :
    (n : ℕ) (line : Str) (g : GuardLines)
    → ((guard_line n line g).endif_linenum ≡ n)
      ⊎ ((guard_line n line g).endif_linenum ≡ g.endif_linenum)
unfolding guard_line
guard_line-endif n line g = go (starts_with line (codes "#endif"))
  where
    h : GuardLines
    h = guard_words n (words line) g

    go :
        (b : Bool)
        → ((if b then record h { endif = line; endif_linenum = n } else h).endif_linenum ≡ n)
          ⊎ ((if b then record h { endif = line; endif_linenum = n } else h).endif_linenum
              ≡ g.endif_linenum)
    go true = inl refl
    go false = inr (guard_words-endif n (words line) g)

guard_lines-endif :
    (n : ℕ) (lines : List Str) (g : GuardLines)
    → g.endif_linenum < n + length lines
    → (guard_lines n lines g).endif_linenum < n + length lines
unfolding guard_lines
guard_lines-endif n [] g h = h
guard_lines-endif n (line ∷ lines) g h = elim (guard_line-endif n line g) [
  | inl e ↦ omega (arith, guard_lines-endif (n + 1) lines (guard_line n line g) (omega arith))
  | inr e ↦ omega (arith, guard_lines-endif (n + 1) lines (guard_line n line g) (omega arith))
]

-- A report that is of confidence 0, or about a NOLINT comment.
abbrev pub IsMinor : Report → Type 0
IsMinor r = (r.confidence ≡ 0) ⊎ (r.category ≡ codes "readability/nolint")

told-IsMinor :
    (filename : Str) (g : GuardLines) (message : Str) (m : Found)
    → All IsMinor (told filename g message m)
told-IsMinor filename g message m = go (has_underscore (group_text g.endif m 1))
  where
    go :
        (b : Bool)
        → All IsMinor (if b then guard_report filename g.endif_linenum 0 message ∷ [] else [])
    go true = (inl refl, tt)
    go false = tt

block_comment_reports-IsMinor :
    (filename cppvar : Str) (raw_lines : List Str) (g : GuardLines)
    → All IsMinor (block_comment_reports filename cppvar raw_lines g)
unfolding block_comment_reports
block_comment_reports-IsMinor filename cppvar raw_lines g =
    if_cases (All IsMinor) (any (matches line_comment) (inner_lines raw_lines)) _ _ (λ _. tt)
      λ _. elim (Option-cases (match (block_comment_on cppvar) g.endif)) [
        | inl e ↦ rw e tt
        | inr (m, e) ↦ rw e (told-IsMinor filename g _ m)
      ]

endif_reports-IsMinor :
    (filename cppvar : Str) (raw_lines : List Str) (g : GuardLines)
    → All IsMinor (endif_reports filename cppvar raw_lines g)
unfolding endif_reports
endif_reports-IsMinor filename cppvar raw_lines g =
    elim (Option-cases (match (line_comment_on cppvar) g.endif)) [
      | inl e ↦ rw e (block_comment_reports-IsMinor filename cppvar raw_lines g)
      | inr (m, e) ↦ rw e (told-IsMinor filename g _ m)
    ]

parse_nolint-IsMinor :
    (filename line : Str) (n : ℕ) (sup : Suppressions)
    → All IsMinor (parse_nolint_suppressions filename line n sup).1
parse_nolint-IsMinor filename line n sup = go (parse_nolint-Effect filename n sup line)
  where
    go : {r : Suppressions × List Report} → Effect filename n sup r → All IsMinor r.1
    go (nothing e) = rw e tt
    go (every_category k l e) = rw e tt
    go (one_category c k l m e) = rw e tt
    go (unknown c m l e) = rw e (inr refl, tt)

lt-length-is_guarded : (lines : List Str) → is_guarded lines ≡ true → 0 < 0 + length lines
unfolding is_guarded first_argument
lt-length-is_guarded [] h = cc
lt-length-is_guarded (line ∷ lines) h = omega arith

-- What the check leaves and says, of a header that is guarded or not.
abbrev pub Verdict : Str → Str → Suppressions → Bool → Suppressions × List Report → Type 0
Verdict filename cppvar sup true r = All IsMinor r.1
Verdict filename cppvar sup false r = r ≡ (sup, no_guard filename cppvar ∷ [])

module _ (fs : FileSystem) (root : Option Regex) (filename : Str) (clean_lines : CleansedLines)
    (sup : Suppressions) {cppvar : Str}
    (named : get_header_guard_cpp_variable fs root filename ≡ some cppvar)
    (heard : is_silenced clean_lines.lines_without_raw_strings ≡ false) where
  abbrev raw_lines : List Str
  raw_lines = clean_lines.lines_without_raw_strings

  abbrev found : GuardLines
  found = guard_lines 0 raw_lines no_guard_lines

  found-is_guarded : is_unguarded found ≡ not (is_guarded raw_lines)
  unfolding is_guarded
  found-is_guarded =
      rw
        (
          guard_lines-ifndef 0 raw_lines no_guard_lines,
          guard_lines-define 0 raw_lines no_guard_lines,
        )
        (none_fails (is_empty (first_argument (codes "#ifndef") raw_lines)) _ _)
    where
      none_fails : (a b c : Bool) → (a || b || not c) ≡ not (not a && not b && c)
      none_fails a b c = ground arith

  found-line :
      is_guarded raw_lines ≡ true → (s : Str) × (get_elem? raw_lines found.endif_linenum ≡ some s)
  found-line h = get_elem?-some raw_lines found.endif_linenum (
      omega
        (arith, guard_lines-endif 0 raw_lines no_guard_lines (lt-length-is_guarded raw_lines h)))

  -- Where no line silences the check and the name of the guard is found, CheckForHeaderGuard returns.
  -- If the first #ifndef and the first #define have the same argument, all its messages are of
  -- confidence 0 or about a NOLINT comment; if not, its only message is that of a missing guard, and
  -- the suppressions stay as they are.
  pub check_for_header_guard-is_guarded :
      (r : Suppressions × List Report) × (check_for_header_guard fs root filename clean_lines sup
        ≡ some r)
      × Verdict filename cppvar sup (is_guarded raw_lines) r
  unfolding check_for_header_guard guard_result
  check_for_header_guard-is_guarded = elim (Bool-cases (is_guarded raw_lines)) [
    | inl g ↦
        let (line, e) = found-line g in
        (
          with_more (endif_reports filename cppvar raw_lines found)
              (parse_nolint_suppressions filename line found.endif_linenum sup),
          rw (heard, named, found-is_guarded, g, e) refl,
          rw g (
              All-append IsMinor _ _ (parse_nolint-IsMinor filename line found.endif_linenum sup)
                (endif_reports-IsMinor filename cppvar raw_lines found)),
        )
    | inr u ↦ (
      (sup, no_guard filename cppvar ∷ []),
      rw (heard, named, found-is_guarded, u) refl,
      rw u refl,
    )
  ]
