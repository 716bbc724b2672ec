-- ===== src/Checks/Braces/Total.antt =====
-- That `CheckBraces` returns.
use core_arbiter.Prelude.{
  ℕ, zero, suc, ◌+◌, ◌-◌, ◌≤◌, ◌<◌, ◌≡◌, refl, ap, Option, none, some, List, arith, inl, inr,
  Option-cases, length, drop, length-drop, get_elem?,
}
use core_arbiter.Prelude.Int.{ℤ}
use core_arbiter.Prelude.Fallible.{Given, Given-bind, Given-if}
use core_arbiter.Str.{Str, codes, find, find_from}
use core_arbiter.Str.Search.{find-le-length}
use core_arbiter.Regex.{Found, search_regex, matches, is_found}
use core_arbiter.Regex.Position.{split_seq, Takes-Onward}
use core_arbiter.Regex.Groups.{search-FoundAt, text-before}
use core_arbiter.Checks.Blank.{get_previous_non_blank_line}
use core_arbiter.Checks.Blank.Last.{get_previous_non_blank_line-LastInk}
use core_arbiter.Checks.Operators.Total.{close_expression-Given}
use core_arbiter.Checks.Width.{UnicodeData}
use core_arbiter.Checks.Braces.{
  previous_text, lone_brace, lone_brace_reports, else_clause, else_line_reports, else_if,
  else_if_parenthesis, else_if_reports, else_brace_reports, if_or_else, if_head, directive_line,
  head_end, body_reports, check_braces,
}

pub previous_text-Given :
    (elided : List Str) (linenum : ℕ)
    → linenum ≤ length elided
    → Given (previous_text elided linenum)
unfolding previous_text
previous_text-Given elided linenum le =
    let (r, e, ink) = get_previous_non_blank_line-LastInk elided linenum le in
    Given-bind (get_previous_non_blank_line elided linenum) _ (r, e) (λ r' _. (_, refl))

find_from-lt-length :
    (s : Str) (start n : ℕ) → find_from s (codes "(") start ≡ some n → n < length s
unfolding find_from
find_from-lt-length s start n h = elim (Option-cases (find (drop start s) (codes "("))) [
  | inl e ↦ absurd (ground arith)
  | inr (k, e) ↦
      let le = find-le-length (drop start s) (codes "(") k e in
      let same : start + k ≡ n = ground arith in omega (arith, le, length-drop start s, same)
]

else_if_parenthesis-lt-length :
    (line : Str) (n : ℕ) → else_if_parenthesis line ≡ some n → n < length line
unfolding else_if_parenthesis
else_if_parenthesis-lt-length line n h = elim (Option-cases (find line (codes "else if"))) [
  | inl e ↦ absurd (ground arith)
  | inr (k, e) ↦ find_from-lt-length line k n (rw (e, else_if_parenthesis) at h)
]

if_head-lt-length :
    (line : Str) (m : Found) → search_regex if_head line ≡ some m → m.stop - 1 < length line
if_head-lt-length line m h =
    let f = search-FoundAt if_head line m h in
    let (c1, t1, u1) = split_seq f.takes in
    let (c2, t2, u2) = split_seq u1 in
    let o = Takes-Onward f.takes in
    let o2 = Takes-Onward u2 in
    omega
      (arith, f.stops, f.in_text, o.same_text, o2.forward, ap length (text-before (codes "if") t2))

module _ (elided : List Str) (linenum : ℕ) (line : Str) (at : get_elem? elided linenum ≡ some line)
    (lt : linenum < length elided) where
  lone_brace_reports-Given :
      (u : UnicodeData) (l : ℤ) (filename : Str)
      → Given (lone_brace_reports u l filename elided linenum line)
  unfolding lone_brace_reports
  lone_brace_reports-Given u l filename =
      Given-if (matches lone_brace line) _ _
        (λ _.
          Given-bind _ _ (previous_text-Given elided linenum (omega (arith, lt)))
            (λ s _. (_, refl)))
        (λ _. (_, refl))

  else_line_reports-Given :
      (filename : Str) → Given (else_line_reports filename elided linenum line)
  unfolding else_line_reports
  else_line_reports-Given filename =
      Given-if (matches else_clause line) _ _
        (λ _.
          Given-bind _ _ (previous_text-Given elided linenum (omega (arith, lt)))
            (λ s _. (_, refl)))
        (λ _. (_, refl))

  else_if_reports-Given :
      (filename : Str) (o : Option ℕ)
      → ((n : ℕ) → o ≡ some n → n < length line)
      → Given (else_if_reports filename elided linenum line o)
  unfolding else_if_reports
  else_if_reports-Given filename none h = (_, refl)
  else_if_reports-Given filename (some zero) h = (_, refl)
  else_if_reports-Given filename (some (suc n)) h =
      let (q, e, ends) = close_expression-Given elided linenum line at (suc n) (h (suc n) refl) in
      Given-bind _ _ (q, e) (λ p _. (_, refl))

  else_brace_reports-Given :
      (filename : Str) → Given (else_brace_reports filename elided linenum line)
  unfolding else_brace_reports
  else_brace_reports-Given filename =
      Given-if (is_found else_if line) _ _
        (λ _.
          else_if_reports-Given filename (else_if_parenthesis line)
            (else_if_parenthesis-lt-length line))
        (λ _. (_, refl))

  head_end-Given : (m : Found) → Given (head_end elided linenum line m)
  unfolding head_end
  head_end-Given m = elim (Option-cases (search_regex if_head line)) [
    | inl e ↦ rw (e, head_end) (_, refl)
    | inr (h, e) ↦
        let (q, f, ends) =
          close_expression-Given elided linenum line at (h.stop - 1) (if_head-lt-length line h e) in
        rw (e, head_end) (q, f)
  ]

  body_reports-Given : (filename : Str) → Given (body_reports filename elided linenum line)
  unfolding body_reports
  body_reports-Given filename = elim (Option-cases (search_regex if_or_else line)) [
    | inl e ↦ rw (e, body_reports) (_, refl)
    | inr (m, e) ↦
        rw (e, body_reports)
          (Given-if (matches directive_line line) _ _ (λ _. (_, refl))
            λ _. Given-bind _ _ (head_end-Given m) (λ place _. (_, refl)))
  ]

  pub check_braces-Given :
      (u : UnicodeData) (l : ℤ) (filename : Str) → Given (check_braces u l filename elided linenum)
  unfolding check_braces
  check_braces-Given u l filename = rw at (
      Given-bind _ _ (lone_brace_reports-Given u l filename) λ lone _.
        Given-bind _ _ (else_line_reports-Given filename) λ else_line _.
          Given-bind _ _ (else_brace_reports-Given filename)
            λ else_brace _. Given-bind _ _ (body_reports-Given filename) (λ body _. (_, refl)))
