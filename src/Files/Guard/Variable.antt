-- ===== src/Files/Guard/Variable.antt =====
-- What the name of a header guard is made of.
use core_arbiter.Prelude.{
  ℕ, ◌+◌, ◌≡◌, refl, true, ◌||◌, Option, some, [], ◌∷◌, ◌++◌, ◌==◌, arith, if◌then◌else◌, length,
  length-append,
}
use core_arbiter.Prelude.Forall.{All, All-append}
use core_arbiter.Str.{Str, codes, upper, upper_char}
use core_arbiter.Regex.{Regex, is_digit, is_upper}
use core_arbiter.Files.System.{FileSystem}
use core_arbiter.Files.Info.{repository_name}
use core_arbiter.Files.Guard.{
  restore_filename, is_alnum, blank_out, strip_root, get_header_guard_cpp_variable,
}

-- A capital letter, a digit or an underscore.
abbrev pub IsGuardChar : ℕ → Type 0
IsGuardChar c = (is_upper c || is_digit c || c == b'_') ≡ true

upper-IsGuardChar : (c : ℕ) → IsGuardChar (upper_char (if is_alnum c then c else b'_'))
upper-IsGuardChar c = ground arith

upper-blank_out : (s : Str) → All IsGuardChar (upper (blank_out s))
unfolding upper blank_out
upper-blank_out [] = tt
upper-blank_out (c ∷ s) = (upper-IsGuardChar c, upper-blank_out s)

length-upper-blank_out : (s : Str) → length (upper (blank_out s)) ≡ length s
unfolding upper blank_out
length-upper-blank_out [] = refl
length-upper-blank_out (c ∷ s) = omega (arith, length-upper-blank_out s)

-- Where RepositoryName returns, GetHeaderGuardCPPVariable returns a name of capital letters, digits
-- and underscores, one character longer than the path from the root.
pub get_header_guard_cpp_variable-IsGuardChar :
    (fs : FileSystem) (root : Option Regex) (filename path : Str)
    → repository_name fs (restore_filename filename) ≡ some path
    → (v : Str) × (get_header_guard_cpp_variable fs root filename ≡ some v)
      × All IsGuardChar v
      × (length v ≡ length (strip_root root path) + 1)
unfolding get_header_guard_cpp_variable
get_header_guard_cpp_variable-IsGuardChar fs root filename path h =
    let s = upper (blank_out (strip_root root path)) in
    (
      s ++ codes "_",
      rw h refl,
      All-append IsGuardChar s (codes "_") (upper-blank_out (strip_root root path)) (refl, tt),
      omega (arith, length-append s (codes "_"), length-upper-blank_out (strip_root root path)),
    )
