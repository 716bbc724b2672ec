-- ===== src/Checks/Headers.antt =====
-- `_DropCommonSuffixes` and `_ClassifyInclude`, with what they use of the module `os.path`.

use core_arbiter.Prelude.{
  ℕ, ◌+◌, ◌-◌, Bool, true, false, not, ◌&&◌, ◌||◌, Option, none, some, List, [], ◌∷◌, ◌++◌, reverse,
  ltb, ◌==◌, if◌then◌else◌, length, take, drop, is_empty,
}
use core_arbiter.Str.{Str, codes, ◌=s◌, is_in, starts_with, ends_with, split, join}
use core_arbiter.Regex.{Regex, at_start, none_of, plus, ◌⨾◌, slice, match}
use core_arbiter.IncludeState.{
  HeaderType, c_sys_header, cpp_sys_header, likely_my_header, possible_my_header, other_header,
}
use core_arbiter.Tables.{cpp_headers}

-- The text before the first `c`, or all of it.
abbrev pub up_to : ℕ → Str → Str
up_to c [] = []
up_to c (d ∷ s) = if d == c then [] else d ∷ up_to c s

abbrev pub all_are : ℕ → Str → Bool
all_are c [] = true
all_are c (d ∷ s) = d == c && all_are c s

-- `s.rstrip('/')`
unfoldable pub strip_slashes : Str → Str
strip_slashes [] = []
strip_slashes (c ∷ s) =
    let rest = strip_slashes s in
    elim rest [ [] ↦ if c == b'/' then [] else c ∷ [] | d ∷ r ↦ c ∷ d ∷ r ]

-- `os.path.split`
abbrev pub path_tail : Str → Str
path_tail p = reverse (up_to b'/' (reverse p))

abbrev pub path_head : Str → Str
path_head p = take (length p - length (path_tail p)) p

unfoldable pub split_path : Str → Str × Str
unfolding strip_slashes
split_path p =
    (if all_are b'/' (path_head p) then path_head p else strip_slashes (path_head p), path_tail p)

-- `os.path.splitext(p)[0]`: up to the last dot of the tail, unless only dots stand before it
abbrev pub extension_length : Str → ℕ
extension_length p = length (up_to b'.' (reverse p)) + 1

unfoldable pub path_root : Str → Str
path_root p =
    let tail = path_tail p in
    if ltb (length tail) (extension_length tail)
      || all_are b'.' (take (length tail - extension_length tail) tail)
    then p
    else take (length p - extension_length tail) p

-- The loop of `os.path.normpath` over the components; the last one kept comes first.
unfoldable pub norm_components : Bool → List Str → List Str → List Str
norm_components absolute kept [] = kept
norm_components absolute kept (comp ∷ comps) =
    if is_empty comp || comp =s codes "."
    then norm_components absolute kept comps
    else norm_components absolute
        (elim kept [
          | [] ↦ if comp =s codes ".." && absolute then [] else comp ∷ []
          | top ∷ rest ↦
              if not (comp =s codes "..") || top =s codes ".." then comp ∷ top ∷ rest else rest
        ])
        comps

abbrev pub initial_slashes : Str → Str
initial_slashes p =
    if starts_with p (codes "//") && not (starts_with p (codes "///"))
    then codes "//"
    else if starts_with p (codes "/")
    then codes "/"
    else []

abbrev pub or_dot : Str → Str
or_dot [] = codes "."
or_dot (c ∷ s) = c ∷ s

-- `os.path.normpath`
unfoldable pub norm_path : Str → Str
unfolding norm_components split join
norm_path p = or_dot (
    initial_slashes p
    ++ join (codes "/") (reverse (norm_components (starts_with p (codes "/")) [] (split b'/' p))))

abbrev pub common_suffixes : List Str
common_suffixes =
    codes "test.cc"
    ∷ codes "regtest.cc"
    ∷ codes "unittest.cc"
    ∷ codes "inl.h"
    ∷ codes "impl.h"
    ∷ codes "internal.h"
    ∷ []

-- `filename.endswith(suffix) and len(filename) > len(suffix) and filename[-len(suffix) - 1] in ('-', '_')`
abbrev pub has_suffix : Str → Str → Bool
has_suffix filename suffix =
    ends_with filename suffix && elim (drop (length suffix) (reverse filename)) [
      | [] ↦ false
      | c ∷ rest ↦ c == b'-' || c == b'_'
    ]

unfoldable pub drop_first_suffix : Str → List Str → Str
unfolding path_root
drop_first_suffix filename [] = path_root filename
drop_first_suffix filename (suffix ∷ suffixes) =
    if has_suffix filename suffix
    then take (length filename - length suffix - 1) filename
    else drop_first_suffix filename suffixes

unfoldable pub drop_common_suffixes : Str → Str
unfolding drop_first_suffix
drop_common_suffixes filename = drop_first_suffix filename common_suffixes

-- `_RE_FIRST_COMPONENT`: `^[^-_.]+`
abbrev pub first_component : Regex
first_component = at_start ⨾ plus (none_of (codes "-_."))

-- `match.group(0)`
abbrev pub whole_match : Regex → Str → Option Str
whole_match r s = elim (match r s) [ none ↦ none | some m ↦ some (slice s m.start m.stop) ]

abbrev pub same_component : Option Str → Option Str → Bool
same_component (some s) (some t) = s =s t
same_component _ _ = false

abbrev pub by_name : Str × Str → Str × Str → HeaderType
by_name (target_dir, target_base) (include_dir, include_base) =
    if target_base =s include_base
      && (include_dir =s target_dir || include_dir =s norm_path (target_dir ++ codes "/../public"))
    then likely_my_header
    else if same_component (whole_match first_component target_base)
        (whole_match first_component include_base)
    then possible_my_header
    else other_header

-- The first argument is what `fileinfo.RepositoryName()` gives, which depends on the file system.
unfoldable pub classify_include : Str → Str → Bool → HeaderType
unfolding drop_common_suffixes split_path norm_path cpp_headers match
classify_include repository_name include is_system =
    if is_system
    then (if is_in include cpp_headers then cpp_sys_header else c_sys_header)
    else by_name (split_path (drop_common_suffixes repository_name))
        (split_path (drop_common_suffixes include))
