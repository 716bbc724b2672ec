-- ===== src/Examples/Paths.antt =====
-- Names of files in small file systems.
use core_arbiter.Prelude.{
  ◌+◌, ◌≡◌, refl, inl, inr, true, false, some, none, List, [], ◌∷◌, if◌then◌else◌, length, drop,
}
use core_arbiter.Prelude.{ap, sym, ◌∙◌}
use mathlib.Core.Path.{subst}
use core_arbiter.Str.{Str, codes, is_in}
use core_arbiter.Checks.Headers.{split_path}
use core_arbiter.Files.System.{FileSystem, dirname}
use core_arbiter.Files.System.Above.{Above, here, Above-cases, own_parent-Above}
use core_arbiter.Files.Info.{
  full_path, repository_name, is_checkout, has_entry, svn_root, split_file,
}
use core_arbiter.Files.Info.Root.{IsRoot, repository_name-IsRoot}
use core_arbiter.Files.Info.Svn.{IsSvnTop, RootsAreFree, repository_name-IsSvnTop, svn_root-endless}

-- The paths that exist.
abbrev holding : List Str → FileSystem
holding paths = record {
  cwd = codes "/w";
  exists = λ p. is_in p paths;
  is_file = λ p. is_in p paths;
  read_lines = λ p. none;
}

abbrev git_checkout : FileSystem
git_checkout = holding (codes "/w/r/s/a.cc" ∷ codes "/w/r/.git" ∷ codes "/w/r/s/.git" ∷ [])

in_git_checkout : repository_name git_checkout (codes "r/x/../s/a.cc") ≡ some (codes "s/a.cc")
unfolding repository_name
in_git_checkout = refl

not_there : repository_name git_checkout (codes "r\\b.cc") ≡ some (codes "/w/r/b.cc")
unfolding repository_name
not_there = refl

in_parts :
    split_file git_checkout (codes "r/s/a.cc")
    ≡ some (record { directory = codes "s"; base_name = codes "a"; extension = codes ".cc" })
unfolding split_file
in_parts = refl

git_exists : git_checkout.exists (full_path git_checkout (codes "r/s/a.cc")) ≡ true
unfolding full_path
git_exists = refl

git_has_no_svn :
    has_entry git_checkout (dirname (full_path git_checkout (codes "r/s/a.cc"))) (codes ".svn")
    ≡ false
unfolding full_path dirname split_path
git_has_no_svn = refl

repository_name-IsRoot_example :
    (r : Str) × IsRoot git_checkout (dirname (full_path git_checkout (codes "r/s/a.cc"))) r
    × (repository_name git_checkout (codes "r/s/a.cc")
        ≡ some (
            if is_checkout git_checkout r
            then drop (length r + 1) (full_path git_checkout (codes "r/s/a.cc"))
            else full_path git_checkout (codes "r/s/a.cc")))
repository_name-IsRoot_example =
    repository_name-IsRoot git_checkout (codes "r/s/a.cc") git_exists git_has_no_svn

-- A file in the root of the file system loses the first letter of its name.
in_the_root :
    repository_name (holding (codes "/a.cc" ∷ codes "/.git" ∷ [])) (codes "/a.cc")
    ≡ some (codes ".cc")
unfolding repository_name
in_the_root = refl

abbrev svn_checkout : FileSystem
svn_checkout = holding (codes "/r/a.cc" ∷ codes "/r/.svn" ∷ [])

abbrev svn_file : Str
svn_file = codes "/r/a.cc"

svn_project : dirname (full_path svn_checkout svn_file) ≡ codes "/r"
unfolding full_path dirname split_path
svn_project = refl

svn_exists : svn_checkout.exists (full_path svn_checkout svn_file) ≡ true
unfolding full_path
svn_exists = refl

svn_has_svn :
    has_entry svn_checkout (dirname (full_path svn_checkout svn_file)) (codes ".svn") ≡ true
unfolding full_path dirname split_path
svn_has_svn = refl

r-Above : (d : Str) → Above d (codes "/r") → d ≡ dirname d → d ≡ codes "/"
unfolding dirname split_path
r-Above d a own = elim (Above-cases a) [
  | inl e ↦ let same : codes "/r" ≡ codes "/" = sym e ∙ own ∙ ap dirname e in absurd (cc same)
  | inr b ↦ own_parent-Above (codes "/") refl refl b
]

svn_roots_free : RootsAreFree svn_checkout (dirname (full_path svn_checkout svn_file))
svn_roots_free d a own = rw (r-Above d (subst (Above d) svn_project a) own) refl

repository_name-IsSvnTop_example :
    (r : Str) × IsSvnTop svn_checkout (dirname (full_path svn_checkout svn_file)) r
    × (repository_name svn_checkout svn_file
        ≡ some (drop (length r + 1) (full_path svn_checkout svn_file)))
repository_name-IsSvnTop_example =
    repository_name-IsSvnTop svn_checkout svn_file svn_exists svn_has_svn svn_roots_free

abbrev svn_everywhere : FileSystem
svn_everywhere = record svn_checkout { exists = λ p. true }

all_svn : (e : Str) → Above e (codes "/r") → has_entry svn_everywhere e (codes ".svn") ≡ true
all_svn e a = refl

svn_root-endless_example : svn_root svn_everywhere 100 (codes "/r") (dirname (codes "/r")) ≡ none
svn_root-endless_example =
    svn_root-endless svn_everywhere 100 (codes "/r") (codes "/r") all_svn here
