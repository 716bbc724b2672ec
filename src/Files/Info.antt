-- ===== src/Files/Info.antt =====
-- The class `FileInfo`. An object is its file name; `none` is a search that does not end.
pub mod Svn
pub mod Root
use core_arbiter.Prelude.{
  ℕ, zero, suc, ◌+◌, Bool, ◌||◌, Option, none, some, [], ◌∷◌, ◌++◌, if◌then◌else◌, length, drop,
}
use core_arbiter.Str.{Str, codes, ◌=s◌, is_in, replace}
use core_arbiter.Prelude.Fallible.{◌>>=◌}
use core_arbiter.Checks.Headers.{split_path, path_root}
use core_arbiter.Files.System.{FileSystem, join_path, abs_path, dirname, common_prefix}

-- `FullName`
unfoldable pub full_path : FileSystem → Str → Str
unfolding abs_path replace
full_path fs filename = replace (abs_path fs filename) (codes "\\") (codes "/")

abbrev pub has_entry : FileSystem → Str → Str → Bool
has_entry fs dir name = fs.exists (join_path dir name)

-- `while os.path.exists(os.path.join(one_up_dir, ".svn"))`: the last `root_dir`
unfoldable pub svn_root : FileSystem → ℕ → Str → Str → Option Str
unfolding dirname
svn_root fs zero root_dir one_up_dir = none
svn_root fs (suc fuel) root_dir one_up_dir =
    let rest = svn_root fs fuel (dirname root_dir) (dirname one_up_dir) in
    if has_entry fs one_up_dir (codes ".svn") then rest else some root_dir

-- The directory holds ".git", ".hg" or ".svn".
unfoldable pub is_checkout : FileSystem → Str → Bool
is_checkout fs dir =
    has_entry fs dir (codes ".git")
    || has_entry fs dir (codes ".hg")
    || has_entry fs dir (codes ".svn")

-- `while current_dir != os.path.dirname(current_dir)`: the last `root_dir`
unfoldable pub checkout_root : FileSystem → ℕ → Str → Str → Option Str
unfolding dirname is_checkout
checkout_root fs zero root_dir current_dir = none
checkout_root fs (suc fuel) root_dir current_dir =
    let rest =
      checkout_root fs fuel (if is_checkout fs current_dir then current_dir else root_dir)
        (dirname current_dir) in
    if current_dir =s dirname current_dir then some root_dir else rest

-- `fullname[len(os.path.commonprefix([root_dir, project_dir])) + 1:]`
abbrev pub behind_root : Str → Str → Str → Str
behind_root fullname project_dir root_dir =
    drop (length (common_prefix root_dir project_dir) + 1) fullname

-- The name of a file that exists. Each round of a loop shortens a path or repeats itself.
unfoldable pub name_in_checkout : FileSystem → Str → Option Str
unfolding svn_root checkout_root common_prefix dirname is_checkout
name_in_checkout fs fullname =
    let project_dir = dirname fullname in
    let fuel = length project_dir + 1 in
    if has_entry fs project_dir (codes ".svn")
    then (do
      root_dir ← svn_root fs fuel project_dir (dirname project_dir)
      some (behind_root fullname project_dir root_dir))
    else (do
      root_dir ← checkout_root fs fuel project_dir project_dir
      some
          (if is_checkout fs root_dir then behind_root fullname project_dir root_dir else fullname))

unfoldable pub repository_name : FileSystem → Str → Option Str
unfolding full_path name_in_checkout
repository_name fs filename =
    let fullname = full_path fs filename in
    if fs.exists fullname then name_in_checkout fs fullname else some fullname

-- `(project,) + os.path.splitext(rest)`
pub record Parts : Type 0 where
  pub directory : Str
  pub base_name : Str
  pub extension : Str

abbrev pub split_ext : Str → Str → Parts
split_ext project rest = record {
  directory = project;
  base_name = path_root rest;
  extension = drop (length (path_root rest)) rest;
}

unfoldable pub split_name : Str → Parts
unfolding split_path path_root
split_name googlename = split_ext (split_path googlename).0 (split_path googlename).1

-- `Split`
unfoldable pub split_file : FileSystem → Str → Option Parts
unfolding repository_name split_name
split_file fs filename = do googlename ← repository_name fs filename; some (split_name googlename)

-- `'/'.join(self.Split()[0:2])`
unfoldable pub no_extension : FileSystem → Str → Option Str
unfolding split_file
no_extension fs filename = do
  parts ← split_file fs filename
  some (parts.directory ++ b'/' ∷ parts.base_name)

abbrev pub is_source_extension : Str → Bool
is_source_extension s = is_in s (codes "c" ∷ codes "cc" ∷ codes "cpp" ∷ codes "cxx" ∷ [])

unfoldable pub is_source : FileSystem → Str → Option Bool
unfolding split_file
is_source fs filename = do
  parts ← split_file fs filename
  some (is_source_extension (drop 1 parts.extension))
