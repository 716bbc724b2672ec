-- ===== src/Files/System.antt =====
-- What `os` and `os.path` tell of the file system, and functions of `os.path` on names. The file
-- system itself is a parameter.
pub mod Above
use core_arbiter.Prelude.{ℕ, Bool, Option, ◌||◌, List, [], ◌∷◌, ◌++◌, ◌==◌, if◌then◌else◌, is_empty}
use core_arbiter.Str.{Str, codes, starts_with, ends_with}
use core_arbiter.Checks.Headers.{norm_path, split_path}

-- `os.getcwd()`, `os.path.exists`, `os.path.isfile`, and the lines of a text file, each with its
-- newline; `none` is an `IOError`.
pub record FileSystem : Type 0 where
  pub cwd : Str
  pub exists : Str → Bool
  pub is_file : Str → Bool
  pub read_lines : Str → Option (List Str)

-- `os.path.join(a, b)`
abbrev pub join_path : Str → Str → Str
join_path a b =
    if starts_with b (codes "/")
    then b
    else if is_empty a || ends_with a (codes "/")
    then a ++ b
    else a ++ b'/' ∷ b

-- `os.path.abspath`
unfoldable pub abs_path : FileSystem → Str → Str
unfolding norm_path
abs_path fs path = norm_path (join_path fs.cwd path)

-- `os.path.dirname`
unfoldable pub dirname : Str → Str
unfolding split_path
dirname path = (split_path path).0

-- `os.path.commonprefix([s, t])`
unfoldable pub common_prefix : Str → Str → Str
common_prefix [] t = []
common_prefix (c ∷ s) [] = []
common_prefix (c ∷ s) (d ∷ t) = if c == d then c ∷ common_prefix s t else []
