-- ===== src/Files/Info/Svn.antt =====
-- The search of `RepositoryName` for the top of a checkout that has .svn in every directory.
use core_arbiter.Prelude.{
  ℕ, zero, suc, ◌+◌, ◌<◌, ◌≡◌, inl, inr, refl, sym, ◌∙◌, Bool, true, false, none, some, arith,
  Bool-cases, length, drop,
}
use mathlib.Core.Bool.{false≢true}
use core_arbiter.Str.{Str, codes}
use core_arbiter.Files.System.{FileSystem, dirname}
use core_arbiter.Files.System.Above.{Above, here, up, Above-trans, dirname-shorter, length-dirname}
use core_arbiter.Files.Info.{full_path, has_entry, svn_root, name_in_checkout, repository_name}
use core_arbiter.Files.Info.Root.{behind_root-Above}

module _ (fs : FileSystem) where
  abbrev pub has_svn : Str → Bool
  has_svn dir = has_entry fs dir (codes ".svn")

  -- The top of the checkout above `project`.
  pub record IsSvnTop (project root : Str) : Type 0 where
    pub above : Above root project
    pub inside : has_svn root ≡ true
    pub topmost : has_svn (dirname root) ≡ false

  -- No directory above `project` that is its own parent holds .svn.
  abbrev pub RootsAreFree : Str → Type 0
  RootsAreFree project = (d : Str) → Above d project → d ≡ dirname d → has_svn d ≡ false

  svn_root-IsSvnTop :
      (fuel : ℕ) (root : Str)
      → RootsAreFree root
      → length (dirname root) < fuel
      → has_svn root ≡ true
      → (r : Str) × (svn_root fs fuel root (dirname root) ≡ some r) × IsSvnTop root r
  unfolding svn_root
  svn_root-IsSvnTop zero root free h s = absurd (omega arith)
  svn_root-IsSvnTop (suc fuel) root free h s = elim (Bool-cases (has_svn (dirname root))) [
    | inl t ↦ elim (dirname-shorter (dirname root)) [
      | inl own ↦ absurd (false≢true (sym (free (dirname root) (up here) own) ∙ t))
      | inr lt ↦
          let (r, e, top) =
            svn_root-IsSvnTop fuel (dirname root) (λ d a. free d (up a)) (omega arith) t in
          (r, rw t e, record { above = up top.above; inside = top.inside; topmost = top.topmost })
    ]
    | inr f ↦ (root, rw f refl, record { above = here; inside = s; topmost = f })
  ]

  -- Where the file exists, its directory holds .svn, and no directory above it that is its own parent
  -- does, RepositoryName returns. It takes off a directory above the file that holds .svn and
  -- whose parent does not, and one character more.
  pub repository_name-IsSvnTop :
      (filename : Str)
      → fs.exists (full_path fs filename) ≡ true
      → has_svn (dirname (full_path fs filename)) ≡ true
      → RootsAreFree (dirname (full_path fs filename))
      → (r : Str) × IsSvnTop (dirname (full_path fs filename)) r
        × (repository_name fs filename ≡ some (drop (length r + 1) (full_path fs filename)))
  unfolding repository_name name_in_checkout
  repository_name-IsSvnTop filename h s free =
      let project = dirname (full_path fs filename) in
      let (r, e, top) =
        svn_root-IsSvnTop (length project + 1) project free (length-dirname project) s in
      (r, top, rw (h, s, e, behind_root-Above fs (full_path fs filename) project r top.above) refl)

  -- Where every directory above the project holds .svn, the root of the file system among them, the
  -- loop that looks for the top of the checkout never ends, from none of these directories.
  pub svn_root-endless :
      (fuel : ℕ) (project d : Str)
      → ((e : Str) → Above e project → has_svn e ≡ true)
      → Above d project
      → svn_root fs fuel d (dirname d) ≡ none
  unfolding svn_root
  svn_root-endless zero project d all a = refl
  svn_root-endless (suc fuel) project d all a =
      let a' : Above (dirname d) project = Above-trans (up here) a in
      rw (all (dirname d) a') (svn_root-endless fuel project (dirname d) all a')
