-- ===== src/Files/Info/Root.antt =====
-- What `RepositoryName` takes off the name of a file.
use core_arbiter.Prelude.{
  ℕ, zero, suc, ◌+◌, ◌<◌, ◌≡◌, ◌≢◌, ◌⊎◌, inl, inr, refl, sym, Bool, true, false, some, [], ◌∷◌,
  arith, Bool-cases, if◌then◌else◌, length, drop,
}
use core_arbiter.Str.{Str, codes, ◌=s◌}
use core_arbiter.Files.System.{FileSystem, dirname}
use core_arbiter.Files.System.Above.{
  Above, here, up, own_parent-Above, dirname-shorter, Above-Prefix, common_prefix-append, Prefix,
}
use mathlib.Core.Path.{subst}
use mathlib.Core.Bool.{false≢true}
use core_arbiter.Prelude.{ap, ◌∙◌}
use core_arbiter.Files.Info.{
  full_path, has_entry, is_checkout, checkout_root, behind_root, name_in_checkout, repository_name,
}

=s→≡ : (s t : Str) → (s =s t) ≡ true → s ≡ t
=s→≡ [] [] h = refl
=s→≡ [] (d ∷ t) h = cc
=s→≡ (c ∷ s) [] h = cc
=s→≡ (c ∷ s) (d ∷ t) h = ground (arith, =s→≡ s t)

≡→=s : (s t : Str) → s ≡ t → (s =s t) ≡ true
≡→=s [] [] h = refl
≡→=s [] (d ∷ t) h = cc
≡→=s (c ∷ s) [] h = cc
≡→=s (c ∷ s) (d ∷ t) h = ground (arith, ≡→=s s t)

-- No directory strictly above `dir`, the root of the file system apart, is a checkout.
abbrev pub Topmost : FileSystem → Str → Type 0
Topmost fs dir = (d : Str) → Above d (dirname dir) → d ≢ dirname d → is_checkout fs d ≡ false

-- The outermost checkout above `project`, or `project` itself where there is none.
pub record IsRoot (fs : FileSystem) (project root : Str) : Type 0 where
  pub above : Above root project
  pub checkout : (is_checkout fs root ≡ true) ⊎ (root ≡ project)
  pub topmost : Topmost fs root

module _ (fs : FileSystem) where
  -- What a search from `current` with the root found so far ends with.
  abbrev Ends : Str → Str → Str → Type 0
  Ends root current r =
      ((r ≡ root) × ((d : Str) → Above d current → d ≢ dirname d → is_checkout fs d ≡ false))
      ⊎ (Above r current × (is_checkout fs r ≡ true) × Topmost fs r)

  unmarked-up :
      {current : Str}
      → is_checkout fs current ≡ false
      → ((d : Str) → Above d (dirname current) → d ≢ dirname d → is_checkout fs d ≡ false)
      → (d : Str) → Above d current
      → d ≢ dirname d
      → is_checkout fs d ≡ false
  unmarked-up m all d here ne = m
  unmarked-up m all d (up a) ne = all d a ne

  Ends-up :
      (root current r : Str)
      → Ends (if is_checkout fs current then current else root) (dirname current) r
      → Ends root current r
  Ends-up root current r e = go (is_checkout fs current) refl e
    where
      go :
          (b : Bool)
          → is_checkout fs current ≡ b
          → Ends (if b then current else root) (dirname current) r
          → Ends root current r
      go true m (inl (q, all)) =
          let marked : is_checkout fs r ≡ true = ap (is_checkout fs) q ∙ m in
          let above : Above r current = subst (λ x. Above x current) (sym q) here in
          inr (above, marked, subst (Topmost fs) (sym q) all)
      go true m (inr (a, n, t)) = inr (up a, n, t)
      go false m (inl (q, all)) = inl (q, unmarked-up m all)
      go false m (inr (a, n, t)) = inr (up a, n, t)

  checkout_root-Ends :
      (fuel : ℕ) (root current : Str)
      → length current < fuel
      → (r : Str) × (checkout_root fs fuel root current ≡ some r) × Ends root current r
  unfolding checkout_root
  checkout_root-Ends zero root current h = absurd (omega arith)
  checkout_root-Ends (suc fuel) root current h = elim (Bool-cases (current =s dirname current)) [
    | inl t ↦ (
      root,
      rw t refl,
      inl (
        refl,
        λ d a ne.
            let own = =s→≡ current (dirname current) t in
            let same = own_parent-Above current own refl a in
            absurd (ne (same ∙ own ∙ ap dirname (sym same))),
      ),
    )
    | inr f ↦ elim (dirname-shorter current) [
      | inl own ↦ absurd (false≢true (sym f ∙ ≡→=s current (dirname current) own))
      | inr lt ↦
          let next = if is_checkout fs current then current else root in
          let (r, e, ends) = checkout_root-Ends fuel next (dirname current) (omega arith) in
          (r, rw f e, Ends-up root current r ends)
    ]
  ]

  checkout_root-IsRoot :
      (project : Str)
      → (r : Str) × (checkout_root fs (length project + 1) project project ≡ some r)
        × IsRoot fs project r
  checkout_root-IsRoot project =
      go (checkout_root-Ends (length project + 1) project project (omega arith))
    where
      go :
          (r : Str) × (checkout_root fs (length project + 1) project project ≡ some r)
            × Ends project project r
          → (r : Str) × (checkout_root fs (length project + 1) project project ≡ some r)
            × IsRoot fs project r
      go (r, e, inl (q, all)) = (
        r,
        e,
        record {
          above = subst (λ x. Above x project) (sym q) here;
          checkout = inr q;
          topmost = λ d a ne. all d (subst (λ x. Above d x) q (up a)) ne;
        },
      )
      go (r, e, inr (a, m, t)) = (r, e, record { above = a; checkout = inl m; topmost = t })

  pub behind_root-Above :
      (fullname project root : Str)
      → Above root project
      → behind_root fullname project root ≡ drop (length root + 1) fullname
  behind_root-Above fullname project root a = go (Above-Prefix a)
    where
      go : Prefix root project → behind_root fullname project root ≡ drop (length root + 1) fullname
      go (rest, e) = rw (e, common_prefix-append root rest) refl

  -- With the test for .svn in the directory of the file false.
  checkout-name :
      (fullname : Str)
      → has_entry fs (dirname fullname) (codes ".svn") ≡ false
      → (r : Str) × IsRoot fs (dirname fullname) r
        × (name_in_checkout fs fullname
            ≡ some (if is_checkout fs r then drop (length r + 1) fullname else fullname))
  unfolding name_in_checkout
  checkout-name fullname h =
      let (r, e, is_root) = checkout_root-IsRoot (dirname fullname) in
      (r, is_root, rw (h, e, behind_root-Above fullname (dirname fullname) r is_root.above) refl)

  -- For a file that exists, in a directory without .svn, RepositoryName returns. It takes off the
  -- outermost directory above the file that holds .git, .hg or .svn, and the character behind it;
  -- where there is none it returns the full name. The root of the file system, as its own parent, is
  -- passed over unless the file stands in it.
  pub repository_name-IsRoot :
      (filename : Str)
      → fs.exists (full_path fs filename) ≡ true
      → has_entry fs (dirname (full_path fs filename)) (codes ".svn") ≡ false
      → (r : Str) × IsRoot fs (dirname (full_path fs filename)) r
        × (repository_name fs filename
            ≡ some (
                if is_checkout fs r
                then drop (length r + 1) (full_path fs filename)
                else full_path fs filename))
  unfolding repository_name
  repository_name-IsRoot filename h k = rw h (checkout-name (full_path fs filename) k)
