-- ===== src/Pathsafe/Containment.antt =====
-- `is_contained` of src/pathsafe.rs: what it says of the resolved paths.
use weflow_server.Base.{
  ◌≡◌, refl, ◌↔◌, inl, inr, true, [], ◌∷◌, ◌++◌, Option, some, arith, Option-cases, and-eq-true,
}
use weflow_server.Base.Text.{text_eq, text_eq_iff, text_eq_refl}
use weflow_server.Pathsafe.{FilePath, parent, path_starts_with, is_contained}

path_starts_with-append : (root rest : FilePath) → path_starts_with root (root ++ rest) ≡ true
unfolding path_starts_with
path_starts_with-append [] rest = refl
path_starts_with-append (r ∷ root) rest = rw (text_eq_refl r) (path_starts_with-append root rest)

path_starts_with-split :
    (root p : FilePath) → path_starts_with root p ≡ true → (rest : FilePath) × (p ≡ root ++ rest)
unfolding path_starts_with
path_starts_with-split [] p h = (p, refl)
path_starts_with-split (r ∷ root) [] h = cc
path_starts_with-split (r ∷ root) (c ∷ p) h =
    let (same, later) = and-eq-true (text_eq r c) (path_starts_with root p) h in
    let (rest, e) = path_starts_with-split root p later in (rest, ground (arith, text_eq_iff r c))

-- The path that `is_contained` accepts has a parent directory, and the canonical form of that
-- directory lies in the canonical form of the root.
pub record Contained (canonicalize : FilePath → Option FilePath) (root path : FilePath)
    : Type 0 where
  pub dir : FilePath
  pub real_root : FilePath
  pub below : FilePath
  pub parent_is : parent path ≡ some dir
  pub root_is : canonicalize root ≡ some real_root
  pub dir_is : canonicalize dir ≡ some (real_root ++ below)

module _ (canonicalize : FilePath → Option FilePath) (root path : FilePath) where
  is_contained_sound : is_contained canonicalize root path ≡ true → Contained canonicalize root path
  unfolding is_contained
  is_contained_sound h = elim (Option-cases (parent path)) [
    | inl none_is ↦ absurd (ground arith)
    | inr (dir, parent_is) ↦ elim (Option-cases (canonicalize root)) [
      | inl no_root ↦ absurd (ground arith)
      | inr (real_root, root_is) ↦ elim (Option-cases (canonicalize dir)) [
        | inl no_dir ↦ absurd (ground arith)
        | inr (real_dir, dir_is) ↦
            let (below, e) = path_starts_with-split real_root real_dir (ground arith) in
            record {
              dir = dir;
              real_root = real_root;
              below = below;
              parent_is = parent_is;
              root_is = root_is;
              dir_is = rw (← e) dir_is;
            }
      ]
    ]
  ]

  is_contained_complete :
      Contained canonicalize root path → is_contained canonicalize root path ≡ true
  unfolding is_contained
  is_contained_complete k =
      ground (arith, path_starts_with-append k.real_root k.below, k.parent_is, k.root_is, k.dir_is)

  -- `is_contained` accepts a path exactly if its parent directory resolves inside the resolved root;
  -- whatever cannot be resolved is refused.
  pub is_contained_iff :
      (is_contained canonicalize root path ≡ true) ↔ Contained canonicalize root path
  is_contained_iff = (is_contained_sound, is_contained_complete)
