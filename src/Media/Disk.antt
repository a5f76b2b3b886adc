-- ===== src/Media/Disk.antt =====
-- The file system as src/media/export.rs uses it: files by their paths. A directory exists as far as
-- files lie in it. The order of the files stands for the unspecified order of a traversal, and
-- `Faults` says which operations fail.
use weflow_server.Base.{
  Bool, true, false, ◌&&◌, ◌≡◌, refl, ◌↔◌, List, [], ◌∷◌, Option, none, some, if◌then◌else◌, ltb,
  length, is_some, inl, inr, Bool-cases, arith,
}
use weflow_server.Base.Bytes.{Bytes}
use weflow_server.Base.Text.{Text, text_eq, text_eq_iff}
use weflow_server.Pathsafe.{FilePath}

unfoldable pub path_eq : FilePath → FilePath → Bool
path_eq [] [] = true
path_eq [] (d ∷ q) = false
path_eq (c ∷ p) [] = false
path_eq (c ∷ p) (d ∷ q) = text_eq c d && path_eq p q

abbrev pub Disk : Type 0
Disk = List (FilePath × Bytes)

unfoldable pub file_at : FilePath → Disk → Option Bytes
file_at p [] = none
file_at p ((q, b) ∷ disk) = if path_eq q p then some b else file_at p disk

-- `Path::is_file`
abbrev pub is_file : FilePath → Disk → Bool
is_file p disk = is_some (file_at p disk)

unfoldable pub put_file : FilePath → Bytes → Disk → Disk
put_file p b [] = (p, b) ∷ []
put_file p b ((q, c) ∷ disk) = if path_eq q p then (q, b) ∷ disk else (q, c) ∷ put_file p b disk

unfoldable pub remove_file : FilePath → Disk → Disk
remove_file p [] = []
remove_file p ((q, c) ∷ disk) =
    let rest = remove_file p disk in if path_eq q p then rest else (q, c) ∷ rest

-- The rest of a path behind a directory.
unfoldable pub behind : FilePath → FilePath → Option FilePath
behind [] p = some p
behind (c ∷ dir) [] = none
behind (c ∷ dir) (d ∷ p) = let rest = behind dir p in if text_eq c d then rest else none

abbrev without : Text → List (Text × Bool) → List (Text × Bool)
without name [] = []
without name ((n, d) ∷ es) =
    let rest = without name es in if text_eq n name then rest else (n, d) ∷ rest

abbrev entry : Option FilePath → List (Text × Bool) → List (Text × Bool)
entry none es = es
entry (some []) es = es
entry (some (c ∷ q)) es = (c, ltb 0 (length q)) ∷ without c es

-- `fs::read_dir`: the names in a directory, each once, and whether it is a directory.
unfoldable pub read_dir : FilePath → Disk → List (Text × Bool)
read_dir dir [] = []
read_dir dir ((p, b) ∷ disk) = entry (behind dir p) (read_dir dir disk)

-- Which operations of the system succeed; a write that fails may leave bytes behind.
pub record Faults : Type 0 where
  pub reads : FilePath → Bool
  pub creates : FilePath → Bool
  pub writes : FilePath → Bool
  pub left_behind : FilePath → Option Bytes
  pub renames : FilePath → FilePath → Bool

-- `fs::read`
unfoldable pub read_file : Faults → FilePath → Disk → Option Bytes
read_file faults p disk = if faults.reads p then file_at p disk else none

-- `fs::write`, and whether it succeeds.
abbrev leave : FilePath → Option Bytes → Disk → Disk
leave p none disk = disk
leave p (some b) disk = put_file p b disk

unfoldable pub write_file : Faults → FilePath → Bytes → Disk → Disk × Bool
write_file faults p b disk =
    if faults.writes p
    then (put_file p b disk, true)
    else (leave p (faults.left_behind p) disk, false)

-- `fs::rename` of a file.
abbrev moved : FilePath → FilePath → Option Bytes → Disk → Disk × Bool
moved from to none disk = (disk, false)
moved from to (some b) disk = (put_file to b (remove_file from disk), true)

unfoldable pub rename_file : Faults → FilePath → FilePath → Disk → Disk × Bool
rename_file faults from to disk =
    if faults.renames from to then moved from to (file_at from disk) disk else (disk, false)

pub path_eq_iff : (p q : FilePath) → (path_eq p q ≡ true) ↔ (p ≡ q)
unfolding path_eq
path_eq_iff [] [] = (λ _. refl, λ _. refl)
path_eq_iff [] (d ∷ q) = ground arith
path_eq_iff (c ∷ p) [] = ground arith
path_eq_iff (c ∷ p) (d ∷ q) = ground (arith, text_eq_iff c d, path_eq_iff p q)

pub file_at-put_file :
    (p q : FilePath) (b : Bytes) (disk : Disk)
    → file_at q (put_file p b disk) ≡ (if path_eq p q then some b else file_at q disk)
unfolding file_at put_file
file_at-put_file p q b [] = refl
file_at-put_file p q b ((r, c) ∷ disk) =
    ground (arith, path_eq_iff p q, path_eq_iff r p, path_eq_iff r q, file_at-put_file p q b disk)

pub file_at-remove_file :
    (p q : FilePath) (disk : Disk)
    → file_at q (remove_file p disk) ≡ (if path_eq p q then none else file_at q disk)
unfolding file_at remove_file
file_at-remove_file p q [] = ground arith
file_at-remove_file p q ((r, c) ∷ disk) =
    ground (arith, path_eq_iff p q, path_eq_iff r p, path_eq_iff r q, file_at-remove_file p q disk)

-- The operations leave every other path alone.
put_file-other :
    (p q : FilePath) (b : Bytes) (disk : Disk)
    → path_eq p q ≡ false
    → file_at q (put_file p b disk) ≡ file_at q disk
put_file-other p q b disk other = rw (file_at-put_file p q b disk, other) refl

leave-other :
    (p q : FilePath) (left : Option Bytes) (disk : Disk)
    → path_eq p q ≡ false
    → file_at q (leave p left disk) ≡ file_at q disk
leave-other p q none disk other = refl
leave-other p q (some b) disk other = put_file-other p q b disk other

pub file_at-write_file :
    (faults : Faults) (p q : FilePath) (b : Bytes) (disk : Disk)
    → path_eq p q ≡ false
    → file_at q (write_file faults p b disk).0 ≡ file_at q disk
unfolding write_file
file_at-write_file faults p q b disk other = elim (Bool-cases (faults.writes p)) [
  | inl w ↦ rw w (put_file-other p q b disk other)
  | inr w ↦ rw w (leave-other p q (faults.left_behind p) disk other)
]

moved-other :
    (from to q : FilePath) (b : Option Bytes) (disk : Disk)
    → path_eq from q ≡ false
    → path_eq to q ≡ false
    → file_at q (moved from to b disk).0 ≡ file_at q disk
moved-other from to q none disk from_other to_other = refl
moved-other from to q (some b) disk from_other to_other =
    rw
      (
        put_file-other to q b (remove_file from disk) to_other,
        file_at-remove_file from q disk,
        from_other,
      )
      refl

pub file_at-rename_file :
    (faults : Faults) (from to q : FilePath) (disk : Disk)
    → path_eq from q ≡ false
    → path_eq to q ≡ false
    → file_at q (rename_file faults from to disk).0 ≡ file_at q disk
unfolding rename_file
file_at-rename_file faults from to q disk from_other to_other =
    elim (Bool-cases (faults.renames from to)) [
      | inl r ↦ rw r (moved-other from to q (file_at from disk) disk from_other to_other)
      | inr r ↦ rw r refl
    ]
