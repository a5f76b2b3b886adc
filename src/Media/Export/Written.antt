-- ===== src/Media/Export/Written.antt =====
-- src/media/export.rs: what the export has written when it answers a file.
use weflow_server.Base.{
  Bool, true, false, ◌≡◌, refl, inl, inr, Option, none, some, Bool-cases, ap, sym,
}
use mathlib.Core.Option.{some-injective}
use weflow_server.Base.Bytes.{Bytes}
use weflow_server.Base.Text.{Text, text_eq_iff}
use weflow_server.Pathsafe.{FilePath, safe_segment}
use weflow_server.Media.Disk.{
  Disk, Faults, file_at, remove_file, read_file, write_file, rename_file, path_eq_iff,
  file_at-put_file,
}
use weflow_server.Media.Export.{ExportedMedia, file_media, tmp_name, renamed, is_content, write_out}
use weflow_server.Media.Export.Writes.{kind_path, write_out-cases}

is_content-some :
    (bytes : Bytes) (found : Option Bytes) → is_content bytes found ≡ true → found ≡ some bytes
is_content-some bytes none h = absurd cc
is_content-some bytes (some existing) h = ap some ((text_eq_iff existing bytes).0 h)

is_content-file :
    (faults : Faults) (path : FilePath) (bytes : Bytes) (disk : Disk)
    → is_content bytes (read_file faults path disk) ≡ true
    → file_at path disk ≡ some bytes
unfolding read_file
is_content-file faults path bytes disk h =
    let found = is_content-some bytes (read_file faults path disk) h in
    elim (Bool-cases (faults.reads path)) [
      | inl r ↦ (rw r at found)
      | inr r ↦ absurd (let none_found = (rw r at found) in cc)
    ]

write_file-there :
    (faults : Faults) (p : FilePath) (bytes : Bytes) (disk : Disk)
    → (write_file faults p bytes disk).1 ≡ true
    → file_at p (write_file faults p bytes disk).0 ≡ some bytes
unfolding write_file
write_file-there faults p bytes disk h = elim (Bool-cases (faults.writes p)) [
  | inl w ↦ rw (w, file_at-put_file p p bytes disk, (path_eq_iff p p).1 refl) refl
  | inr w ↦ absurd (let failed = (rw w at h) in cc)
]

renamed-there :
    (faults : Faults) (tmp path : FilePath) (m m' : ExportedMedia) (bytes : Bytes) (w : Disk × Bool)
    → (w.1 ≡ true → file_at tmp w.0 ≡ some bytes)
    → (renamed faults tmp path m w).1 ≡ some m'
    → (m' ≡ m) × (file_at path (renamed faults tmp path m w).0 ≡ some bytes)
unfolding rename_file
renamed-there faults tmp path m m' bytes (disk, false) there h = absurd cc
renamed-there faults tmp path m m' bytes (disk, true) there h =
    let b = there refl in
    elim (Bool-cases (faults.renames tmp path)) [
      | inr r ↦ absurd (let failed = (rw r at h) in cc)
      | inl r ↦
          let ok = (rw (r, b) at h) in
          (
            sym (some-injective _ _ ok),
            rw
                (
                  r,
                  b,
                  file_at-put_file path path bytes (remove_file tmp disk),
                  (path_eq_iff path path).1 refl,
                )
                refl,
          )
    ]

-- A file that is answered is there with the bytes that were to be written.
pub write_out-written :
    (faults : Faults) (export_dir : FilePath) (talker kind_dir name : Text) (bytes : Bytes)
    (digest_named : Bool) (disk : Disk) (m : ExportedMedia)
    → (write_out faults export_dir talker kind_dir name bytes digest_named disk).1 ≡ some m
    → (m ≡ file_media (kind_path export_dir talker kind_dir name) kind_dir name digest_named)
      × (safe_segment talker ≡ true)
      × (safe_segment name ≡ true)
      × (file_at
            (kind_path export_dir talker kind_dir name)
            (write_out faults export_dir talker kind_dir name bytes digest_named disk).0
          ≡ some bytes)
write_out-written faults export_dir talker kind_dir name bytes digest_named disk m h =
    let tmp = kind_path export_dir talker kind_dir (tmp_name name) in
    let path = kind_path export_dir talker kind_dir name in
    elim (write_out-cases faults export_dir talker kind_dir name bytes digest_named disk) [
      | inl e ↦ absurd (let nothing = (rw e at h) in cc)
      | inr (t, n, inl (same, e)) ↦
          let answer = (rw e at h) in
          (
            sym (some-injective _ _ answer),
            t,
            n,
            rw e (is_content-file faults path bytes disk same),
          )
      | inr (t, n, inr e) ↦
          let answer = (rw e at h) in
          let there =
            renamed-there faults tmp path _ m bytes (write_file faults tmp bytes disk)
              (write_file-there faults tmp bytes disk) answer in
          (there.0, t, n, rw e there.1)
    ]
