-- ===== src/Media/Export/Writes.antt =====
-- src/media/export.rs: where the export writes.
use weflow_server.Base.{
  Bool, true, false, ◌≡◌, refl, ◌⊎◌, inl, inr, [], ◌∷◌, ◌++◌, Option, none, some, ◌||◌, Bool-cases,
  arith, ap, ◌∙◌,
}
use mathlib.Core.List.{append_assoc}
use weflow_server.Base.Bytes.{Bytes}
use weflow_server.Base.Int.{ℤ}
use weflow_server.Base.Text.{Text, starts_with}
use weflow_server.Base.Map.{Map}
use weflow_server.Pathsafe.{FilePath, safe_segment}
use weflow_server.Pathsafe.Resolve.{join}
use weflow_server.Parser.{MediaKind, image, voice, video, emoji, file}
use weflow_server.Media.{magic_v1, magic_v2}
use weflow_server.Media.Disk.{
  Disk, Faults, path_eq, file_at, behind, read_file, write_file, file_at-write_file,
  file_at-rename_file,
}
use weflow_server.Media.Export.{
  ExportCtx, ExportedMedia, AuxDb, Tools, file_media, tmp_name, renamed, is_content, placed,
  write_out,
}
use weflow_server.Media.Export.Place.{join-safe_segment, join-tmp_name}
use weflow_server.Media.Export.One.{
  written_image, written_voice, written_video, export_image, export_video, export_one,
}

abbrev pub kind_path : FilePath → Text → Text → Text → FilePath
kind_path export_dir talker kind_dir name = (export_dir ++ talker ∷ kind_dir ∷ []) ++ name ∷ []

-- A file that is not in the conversation's directory is none of the paths in there.
elsewhere :
    (export_dir : FilePath) (talker kind_dir name : Text) (q : FilePath)
    → behind (export_dir ++ talker ∷ []) q ≡ none
    → path_eq (kind_path export_dir talker kind_dir name) q ≡ false
unfolding path_eq behind
elsewhere [] talker kind_dir name [] h = refl
elsewhere [] talker kind_dir name (d ∷ q) h = ground arith
elsewhere (c ∷ dir) talker kind_dir name [] h = refl
elsewhere (c ∷ dir) talker kind_dir name (d ∷ q) h =
    ground (arith, elsewhere dir talker kind_dir name q)

renamed-elsewhere :
    (faults : Faults) (tmp path q : FilePath) (m : ExportedMedia) (w : Disk × Bool)
    → path_eq tmp q ≡ false
    → path_eq path q ≡ false
    → file_at q (renamed faults tmp path m w).0 ≡ file_at q w.0
renamed-elsewhere faults tmp path q m (disk, false) other_tmp other_path = refl
renamed-elsewhere faults tmp path q m (disk, true) other_tmp other_path =
    file_at-rename_file faults tmp path q disk other_tmp other_path

-- What a call of `write_out` comes to.
abbrev pub WriteCase :
    Faults
    → FilePath
    → Text
    → Text
    → Text
    → Bytes
    → Bool
    → Disk
    → Disk × Option ExportedMedia
    → Type 0
WriteCase faults export_dir talker kind_dir name bytes digest_named disk out =
    let path = kind_path export_dir talker kind_dir name in
    let tmp = kind_path export_dir talker kind_dir (tmp_name name) in
    let m = file_media path kind_dir name digest_named in
    (out ≡ (disk, none))
    ⊎ ((safe_segment talker ≡ true)
        × (safe_segment name ≡ true)
        × (((is_content bytes (read_file faults path disk) ≡ true) × (out ≡ (disk, some m)))
            ⊎ (out ≡ renamed faults tmp path m (write_file faults tmp bytes disk))))

join-kind :
    (export_dir : FilePath) (talker kind_dir : Text)
    → safe_segment talker ≡ true
    → join export_dir talker ++ kind_dir ∷ [] ≡ export_dir ++ talker ∷ kind_dir ∷ []
join-kind export_dir talker kind_dir t =
    rw (join-safe_segment export_dir talker t)
      (append_assoc export_dir (talker ∷ []) (kind_dir ∷ []))

-- With safe names, the joined paths are those of the conversation's directory.
write_out-joined :
    (faults : Faults) (export_dir : FilePath) (talker kind_dir name : Text) (bytes : Bytes)
    (digest_named : Bool) (disk : Disk)
    → safe_segment talker ≡ true
    → safe_segment name ≡ true
    → write_out faults export_dir talker kind_dir name bytes digest_named disk
      ≡ placed faults
          (export_dir ++ talker ∷ kind_dir ∷ [])
          (kind_path export_dir talker kind_dir name)
          (kind_path export_dir talker kind_dir (tmp_name name))
          kind_dir
          name
          bytes
          digest_named
          disk
unfolding write_out
write_out-joined faults export_dir talker kind_dir name bytes digest_named disk t n =
    let dir = export_dir ++ talker ∷ kind_dir ∷ [] in
    rw
      (
        t,
        n,
        join-kind export_dir talker kind_dir t,
        join-safe_segment dir name n,
        join-tmp_name dir name n,
      )
      refl

pub write_out-cases :
    (faults : Faults) (export_dir : FilePath) (talker kind_dir name : Text) (bytes : Bytes)
    (digest_named : Bool) (disk : Disk)
    → WriteCase faults export_dir talker kind_dir name bytes digest_named disk
        (write_out faults export_dir talker kind_dir name bytes digest_named disk)
unfolding write_out
write_out-cases faults export_dir talker kind_dir name bytes digest_named disk =
    let dir = export_dir ++ talker ∷ kind_dir ∷ [] in
    let path = kind_path export_dir talker kind_dir name in
    elim (Bool-cases (safe_segment talker)) [
      | inr t ↦ inl (rw t refl)
      | inl t ↦ elim (Bool-cases (safe_segment name)) [
        | inr n ↦ inl (rw (t, n) refl)
        | inl n ↦
            let same_body =
              write_out-joined faults export_dir talker kind_dir name bytes digest_named disk t n in
            elim (Bool-cases (faults.creates dir)) [
              | inr c ↦ inl (rw (same_body, c) refl)
              | inl c ↦ elim (Bool-cases (is_content bytes (read_file faults path disk))) [
                | inl same ↦ inr (t, n, inl (same, rw (same_body, c, same) refl))
                | inr other ↦ inr (t, n, inr (rw (same_body, c, other) refl))
              ]
            ]
      ]
    ]

write_out-elsewhere :
    (faults : Faults) (export_dir : FilePath) (talker kind_dir name : Text) (bytes : Bytes)
    (digest_named : Bool) (disk : Disk) (q : FilePath)
    → behind (export_dir ++ talker ∷ []) q ≡ none
    → file_at q (write_out faults export_dir talker kind_dir name bytes digest_named disk).0
      ≡ file_at q disk
write_out-elsewhere faults export_dir talker kind_dir name bytes digest_named disk q out =
    let other = λ (n : Text). elsewhere export_dir talker kind_dir n q out in
    let tmp = kind_path export_dir talker kind_dir (tmp_name name) in
    elim (write_out-cases faults export_dir talker kind_dir name bytes digest_named disk) [
      | inl e ↦ rw e refl
      | inr (t, n, inl (same, e)) ↦ rw e refl
      | inr (t, n, inr e) ↦ rw e (
          renamed-elsewhere faults tmp (kind_path export_dir talker kind_dir name) q _
            (write_file faults tmp bytes disk) (other (tmp_name name)) (other name)
          ∙ file_at-write_file faults tmp q bytes disk (other (tmp_name name)))
    ]

-- An unsafe conversation name is refused before anything is written.
write_out-refused :
    (faults : Faults) (export_dir : FilePath) (talker kind_dir name : Text) (bytes : Bytes)
    (digest_named : Bool) (disk : Disk)
    → safe_segment talker ≡ false
    → write_out faults export_dir talker kind_dir name bytes digest_named disk ≡ (disk, none)
unfolding write_out
write_out-refused faults export_dir talker kind_dir name bytes digest_named disk h = rw h refl

-- A property of disks that `write_out` keeps, `export_one` keeps as well.
module _ (tools : Tools) (faults : Faults) (ctx : ExportCtx) (aux : Map AuxDb) (talker : Text)
    (disk : Disk) (P : Disk → Type 0) (start : P disk)
    (step : (kind_dir name : Text) (bytes : Bytes) (digest_named : Bool)
      → P (write_out faults ctx.export_dir talker kind_dir name bytes digest_named disk).0) where
  image-keeps :
      (md5 : Text) (b : Option Bytes) → P (written_image tools faults ctx talker md5 disk b).0
  image-keeps md5 none = start
  image-keeps md5 (some decoded) = step _ _ _ _

  voice-keeps :
      (svr_id : ℤ) (b : Option Bytes) → P (written_voice faults ctx talker svr_id disk b).0
  voice-keeps svr_id none = start
  voice-keeps svr_id (some bytes) = step _ _ _ _

  video-keeps :
      (name : Text × Bool) (b : Option Bytes) → P (written_video faults ctx talker name disk b).0
  video-keeps name none = start
  video-keeps name (some bytes) =
      elim (Bool-cases (starts_with magic_v1 bytes || starts_with magic_v2 bytes)) [
        | inl sealed ↦ rw sealed start
        | inr plain ↦ rw plain (step _ _ _ _)
      ]

  export_one-keeps :
      (kind : MediaKind) (md5 : Option Text) (server_id : ℤ)
      → P (export_one tools faults ctx aux talker kind md5 server_id disk).0
  unfolding export_one export_image export_video
  export_one-keeps image none server_id = start
  export_one-keeps image (some md5) server_id = image-keeps md5 _
  export_one-keeps voice md5 server_id = voice-keeps server_id _
  export_one-keeps video none server_id = start
  export_one-keeps video (some md5) server_id = video-keeps _ _
  export_one-keeps emoji md5 server_id = start
  export_one-keeps file md5 server_id = start

pub export_one-elsewhere :
    (tools : Tools) (faults : Faults) (ctx : ExportCtx) (aux : Map AuxDb) (talker : Text)
    (kind : MediaKind) (md5 : Option Text) (server_id : ℤ) (disk : Disk) (q : FilePath)
    → (behind (ctx.export_dir ++ talker ∷ []) q ≡ none) ⊎ (safe_segment talker ≡ false)
    → file_at q (export_one tools faults ctx aux talker kind md5 server_id disk).0 ≡ file_at q disk
export_one-elsewhere tools faults ctx aux talker kind md5 server_id disk q outside =
    export_one-keeps tools faults ctx aux talker disk (λ d. file_at q d ≡ file_at q disk) refl
      (λ kind_dir name bytes digest_named. elim outside [
        | inl out ↦
            write_out-elsewhere faults ctx.export_dir talker kind_dir name bytes digest_named disk q
              out
        | inr unsafe ↦
            ap (λ r. file_at q r.0)
              (write_out-refused faults ctx.export_dir talker kind_dir name bytes digest_named disk
                unsafe)
      ])
      kind md5 server_id
