-- ===== src/Media/Export/Batch.antt =====
-- `export_batch` and `export_batch_live` of src/media/export.rs.
use weflow_server.Base.{
  ℕ, Bool, true, false, ◌≡◌, refl, inl, ◌∙◌, ◌||◌, ◌++◌, List, [], ◌∷◌, Option, none, some, any,
  All, if◌then◌else◌, take, find, ◌>>=◌,
}
use weflow_server.Base.Int.{ℤ}
use weflow_server.Base.Text.{Text, codes, text_eq}
use weflow_server.Base.Map.{Map, insert}
use weflow_server.Pathsafe.{FilePath}
use weflow_server.Parser.{MediaKind, image, voice, video, emoji, file}
use weflow_server.Db.{DbFile}
use weflow_server.Keys.{KeyMap, key_for, DbKey}
use weflow_server.Server.Messages.{ExportJob}
use weflow_server.Media.Disk.{Disk, Faults, file_at, behind}
use weflow_server.Media.Export.{ExportCtx, ExportedMedia, AuxDb, Tools}
use weflow_server.Media.Export.One.{export_one}
use weflow_server.Media.Export.Writes.{export_one-elsewhere}

-- A hash map from local ids as a list, the latest entry of an id first.
abbrev pub Exported : Type 0
Exported = List (ℤ × ExportedMedia)

abbrev pub noted : ℤ → Option ExportedMedia → Exported → Exported
noted local_id none out = out
noted local_id (some m) out = (local_id, m) ∷ out

unfoldable pub export_jobs :
    Tools → Faults → ExportCtx → Map AuxDb → List ExportJob → Disk × Exported → Disk × Exported
export_jobs tools faults ctx aux [] (disk, out) = (disk, out)
export_jobs tools faults ctx aux (j ∷ jobs) (disk, out) =
    let r = export_one tools faults ctx aux j.talker j.kind j.md5 j.server_id disk in
    export_jobs tools faults ctx aux jobs (r.0, noted j.local_id r.1 out)

unfoldable pub export_batch :
    Tools → Faults → ExportCtx → Map AuxDb → List ExportJob → ℕ → Disk → Disk × Exported
export_batch tools faults ctx aux jobs max_items disk =
    export_jobs tools faults ctx aux (take max_items jobs) (disk, [])

abbrev kind_eq : MediaKind → MediaKind → Bool
kind_eq image image = true
kind_eq voice voice = true
kind_eq video video = true
kind_eq emoji emoji = true
kind_eq file file = true
kind_eq _ _ = false

-- Whether a job of the batch has this kind.
abbrev pub wanted : MediaKind → List ExportJob → Bool
wanted kind jobs = any (λ j. kind_eq j.kind kind) jobs

-- `open_read_only`, by the path of the file and its key.
abbrev pub OpenAux : Type 0
OpenAux = Text → DbKey → Option AuxDb

unfoldable pub open_aux : OpenAux → List DbFile → KeyMap → Text → Option AuxDb
open_aux opens files keys rel = do
  f ← find (λ f. text_eq f.rel rel) files
  key ← key_for keys rel
  opens f.rel key

abbrev opened : Text → Option AuxDb → Map AuxDb → Map AuxDb
opened rel none aux = aux
opened rel (some db) aux = insert rel db aux

abbrev with_aux : OpenAux → List DbFile → KeyMap → Bool → List Text → Map AuxDb → Map AuxDb
with_aux opens files keys want [] aux = aux
with_aux opens files keys want (rel ∷ rels) aux =
    with_aux opens files keys want rels
      (if want then opened rel (open_aux opens files keys rel) aux else aux)

-- The databases that the kinds of the batch need.
unfoldable pub aux_for : OpenAux → List DbFile → KeyMap → List ExportJob → Map AuxDb
aux_for opens files keys jobs =
    with_aux opens files keys (wanted emoji jobs) (codes "emoticon/emoticon.db" ∷ []) (
      with_aux opens files keys (wanted voice jobs)
        (codes "message/media_0.db" ∷ codes "message/media_1.db" ∷ [])
        (with_aux opens files keys (wanted image jobs || wanted video jobs)
          (codes "hardlink/hardlink.db" ∷ []) []))

unfoldable pub export_batch_live :
    Tools
    → Faults
    → OpenAux
    → List DbFile
    → KeyMap
    → ExportCtx
    → List ExportJob
    → ℕ
    → Disk
    → Disk × Exported
export_batch_live tools faults opens files keys ctx jobs max_items disk =
    export_batch tools faults ctx (aux_for opens files keys (take max_items jobs)) jobs max_items
      disk

abbrev Elsewhere : ExportCtx → FilePath → ExportJob → Type 0
Elsewhere ctx q j = behind (ctx.export_dir ++ j.talker ∷ []) q ≡ none

export_jobs-Elsewhere :
    (tools : Tools) (faults : Faults) (ctx : ExportCtx) (aux : Map AuxDb) (jobs : List ExportJob)
    (disk : Disk) (out : Exported) (q : FilePath)
    → All (Elsewhere ctx q) jobs
    → file_at q (export_jobs tools faults ctx aux jobs (disk, out)).0 ≡ file_at q disk
unfolding export_jobs
export_jobs-Elsewhere tools faults ctx aux [] disk out q h = refl
export_jobs-Elsewhere tools faults ctx aux (j ∷ jobs) disk out q h =
    export_jobs-Elsewhere tools faults ctx aux jobs _ _ q h.1
    ∙ export_one-elsewhere tools faults ctx aux j.talker j.kind j.md5 j.server_id disk q (inl h.0)

-- A batch changes no file outside the directories of the conversations of its jobs.
pub export_batch_live-Elsewhere :
    (tools : Tools) (faults : Faults) (opens : OpenAux) (files : List DbFile) (keys : KeyMap)
    (ctx : ExportCtx) (jobs : List ExportJob) (max_items : ℕ) (disk : Disk) (q : FilePath)
    → All (Elsewhere ctx q) (take max_items jobs)
    → file_at q (export_batch_live tools faults opens files keys ctx jobs max_items disk).0
      ≡ file_at q disk
unfolding export_batch_live export_batch
export_batch_live-Elsewhere tools faults opens files keys ctx jobs max_items disk q h =
    export_jobs-Elsewhere tools faults ctx _ (take max_items jobs) disk [] q h
