-- ===== src/Media/Export/Handles.antt =====
-- src/media/export.rs: which exported files have a handle, a name by which their bytes can be asked
-- for.
use weflow_server.Base.{
  Bool, not, ◌||◌, List, [], ◌∷◌, ◌++◌, Option, none, some, if◌then◌else◌, map, any, All, true, ◌≡◌,
  refl, inl, inr, Bool-cases,
}
use mathlib.Core.Option.{some-injective}
use weflow_server.Base.Text.{Text, codes, text_eq, text_eq_iff, to_ascii_lower}
use weflow_server.Base.Map.{Map, lookup, lookup-insert, insert, contains_key}
use weflow_server.Pathsafe.{FilePath, safe_segment}
use weflow_server.Media.Disk.{Disk, is_file, read_dir}
use weflow_server.Media.Export.{name_is_content_digest, stem_of}

abbrev pub export_type_dirs : List Text
export_type_dirs = codes "images" ∷ codes "voices" ∷ codes "videos" ∷ codes "emojis" ∷ []

abbrev pub handle_of : Text → Text
handle_of name = map to_ascii_lower (stem_of name)

-- `entry(stem).or_insert_with(name)`
abbrev pub add_handle : Text → Map Text → Map Text
add_handle name out =
    if contains_key (handle_of name) out then out else insert (handle_of name) name out

-- The loop over the entries of one directory.
unfoldable pub add_handles : Disk → FilePath → List (Text × Bool) → Map Text → Map Text
add_handles disk dir [] out = out
add_handles disk dir ((name, _) ∷ entries) out = add_handles disk dir entries (
    if not (is_file (dir ++ name ∷ []) disk) || not (name_is_content_digest name)
    then out
    else add_handle name out)

-- The loop over the directories of the kinds.
unfoldable pub dirs_handles : Disk → FilePath → List Text → Map Text → Map Text
dirs_handles disk base [] out = out
dirs_handles disk base (dir ∷ dirs) out =
    let path : FilePath = base ++ dir ∷ [] in
    dirs_handles disk base dirs (add_handles disk path (read_dir path disk) out)

unfoldable pub digest_handles : Disk → FilePath → Text → Map Text
digest_handles disk export_dir talker =
    if not (safe_segment talker)
    then []
    else dirs_handles disk (export_dir ++ talker ∷ []) export_type_dirs []

unfoldable pub fetchable_media_id : Disk → FilePath → Text → Text → Text → Option Text
fetchable_media_id disk export_dir talker kind_dir file_name =
    if not (safe_segment talker) || not (safe_segment file_name)
    then none
    else if not (name_is_content_digest file_name)
    then none
    else if is_file ((export_dir ++ talker ∷ kind_dir ∷ []) ++ file_name ∷ []) disk
    then some file_name
    else none

-- A name that is listed: a file of that name lies in one of the directories of the conversation, its
-- name comes from a digest, and it is listed under this digest in small letters.
abbrev pub IsHandle : Disk → FilePath → Text → Text → Type 0
IsHandle disk base handle name =
    (dir : Text) × (any (text_eq dir) export_type_dirs ≡ true)
    × (is_file ((base ++ dir ∷ []) ++ name ∷ []) disk ≡ true)
    × (name_is_content_digest name ≡ true)
    × (handle_of name ≡ handle)

nothing : (h name : Text) → lookup h [] ≡ some name → ⊥
unfolding lookup
nothing h name e = absurd cc

abbrev AreHandles : Disk → FilePath → Map Text → Type 0
AreHandles disk base out = (h name : Text) → lookup h out ≡ some name → IsHandle disk base h name

add_handle-AreHandles :
    (disk : Disk) (base : FilePath) (name : Text) (out : Map Text)
    → IsHandle disk base (handle_of name) name
    → AreHandles disk base out
    → AreHandles disk base (add_handle name out)
add_handle-AreHandles disk base name out new old h n found =
    elim (Bool-cases (contains_key (handle_of name) out)) [
      | inl c ↦ old h n (rw c at found)
      | inr c ↦ elim (Bool-cases (text_eq (handle_of name) h)) [
        | inl same ↦
            let e =
              some-injective name n
                (rw (c, lookup-insert (handle_of name) h name out, same) at found) in
            let k = (text_eq_iff (handle_of name) h).0 same in rw (← e, ← k) new
        | inr other ↦ old h n (rw (c, lookup-insert (handle_of name) h name out, other) at found)
      ]
    ]

add_handles-AreHandles :
    (disk : Disk) (base : FilePath) (dir : Text) (entries : List (Text × Bool)) (out : Map Text)
    → any (text_eq dir) export_type_dirs ≡ true
    → AreHandles disk base out
    → AreHandles disk base (add_handles disk (base ++ dir ∷ []) entries out)
unfolding add_handles
add_handles-AreHandles disk base dir [] out known old = old
add_handles-AreHandles disk base dir ((name, _) ∷ entries) out known old =
    add_handles-AreHandles disk base dir entries _ known
      (elim (Bool-cases (is_file ((base ++ dir ∷ []) ++ name ∷ []) disk)) [
        | inr f ↦ rw f old
        | inl f ↦ elim (Bool-cases (name_is_content_digest name)) [
          | inr d ↦ rw (f, d) old
          | inl d ↦
              rw (f, d) (add_handle-AreHandles disk base name out (dir, known, f, d, refl) old)
        ]
      ])

dirs_handles-AreHandles :
    (disk : Disk) (base : FilePath) (dirs : List Text) (out : Map Text)
    → All (λ dir. any (text_eq dir) export_type_dirs ≡ true) dirs
    → AreHandles disk base out
    → AreHandles disk base (dirs_handles disk base dirs out)
unfolding dirs_handles
dirs_handles-AreHandles disk base [] out known old = old
dirs_handles-AreHandles disk base (dir ∷ dirs) out known old =
    dirs_handles-AreHandles disk base dirs _ known.1
      (add_handles-AreHandles disk base dir (read_dir (base ++ dir ∷ []) disk) out known.0 old)

-- Every handle of a conversation stands for a file that is there: one whose name comes from that
-- digest, in one of the four directories of the conversation. An unsafe conversation has none.
pub digest_handles-IsHandle :
    (disk : Disk) (export_dir : FilePath) (talker handle name : Text)
    → lookup handle (digest_handles disk export_dir talker) ≡ some name
    → (safe_segment talker ≡ true) × IsHandle disk (export_dir ++ talker ∷ []) handle name
unfolding digest_handles text_eq
digest_handles-IsHandle disk export_dir talker handle name h =
    elim (Bool-cases (safe_segment talker)) [
      | inr t ↦ absurd (nothing handle name (rw t at h))
      | inl t ↦ (
        t,
        dirs_handles-AreHandles disk (export_dir ++ talker ∷ []) export_type_dirs []
            (refl, (refl, (refl, (refl, tt)))) (λ k n e. absurd (nothing k n e)) handle name
            (rw t at h),
      )
    ]
