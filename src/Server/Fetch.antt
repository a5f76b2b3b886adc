-- ===== src/Server/Fetch.antt =====
-- src/server/handlers/media.rs: the bytes of an exported file by its name. The system resolves the
-- links of a path (`canonicalize`); the disk answers a path with the bytes behind its links.
pub mod Hits
pub mod Unique
use weflow_server.Base.{
  ℕ, Bool, true, false, not, ◌&&◌, ◌||◌, List, [], ◌∷◌, ◌++◌, Option, none, some, if◌then◌else◌,
  leb, ltb, ◌==◌, ◌>>=◌, all, map, length, unwrap_or,
}
use weflow_server.Base.Bytes.{Bytes}
use weflow_server.Base.Text.{Text, codes, text_eq, text_leb, to_ascii_lower}
use weflow_server.Base.Sort.{sort_by}
use weflow_server.Pathsafe.{FilePath, safe_segment, path_starts_with}
use weflow_server.Media.Disk.{Disk, file_at, is_file, read_dir}
use weflow_server.Media.Export.Handles.{export_type_dirs}
use weflow_server.Server.Auth.{Encode, authorized}
use weflow_server.Server.Params.{Params}

-- The directories below the root, in order.
abbrev pub dir_names : List (Text × Bool) → List Text
dir_names [] = []
dir_names ((name, is_dir) ∷ entries) =
    let rest = dir_names entries in if is_dir then name ∷ rest else rest

abbrev pub Links : Type 0
Links = FilePath → Option FilePath

-- A candidate that is a file and resolves to a path below the root.
abbrev pub hit : Links → Disk → FilePath → FilePath → List FilePath
hit canonicalize disk canonical_root candidate =
    if not (is_file candidate disk) then [] else elim (canonicalize candidate) [
      | none ↦ []
      | some c ↦ if path_starts_with canonical_root c then c ∷ [] else []
    ]

abbrev pub hits_in : Links → Disk → FilePath → FilePath → Text → List Text → List FilePath
hits_in canonicalize disk canonical_root dir name [] = []
hits_in canonicalize disk canonical_root dir name (media_type ∷ types) =
    hit canonicalize disk canonical_root (dir ++ media_type ∷ name ∷ [])
    ++ hits_in canonicalize disk canonical_root dir name types

unfoldable pub all_hits : Links → Disk → FilePath → FilePath → Text → List Text → List FilePath
all_hits canonicalize disk canonical_root root name [] = []
all_hits canonicalize disk canonical_root root name (talker ∷ talkers) =
    hits_in canonicalize disk canonical_root (root ++ talker ∷ []) name export_type_dirs
    ++ all_hits canonicalize disk canonical_root root name talkers

-- Two files of the same size and bytes.
abbrev pub same_bytes : Option Bytes → Option Bytes → Bool
same_bytes (some a) (some b) = length b == length a && text_eq a b
same_bytes _ _ = false

unfoldable pub same_contents : Disk → FilePath → FilePath → Bool
same_contents disk a b = same_bytes (file_at a disk) (file_at b disk)

-- The first hit, if no other hit differs from it.
unfoldable pub agreed : Disk → List FilePath → Option FilePath
agreed disk [] = none
agreed disk (first ∷ others) = if all (same_contents disk first) others then some first else none

unfoldable pub find_exported : Links → Disk → FilePath → Text → Option FilePath
find_exported canonicalize disk root name =
    let talkers = sort_by text_leb (dir_names (read_dir root disk)) in
    canonicalize root >>= λ canonical_root.
    agreed disk (all_hits canonicalize disk canonical_root root name talkers)

abbrev after_dot : Text → Option Text
after_dot [] = none
after_dot (c ∷ s) = elim (after_dot s) [
  | some t ↦ some t
  | none ↦ if c == b'.' then some s else none
]

-- `Path::extension` of a file name; a dot at the front begins none.
unfoldable pub extension : Text → Text
extension [] = []
extension (c ∷ s) = unwrap_or (after_dot s) []

unfoldable pub content_type : Text → Text
content_type name =
    let ext : Text = map to_ascii_lower (extension name) in
    if text_eq ext (codes "png")
    then codes "image/png"
    else if text_eq ext (codes "jpg") || text_eq ext (codes "jpeg")
    then codes "image/jpeg"
    else if text_eq ext (codes "gif")
    then codes "image/gif"
    else if text_eq ext (codes "webp")
    then codes "image/webp"
    else if text_eq ext (codes "wav")
    then codes "audio/wav"
    else if text_eq ext (codes "mp3")
    then codes "audio/mpeg"
    else if text_eq ext (codes "mp4")
    then codes "video/mp4"
    else if text_eq ext (codes "silk")
    then codes "audio/x-silk"
    else codes "application/octet-stream"

pub data Fetched : Type 0 where
  served : Text → Bytes → Fetched
  unauthorized bad_request not_found : Fetched

abbrev last_name : FilePath → Text
last_name [] = []
last_name (c ∷ []) = c
last_name (c ∷ d ∷ p) = last_name (d ∷ p)

abbrev pub sent : FilePath → Option Bytes → Fetched
sent path none = not_found
sent path (some bytes) = served (content_type (last_name path)) bytes

abbrev pub serve_file : Disk → FilePath → Fetched
serve_file disk path = sent path (file_at path disk)

-- The last test, on the resolved paths.
abbrev pub contained : Disk → Option FilePath → Option FilePath → Fetched
contained disk (some path) (some root) =
    if path_starts_with root path then serve_file disk path else bad_request
contained disk _ _ = not_found

abbrev pub found_file : Links → Disk → FilePath → Option FilePath → Fetched
found_file canonicalize disk root none = not_found
found_file canonicalize disk root (some found) =
    contained disk (canonicalize found) (canonicalize root)

unfoldable pub handler_by_id :
    Encode → Text → Links → Disk → FilePath → Text → Params → Option Text → Fetched
handler_by_id bytes token canonicalize disk root id query header =
    if not (authorized bytes token query header)
    then unauthorized
    else if not (safe_segment id)
    then bad_request
    else found_file canonicalize disk root (find_exported canonicalize disk root id)
