-- ===== src/Server/Fetch/Unique.antt =====
-- src/server/handlers/media.rs: the bytes that are served are the only ones of that name.
use weflow_server.Base.{
  true, ◌≡◌, refl, sym, ◌∙◌, List, [], ◌∷◌, ◌++◌, Option, none, some, Bool-cases, inl, inr, All,
  any, all, ap,
}
use mathlib.Core.Option.{some-injective}
use weflow_server.Base.Sort.{any-sort_by, sort_by}
use weflow_server.Base.Bytes.{Bytes}
use weflow_server.Base.Text.{text_leb, Text, text_eq}
use weflow_server.Pathsafe.{FilePath, safe_segment, path_starts_with}
use weflow_server.Media.Disk.{Disk, file_at, is_file, read_dir}
use weflow_server.Media.Export.Handles.{export_type_dirs}
use weflow_server.Server.Auth.{Encode, authorized}
use weflow_server.Server.Params.{Params}
use weflow_server.Server.Fetch.{
  Links, all_hits, same_contents, agreed, find_exported, dir_names, Fetched, served, unauthorized,
  bad_request, not_found, sent, contained, found_file, handler_by_id,
}
use weflow_server.Server.Fetch.Hits.{all-same, all_hits-All, all_hits-Candidate}

-- The file that is found: below the root, its own resolved path, and with the bytes of every hit.
abbrev pub IsTheFile : Links → Disk → FilePath → FilePath → Text → Bytes → Type 0
IsTheFile canonicalize disk croot root name bytes =
    (talker ty : Text) (c : FilePath)
    → any (text_eq talker) (dir_names (read_dir root disk)) ≡ true
    → any (text_eq ty) export_type_dirs ≡ true
    → is_file ((root ++ talker ∷ []) ++ ty ∷ name ∷ []) disk ≡ true
    → canonicalize ((root ++ talker ∷ []) ++ ty ∷ name ∷ []) ≡ some c
    → path_starts_with croot c ≡ true
    → file_at c disk ≡ some bytes

agreed-All :
    (disk : Disk) (hits : List FilePath) (p : FilePath) (bytes : Bytes)
    → agreed disk hits ≡ some p
    → file_at p disk ≡ some bytes
    → All (λ q. file_at q disk ≡ some bytes) hits
unfolding agreed
agreed-All disk [] p bytes h e = absurd cc
agreed-All disk (first ∷ others) p bytes h e =
    elim (Bool-cases (all (same_contents disk first) others)) [
      | inr differ ↦ absurd (let g = (rw differ at h) in cc)
      | inl same ↦
          let f : file_at first disk ≡ some bytes = rw (some-injective first p (rw same at h)) e in
          (f, all-same disk first bytes others f same)
    ]

agreed-one :
    (P : FilePath → Type 0) (disk : Disk) (hits : List FilePath) (p : FilePath)
    → agreed disk hits ≡ some p
    → All P hits
    → P p
unfolding agreed
agreed-one P disk [] p h a = absurd cc
agreed-one P disk (first ∷ others) p h a =
    elim (Bool-cases (all (same_contents disk first) others)) [
      | inr differ ↦ absurd (let g = (rw differ at h) in cc)
      | inl same ↦ rw (← some-injective first p (rw same at h)) a.0
    ]

abbrev body : Fetched → Option Bytes
body (served kind bytes) = some bytes
body unauthorized = none
body bad_request = none
body not_found = none

-- What a served answer comes from.
sent-served :
    (path : FilePath) (found : Option Bytes) (kind : Text) (bytes : Bytes)
    → sent path found ≡ served kind bytes
    → found ≡ some bytes
sent-served path none kind bytes h = absurd cc
sent-served path (some b) kind bytes h = ap body h

contained-served :
    (disk : Disk) (path root : Option FilePath) (kind : Text) (bytes : Bytes)
    → contained disk path root ≡ served kind bytes
    → (p r : FilePath) × (path ≡ some p)
      × (root ≡ some r)
      × (path_starts_with r p ≡ true)
      × (file_at p disk ≡ some bytes)
contained-served disk none root kind bytes h = absurd cc
contained-served disk (some p) none kind bytes h = absurd cc
contained-served disk (some p) (some r) kind bytes h = elim (Bool-cases (path_starts_with r p)) [
  | inr out ↦ absurd (let g = (rw out at h) in cc)
  | inl within ↦
      (p, r, refl, refl, within, sent-served p (file_at p disk) kind bytes (rw within at h))
]

found_file-served :
    (canonicalize : Links) (disk : Disk) (root : FilePath) (found : Option FilePath) (kind : Text)
    (bytes : Bytes)
    → found_file canonicalize disk root found ≡ served kind bytes
    → (f : FilePath) × (found ≡ some f)
      × (contained disk (canonicalize f) (canonicalize root) ≡ served kind bytes)
found_file-served canonicalize disk root none kind bytes h = absurd cc
found_file-served canonicalize disk root (some f) kind bytes h = (f, refl, h)

find_exported-agreed :
    (canonicalize : Links) (disk : Disk) (root croot p : FilePath) (name : Text)
    → canonicalize root ≡ some croot
    → find_exported canonicalize disk root name ≡ some p
    → agreed disk (
        all_hits canonicalize disk croot root name
          (sort_by text_leb (dir_names (read_dir root disk))))
      ≡ some p
unfolding find_exported
find_exported-agreed canonicalize disk root croot p name e h = rw e at h

the_file :
    (canonicalize : Links) (disk : Disk) (root : FilePath) (id kind : Text) (bytes : Bytes)
    → ((p c : FilePath) → canonicalize p ≡ some c → canonicalize c ≡ some c)
    → found_file canonicalize disk root (find_exported canonicalize disk root id)
      ≡ served kind bytes
    → (croot path : FilePath) × (canonicalize root ≡ some croot)
      × (path_starts_with croot path ≡ true)
      × (file_at path disk ≡ some bytes)
      × IsTheFile canonicalize disk croot root id bytes
the_file canonicalize disk root id kind bytes resolved h =
    let names = dir_names (read_dir root disk) in
    let f =
      found_file-served canonicalize disk root (find_exported canonicalize disk root id) kind bytes
        h in
    let c = contained-served disk (canonicalize f.0) (canonicalize root) kind bytes f.2 in
    let croot = c.1 in
    let a = find_exported-agreed canonicalize disk root croot f.0 id c.3 f.1 in
    let hits = all_hits canonicalize disk croot root id (sort_by text_leb names) in
    let own =
      agreed-one (λ q. canonicalize q ≡ some q) disk hits f.0 a
        (all_hits-All canonicalize disk croot (λ q. canonicalize q ≡ some q)
          (λ p q e w. resolved p q e) root id (sort_by text_leb names)) in
    let same = some-injective f.0 c.0 (sym own ∙ c.2) in
    let every = agreed-All disk hits f.0 bytes a (rw same c.5) in
    (
      croot,
      c.0,
      c.3,
      c.4,
      c.5,
      λ talker ty q k l.
          all_hits-Candidate canonicalize disk croot (λ q. file_at q disk ≡ some bytes) root id
            talker ty (sort_by text_leb names) every
            (rw (any-sort_by text_leb (text_eq talker) names) k) l q,
    )

-- The bytes that are served lie below the export directory once all links are resolved, and no other
-- file of that name in a directory of the export, of whatever conversation, holds other bytes. Only a
-- request with the credential and a safe name is served. The system resolves a resolved path to
-- itself.
pub handler_by_id_unique :
    (encode : Encode) (token : Text) (canonicalize : Links) (disk : Disk) (root : FilePath)
    (id : Text) (query : Params) (header : Option Text) (kind : Text) (bytes : Bytes)
    → ((p c : FilePath) → canonicalize p ≡ some c → canonicalize c ≡ some c)
    → handler_by_id encode token canonicalize disk root id query header ≡ served kind bytes
    → (authorized encode token query header ≡ true)
      × (safe_segment id ≡ true)
      × ((croot path : FilePath) × (canonicalize root ≡ some croot)
          × (path_starts_with croot path ≡ true)
          × (file_at path disk ≡ some bytes)
          × IsTheFile canonicalize disk croot root id bytes)
unfolding handler_by_id
handler_by_id_unique encode token canonicalize disk root id query header kind bytes resolved h =
    elim (Bool-cases (authorized encode token query header)) [
      | inr a ↦ absurd (let g = (rw a at h) in cc)
      | inl a ↦ elim (Bool-cases (safe_segment id)) [
        | inr s ↦ absurd (let g = (rw (a, s) at h) in cc)
        | inl s ↦ (a, s, the_file canonicalize disk root id kind bytes resolved (rw (a, s) at h))
      ]
    ]
