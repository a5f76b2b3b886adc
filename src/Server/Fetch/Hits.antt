-- ===== src/Server/Fetch/Hits.antt =====
-- src/server/handlers/media.rs: the hits of a name and the candidates they come from.
use weflow_server.Base.{
  true, ◌≡◌, List, [], ◌∷◌, ◌++◌, Option, none, some, Bool-cases, inl, inr, All, any, all,
  Option-cases, arith, All-append,
}
use weflow_server.Base.Bytes.{Bytes}
use weflow_server.Base.Text.{Text, text_eq, text_eq_iff}
use weflow_server.Pathsafe.{FilePath, path_starts_with}
use weflow_server.Media.Disk.{Disk, file_at, is_file}
use weflow_server.Media.Export.Handles.{export_type_dirs}
use weflow_server.Server.Fetch.{Links, hit, hits_in, all_hits, same_bytes, same_contents}

same_bytes-equal :
    (a b : Option Bytes) (c : Bytes) → same_bytes a b ≡ true → a ≡ some c → b ≡ some c
same_bytes-equal (some a) (some b) c h e =
    let same = (text_eq_iff a b).0 (ground arith) in rw (← same) e
same_bytes-equal none b c h e = absurd cc
same_bytes-equal (some a) none c h e = absurd cc

pub all-same :
    (disk : Disk) (first : FilePath) (bytes : Bytes) (others : List FilePath)
    → file_at first disk ≡ some bytes
    → all (same_contents disk first) others ≡ true
    → All (λ p. file_at p disk ≡ some bytes) others
unfolding same_contents
all-same disk first bytes [] e h = tt
all-same disk first bytes (p ∷ others) e h = (
  same_bytes-equal (file_at first disk) (file_at p disk) bytes (ground arith) e,
  all-same disk first bytes others e (ground arith),
)

All-split : (P : FilePath → Type 0) (xs ys : List FilePath) → All P (xs ++ ys) → All P xs × All P ys
All-split P [] ys h = (tt, h)
All-split P (x ∷ xs) ys h = let rest = All-split P xs ys h.1 in ((h.0, rest.0), rest.1)

-- What holds of every hit, holds of the hit of every candidate.
module _ (canonicalize : Links) (disk : Disk) (croot : FilePath) (P : FilePath → Type 0) where
  abbrev pub Candidate : FilePath → Type 0
  Candidate p =
      (c : FilePath)
      → is_file p disk ≡ true
      → canonicalize p ≡ some c
      → path_starts_with croot c ≡ true
      → P c

  hit-Candidate : (p : FilePath) → All P (hit canonicalize disk croot p) → Candidate p
  hit-Candidate p h c f e w = (rw (f, e, w) at h).0

  hits_in-Candidate :
      (dir : FilePath) (name ty : Text) (types : List Text)
      → All P (hits_in canonicalize disk croot dir name types)
      → any (text_eq ty) types ≡ true
      → Candidate (dir ++ ty ∷ name ∷ [])
  hits_in-Candidate dir name ty [] h k = absurd cc
  hits_in-Candidate dir name ty (t ∷ types) h k =
      let here = hit canonicalize disk croot (dir ++ t ∷ name ∷ []) in
      let parts = All-split P here (hits_in canonicalize disk croot dir name types) h in
      elim (Bool-cases (text_eq ty t)) [
        | inl same ↦ rw ((text_eq_iff ty t).0 same) (hit-Candidate (dir ++ t ∷ name ∷ []) parts.0)
        | inr other ↦ hits_in-Candidate dir name ty types parts.1 (rw other at k)
      ]

  pub all_hits-Candidate :
      (root : FilePath) (name talker ty : Text) (talkers : List Text)
      → All P (all_hits canonicalize disk croot root name talkers)
      → any (text_eq talker) talkers ≡ true
      → any (text_eq ty) export_type_dirs ≡ true
      → Candidate ((root ++ talker ∷ []) ++ ty ∷ name ∷ [])
  unfolding all_hits
  all_hits-Candidate root name talker ty [] h k l = absurd cc
  all_hits-Candidate root name talker ty (t ∷ talkers) h k l =
      let here = hits_in canonicalize disk croot (root ++ t ∷ []) name export_type_dirs in
      let parts = All-split P here (all_hits canonicalize disk croot root name talkers) h in
      elim (Bool-cases (text_eq talker t)) [
        | inl same ↦
            rw ((text_eq_iff talker t).0 same)
              (hits_in-Candidate (root ++ t ∷ []) name ty export_type_dirs parts.0 l)
        | inr other ↦ all_hits-Candidate root name talker ty talkers parts.1 (rw other at k) l
      ]

  -- Conversely, a property of the resolved paths below the root holds of every hit.
  module _
      (every : (p c : FilePath)
        → canonicalize p ≡ some c
        → path_starts_with croot c ≡ true
        → P c) where
    hit-All : (p : FilePath) → All P (hit canonicalize disk croot p)
    hit-All p = elim (Bool-cases (is_file p disk)) [
      | inr f ↦ rw f tt
      | inl f ↦ elim (Option-cases (canonicalize p)) [
        | inl e ↦ rw (f, e) tt
        | inr (c, e) ↦ elim (Bool-cases (path_starts_with croot c)) [
          | inr w ↦ rw (f, e, w) tt
          | inl w ↦ rw (f, e, w) (every p c e w, tt)
        ]
      ]
    ]

    hits_in-All :
        (dir : FilePath) (name : Text) (types : List Text)
        → All P (hits_in canonicalize disk croot dir name types)
    hits_in-All dir name [] = tt
    hits_in-All dir name (t ∷ types) =
        All-append P _ _ (hit-All (dir ++ t ∷ name ∷ [])) (hits_in-All dir name types)

    pub all_hits-All :
        (root : FilePath) (name : Text) (talkers : List Text)
        → All P (all_hits canonicalize disk croot root name talkers)
    unfolding all_hits
    all_hits-All root name [] = tt
    all_hits-All root name (t ∷ talkers) =
        All-append P _ _ (hits_in-All (root ++ t ∷ []) name export_type_dirs)
          (all_hits-All root name talkers)
