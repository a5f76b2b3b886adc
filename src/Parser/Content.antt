-- ===== src/Parser/Content.antt =====
-- The decoding of a stored body, `decode_content` of src/parser/mod.rs.
pub mod Prefix
use weflow_server.Base.{
  ℕ, zero, suc, Bool, true, false, not, ◌&&◌, List, [], ◌∷◌, Option, none, some, if◌then◌else◌,
  or_else, option_map, ◌>>=◌, drop,
}
use weflow_server.Base.Text.{
  Text, codes, text_eq, is_empty, starts_with, split_once, strip_suffix, trim_start,
}

-- What the `zstd` crate and the standard library do to bytes: a frame is decoded or refused, and
-- bytes are read as UTF-8, strictly or with replacements.
pub record Decoders : Type 0 where
  pub decode_all : List ℕ → Option (List ℕ)
  pub from_utf8 : List ℕ → Option Text
  pub from_utf8_lossy : List ℕ → Text

abbrev pub magic : List ℕ
magic = 0x28 ∷ 0xB5 ∷ 0x2F ∷ 0xFD ∷ []

-- The bytes from the magic number on, if it starts at one of the first `tries` places.
unfoldable pub frame_at : ℕ → List ℕ → Option (List ℕ)
frame_at zero rest = none
frame_at (suc tries) [] = none
frame_at (suc tries) (b ∷ rest) =
    let later = frame_at tries rest in
    if starts_with magic (b ∷ rest) then some (b ∷ rest) else later

unfoldable pub zstd_decompress : Decoders → List ℕ → Option Text
zstd_decompress d stored = do
  payload ← frame_at 16 stored
  bytes ← d.decode_all payload
  d.from_utf8 bytes

-- The rest of the body behind a first line that ends in a colon.
abbrev unprefixed : Text → Text → Text → Text → Text
unprefixed body sender id rest =
    if starts_with (codes "<") (trim_start rest)
    then trim_start rest
    else if not (is_empty sender) && text_eq id sender
    then rest
    else body

abbrev behind_line : Text → Text → Text × Text → Text
behind_line body sender (first, rest) = elim (strip_suffix (codes ":") first) [
  | none ↦ body
  | some id ↦ unprefixed body sender id rest
]

unfoldable pub strip_sender_prefix : Text → Text → Text
strip_sender_prefix body sender = elim (split_once (codes "\n") body) [
  | none ↦ body
  | some p ↦ behind_line body sender p
]

abbrev plain_body : Decoders → List ℕ → Text
plain_body d mc = elim (zstd_decompress d mc) [ some xml ↦ xml | none ↦ d.from_utf8_lossy mc ]

unfoldable pub decode_content : Decoders → Option (List ℕ) → Option (List ℕ) → Text → Option Text
decode_content d compressed stored sender =
    option_map (λ body. strip_sender_prefix body sender)
      (or_else (compressed >>= zstd_decompress d) (option_map (plain_body d) stored))
