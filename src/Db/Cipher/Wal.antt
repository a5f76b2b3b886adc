-- ===== src/Db/Cipher/Wal.antt =====
-- src/db/wcdb.rs: the log of an encrypted database, its frames and their way into a snapshot.
use weflow_server.Base.{
  ℕ, zero, suc, ◌+◌, ◌-◌, ◌*◌, Bool, not, ◌&&◌, List, [], ◌∷◌, ◌++◌, if◌then◌else◌, ltb, leb, ◌==◌,
  length, take, drop,
}
use weflow_server.Base.Bytes.{Bytes, slice, padded, from_be_bytes}
use weflow_server.Base.Windows.{splice}
use weflow_server.Db.Cipher.{
  Ciphers, ok, err, page_size, wal_header_size, wal_frame_header_size, wal_frame_size, decrypt_page,
}

pub record WalFrame : Type 0 where
  pub pgno : ℕ
  pub page : Bytes

-- A frame is current if it names a page and carries the salts of the log's header.
unfoldable pub is_current : ℕ → ℕ → Bytes → Bool
is_current salt1 salt2 hdr =
    let pgno = from_be_bytes (slice 0 4 hdr) in
    not (pgno == 0)
    && leb pgno 1000000
    && from_be_bytes (slice 8 12 hdr) == salt1
    && from_be_bytes (slice 12 16 hdr) == salt2

-- The body of the loop: the frame that stands here, if it is current and can be decrypted.
unfoldable pub frame_here : Ciphers → Bytes → ℕ → ℕ → Bytes → List WalFrame
frame_here c enc_key salt1 salt2 frame =
    let hdr = take wal_frame_header_size frame in
    let pgno = from_be_bytes (slice 0 4 hdr) in
    if is_current salt1 salt2 hdr
    then elim (decrypt_page c enc_key (drop wal_frame_header_size frame) pgno)
        as (λ _. List WalFrame) [ ok page ↦ record { pgno = pgno; page = page } ∷ [] | err e ↦ [] ]
    else []

-- The loop over the bytes that are left, with as many rounds as are allowed.
unfoldable pub wal_frames : Ciphers → Bytes → ℕ → ℕ → ℕ → Bytes → List WalFrame
wal_frames c enc_key salt1 salt2 zero left = []
wal_frames c enc_key salt1 salt2 (suc rounds) left =
    let later = wal_frames c enc_key salt1 salt2 rounds (drop wal_frame_size left) in
    if leb wal_frame_size (length left)
    then frame_here c enc_key salt1 salt2 (take wal_frame_size left) ++ later
    else []

-- A round takes a frame off, so that as many rounds as there are bytes are enough.
unfoldable pub decrypt_wal_frames : Ciphers → Bytes → Bytes → List WalFrame
decrypt_wal_frames c enc_key wal =
    if leb (length wal) wal_header_size
    then []
    else wal_frames c enc_key (from_be_bytes (slice 16 20 wal)) (from_be_bytes (slice 20 24 wal))
        (length wal) (drop wal_header_size wal)

abbrev pub frame_offset : WalFrame → ℕ
frame_offset f = (f.pgno - 1) * page_size

-- `snapshot.resize(n, 0)` if it is shorter.
abbrev pub grown : ℕ → Bytes → Bytes
grown n snapshot = if ltb (length snapshot) n then padded n snapshot else snapshot

unfoldable pub apply_frame : WalFrame → Bytes → Bytes
apply_frame f snapshot =
    splice (frame_offset f) f.page (grown (frame_offset f + page_size) snapshot)

unfoldable pub apply_wal_frames : Bytes → List WalFrame → Bytes
apply_wal_frames snapshot [] = snapshot
apply_wal_frames snapshot (f ∷ frames) = apply_wal_frames (apply_frame f snapshot) frames
