-- ===== src/Db/Cipher/Frames.antt =====
-- What is read from a log: the frames of its present cycle, in their order.
use mathlib.Core.List.{append_assoc}
use weflow_server.Base.{
  ℕ, zero, suc, ◌<◌, ◌≤◌, ◌^◌, ◌≡◌, refl, ap, ◌∙◌, Bool, true, false, not, ◌&&◌, List, [], ◌∷◌,
  ◌++◌, arith, inl, inr, ◌==◌, Bool-cases, length, length-append, All, if◌then◌else◌, leb, leb→le,
}
use weflow_server.Base.Bytes.{Bytes, be32, slice, from_be_bytes, from_be_bytes-be32}
use weflow_server.Base.Windows.{take_of_length, drop_of_length}
use weflow_server.Db.Cipher.{
  Ciphers, salt_size, iv_size, wal_frame_size, wal_header_size, encrypt_page,
}
use weflow_server.Db.Cipher.Wal.{WalFrame, is_current, frame_here, wal_frames, decrypt_wal_frames}
use weflow_server.Db.Cipher.Sealed.{CipherLaws, IsPage}
use weflow_server.Db.Cipher.RoundTrip.{length-encrypt_page, decrypt_page-encrypt_page}

-- What a writer puts into a frame.
pub record Written : Type 0 where
  pub pgno : ℕ
  pub pages : ℕ
  pub salt1 : ℕ
  pub salt2 : ℕ
  pub check1 : ℕ
  pub check2 : ℕ
  pub plain : Bytes
  pub iv : Bytes

abbrev pub CanWrite : Written → Type 0
CanWrite f =
    (f.pgno < 2 ^ 32)
    × (f.salt1 < 2 ^ 32)
    × (f.salt2 < 2 ^ 32)
    × IsPage f.pgno f.plain
    × (length f.iv ≡ iv_size)

abbrev frame_header : Written → Bytes
frame_header f =
    be32 f.pgno
    ++ (be32 f.pages ++ (be32 f.salt1 ++ (be32 f.salt2 ++ (be32 f.check1 ++ be32 f.check2))))

abbrev pub written_frame : Ciphers → Bytes → Bytes → Written → Bytes
written_frame c key salt f = frame_header f ++ encrypt_page c key salt f.pgno f.plain f.iv

abbrev pub written_frames : Ciphers → Bytes → Bytes → List Written → Bytes
written_frames c key salt [] = []
written_frames c key salt (f ∷ fs) = written_frame c key salt f ++ written_frames c key salt fs

pub record LogHeader : Type 0 where
  pub magic : ℕ
  pub version : ℕ
  pub size : ℕ
  pub cycle : ℕ
  pub salt1 : ℕ
  pub salt2 : ℕ
  pub check1 : ℕ
  pub check2 : ℕ

abbrev log_header : LogHeader → Bytes
log_header h =
    be32 h.magic
    ++ (be32 h.version
        ++ (be32 h.size
            ++ (be32 h.cycle
                ++ (be32 h.salt1 ++ (be32 h.salt2 ++ (be32 h.check1 ++ be32 h.check2))))))

abbrev pub written_log : Ciphers → Bytes → Bytes → LogHeader → List Written → Bytes → Bytes
written_log c key salt h fs tail = log_header h ++ (written_frames c key salt fs ++ tail)

-- A page number that counts, and the salts of the cycle.
abbrev pub in_cycle : ℕ → ℕ → Written → Bool
in_cycle salt1 salt2 f =
    not (f.pgno == 0) && leb f.pgno 1000000 && f.salt1 == salt1 && f.salt2 == salt2

abbrev pub frames_of : ℕ → ℕ → List Written → List WalFrame
frames_of salt1 salt2 [] = []
frames_of salt1 salt2 (f ∷ fs) =
    if in_cycle salt1 salt2 f
    then record { pgno = f.pgno; page = f.plain } ∷ frames_of salt1 salt2 fs
    else frames_of salt1 salt2 fs

abbrev one : ℕ → Bytes → WalFrame
one pgno page = record { pgno = pgno; page = page }

too_short : (m n : ℕ) → m < n → leb n m ≡ false
too_short m n h = ground arith

long_enough : (m n : ℕ) → n ≤ m → leb n m ≡ true
long_enough m n h = ground arith

joined :
    (b : Bool) (f : WalFrame) (fs : List WalFrame)
    → (if b then f ∷ [] else []) ++ fs ≡ (if b then f ∷ fs else fs)
joined true f fs = refl
joined false f fs = refl

is_current-written :
    (salt1 salt2 : ℕ) (f : Written)
    → CanWrite f
    → is_current salt1 salt2 (frame_header f) ≡ in_cycle salt1 salt2 f
unfolding is_current
is_current-written salt1 salt2 f h =
    rw
      (
        from_be_bytes-be32 f.pgno h.0,
        from_be_bytes-be32 f.salt1 h.1,
        from_be_bytes-be32 f.salt2 h.2,
      )
      refl

-- A round at a whole frame.
wal_frames-step :
    (c : Ciphers) (key : Bytes) (salt1 salt2 rounds : ℕ) (frame more : Bytes)
    → length frame ≡ wal_frame_size
    → wal_frames c key salt1 salt2 (suc rounds) (frame ++ more)
      ≡ frame_here c key salt1 salt2 frame ++ wal_frames c key salt1 salt2 rounds more
unfolding wal_frames
wal_frames-step c key salt1 salt2 rounds frame more l =
    rw
      (
        long_enough (length (frame ++ more)) wal_frame_size
            (omega (arith, l, length-append frame more)),
        take_of_length wal_frame_size frame more l,
        drop_of_length wal_frame_size frame more l,
      )
      refl

module _ (c : Ciphers) (laws : CipherLaws c) (key salt : Bytes)
    (salted : length salt ≡ salt_size) where
  frame_here-written :
      (salt1 salt2 : ℕ) (f : Written)
      → CanWrite f
      → frame_here c key salt1 salt2 (written_frame c key salt f)
        ≡ (if in_cycle salt1 salt2 f then record { pgno = f.pgno; page = f.plain } ∷ [] else [])
  unfolding frame_here
  frame_here-written salt1 salt2 f h =
      rw
        (
          is_current-written salt1 salt2 f h,
          from_be_bytes-be32 f.pgno h.0,
          decrypt_page-encrypt_page c laws key salt salted f.plain f.iv h.4 f.pgno h.3,
        )
        (ap (λ (n : ℕ). if in_cycle salt1 salt2 f then one n f.plain ∷ [] else [])
          (from_be_bytes-be32 f.pgno h.0))

  length-written_frame :
      (f : Written) → CanWrite f → length (written_frame c key salt f) ≡ wal_frame_size
  length-written_frame f h =
      omega (arith, length-encrypt_page c laws key salt salted f.plain f.iv h.4 f.pgno h.3)

  -- Enough rounds for the frames and one more, and no whole frame behind them.
  wal_frames-written :
      (salt1 salt2 rounds : ℕ) (fs : List Written) (tail : Bytes)
      → All CanWrite fs
      → length fs < rounds
      → length tail < wal_frame_size
      → wal_frames c key salt1 salt2 rounds (written_frames c key salt fs ++ tail)
        ≡ frames_of salt1 salt2 fs
  unfolding wal_frames
  wal_frames-written salt1 salt2 zero fs tail h enough short = absurd (omega arith)
  wal_frames-written salt1 salt2 (suc rounds) [] tail h enough short =
      rw (too_short (length tail) wal_frame_size short) refl
  wal_frames-written salt1 salt2 (suc rounds) (f ∷ fs) tail h enough short =
      let frame = written_frame c key salt f in
      let more = written_frames c key salt fs ++ tail in
      let l = length-written_frame f h.0 in
      ap (wal_frames c key salt1 salt2 (suc rounds))
        (append_assoc frame (written_frames c key salt fs) tail)
      ∙ wal_frames-step c key salt1 salt2 rounds frame more l
      ∙ ap (λ here. here ++ wal_frames c key salt1 salt2 rounds more)
          (frame_here-written salt1 salt2 f h.0)
      ∙ ap (λ later. (if in_cycle salt1 salt2 f then one f.pgno f.plain ∷ [] else []) ++ later)
          (wal_frames-written salt1 salt2 rounds fs tail h.1 (omega arith) short)
      ∙ joined (in_cycle salt1 salt2 f) _ _

  length-le-frames :
      (fs : List Written) → All CanWrite fs → length fs ≤ length (written_frames c key salt fs)
  length-le-frames [] h = omega arith
  length-le-frames (f ∷ fs) h =
      let l = length-written_frame f h.0 in
      let both = length-append (written_frame c key salt f) (written_frames c key salt fs) in
      omega (arith, l, both, length-le-frames fs h.1)

  no_frames : (salt1 salt2 : ℕ) (fs : List Written) → length fs ≤ 0 → [] ≡ frames_of salt1 salt2 fs
  no_frames salt1 salt2 [] h = refl
  no_frames salt1 salt2 (f ∷ fs) h = absurd (omega arith)

  read-body :
      (header body : Bytes) (salt1 salt2 : ℕ) (fs : List Written)
      → length header ≡ wal_header_size
      → from_be_bytes (slice 16 20 (header ++ body)) ≡ salt1
      → from_be_bytes (slice 20 24 (header ++ body)) ≡ salt2
      → length fs ≤ length body
      → wal_frames c key salt1 salt2 (length (header ++ body)) body ≡ frames_of salt1 salt2 fs
      → decrypt_wal_frames c key (header ++ body) ≡ frames_of salt1 salt2 fs
  unfolding decrypt_wal_frames
  read-body header body salt1 salt2 fs l one two enough reads =
      elim (Bool-cases (leb (length (header ++ body)) wal_header_size)) [
        | inl small ↦ rw small (
            no_frames salt1 salt2 fs
              (omega (arith, length-append header body, leb→le _ wal_header_size small)))
        | inr large ↦ rw (large, one, two, drop_of_length wal_header_size header body l) reads
      ]

  -- A log of a header, frames, and a remainder shorter than a frame, every frame in the layout of
  -- the database's pages: what is read are the frames that carry the header's salts and a page
  -- number from 1 to 1000000, decrypted and in their order, and those of an earlier cycle not.
  pub decrypt_wal_frames-written :
      (h : LogHeader) (fs : List Written) (tail : Bytes)
      → h.salt1 < 2 ^ 32
      → h.salt2 < 2 ^ 32
      → All CanWrite fs
      → length tail < wal_frame_size
      → decrypt_wal_frames c key (written_log c key salt h fs tail) ≡ frames_of h.salt1 h.salt2 fs
  decrypt_wal_frames-written h fs tail s1 s2 can short =
      let body = written_frames c key salt fs ++ tail in
      let all = length-append (log_header h) body in
      let both = length-append (written_frames c key salt fs) tail in
      let n = length-le-frames fs can in
      read-body (log_header h) body h.salt1 h.salt2 fs refl (from_be_bytes-be32 h.salt1 s1)
        (from_be_bytes-be32 h.salt2 s2) (omega arith)
        (wal_frames-written h.salt1 h.salt2 (length (log_header h ++ body)) fs tail can
          (omega arith) short)
