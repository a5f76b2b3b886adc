-- ===== src/Db/Cipher/Snapshot.antt =====
-- The snapshot after its log: the pages of the last frames, and the others as they were.
use Prim.Native.Nat.{max}
use weflow_server.Base.{
  ℕ, suc, ◌+◌, ◌-◌, ◌*◌, ◌<◌, ◌≤◌, ◌≡◌, refl, ap, ◌∙◌, false, List, [], ◌∷◌, ◌++◌, Option, none,
  some, arith, inl, inr, ◌==◌, ==_iff, Bool-cases, Option-cases, length, take, drop, length-append,
  length-take, length-drop, All, if◌then◌else◌, ltb, ltb→lt, or_else,
}
use weflow_server.Base.Bytes.{Bytes, replicate, length-replicate}
use weflow_server.Base.Windows.{splice-here, splice-before, splice-behind, window-append}
use weflow_server.Db.Cipher.{page_size}
use weflow_server.Db.Cipher.Wal.{WalFrame, frame_offset, grown, apply_frame, apply_wal_frames}

-- The page with a number from zero on.
abbrev pub page_at : ℕ → Bytes → Bytes
page_at n snapshot = take page_size (drop (n * page_size) snapshot)

-- What the last frame for a page holds.
abbrev pub latest : ℕ → List WalFrame → Option Bytes
latest n [] = none
latest n (f ∷ frames) = or_else (latest n frames) (if f.pgno == suc n then some f.page else none)

abbrev pub IsFrame : WalFrame → Type 0
IsFrame f = (0 < f.pgno) × (length f.page ≡ page_size)

length-grown : (n : ℕ) (s : Bytes) → length (grown n s) ≡ max n (length s)
length-grown n s = elim (Bool-cases (ltb (length s) n)) [
  | inl short ↦ rw short (
      ground
        (arith, length-append s (replicate (n - length s) 0), length-replicate (n - length s) 0))
  | inr enough ↦ rw enough (ground arith)
]

page_at-grown :
    (n m k : ℕ) (s : Bytes) → length s ≡ k * page_size → n < k → page_at n (grown m s) ≡ page_at n s
page_at-grown n m k s whole inside = elim (Bool-cases (ltb (length s) m)) [
  | inl short ↦ rw short (window-append (n * page_size) page_size s _ (omega arith))
  | inr enough ↦ rw enough refl
]

not_before : (n pgno : ℕ) → 0 < pgno → (pgno == suc n) ≡ false → ltb n (pgno - 1) ≡ false → pgno ≤ n
not_before n pgno some_page other behind = ground arith

module _ (f : WalFrame) (s : Bytes) (k : ℕ) (isf : IsFrame f)
    (whole : length s ≡ k * page_size) where
  ready : length (take (frame_offset f) (grown (frame_offset f + page_size) s)) ≡ frame_offset f
  ready = omega (
    arith,
    length-take (frame_offset f) (grown (frame_offset f + page_size) s),
    length-grown (frame_offset f + page_size) s,
  )

  length-apply_frame : length (apply_frame f s) ≡ max k f.pgno * page_size
  unfolding apply_frame
  length-apply_frame =
      let g = grown (frame_offset f + page_size) s in
      omega (
        arith,
        isf.0,
        isf.1,
        whole,
        ready,
        length-grown (frame_offset f + page_size) s,
        length-append (take (frame_offset f) g) (f.page ++ drop (frame_offset f + length f.page) g),
        length-append f.page (drop (frame_offset f + length f.page) g),
        length-drop (frame_offset f + length f.page) g,
      )

  page_at-written : (n : ℕ) → f.pgno ≡ suc n → page_at n (apply_frame f s) ≡ f.page
  unfolding apply_frame
  page_at-written n e =
      let o : n * page_size ≡ frame_offset f = omega arith in
      rw o (
        splice-here (frame_offset f) f.page (grown (frame_offset f + page_size) s) page_size ready
          isf.1)

  page_at-kept :
      (n : ℕ) → (f.pgno == suc n) ≡ false → n < k → page_at n (apply_frame f s) ≡ page_at n s
  unfolding apply_frame
  page_at-kept n other inside =
      let g = grown (frame_offset f + page_size) s in
      let at = n * page_size in
      elim (Bool-cases (ltb n (f.pgno - 1))) [
        | inl before ↦
            splice-before (frame_offset f) f.page g at page_size ready
              (omega (arith, isf.0, ltb→lt n (f.pgno - 1) before))
            ∙ page_at-grown n (frame_offset f + page_size) k s whole inside
        | inr behind ↦
            let far : frame_offset f + length f.page ≤ at =
              omega (arith, isf.0, isf.1, not_before n f.pgno isf.0 other behind) in
            ap (take page_size) (splice-behind (frame_offset f) f.page g at ready far)
            ∙ page_at-grown n (frame_offset f + page_size) k s whole inside
      ]

  latest-first :
      (n : ℕ) (p : Bytes)
      → (if f.pgno == suc n then some f.page else none) ≡ some p
      → (f.pgno ≡ suc n) × (f.page ≡ p)
  latest-first n p e = elim (Bool-cases (f.pgno == suc n)) [
    | inl here ↦ ((==_iff f.pgno (suc n)).0 here, let g = rw here at e in cc)
    | inr other ↦ absurd (let g = rw other at e in cc)
  ]

-- After the log, the page of a number is that of the last frame for it, wherever the page lies; a
-- page of the snapshot for which there is no frame is as it was. The snapshot is made of whole
-- pages, and the frames have numbers above zero.
pub apply_wal_frames-pages :
    (n k : ℕ) (s : Bytes) (frames : List WalFrame)
    → length s ≡ k * page_size
    → All IsFrame frames
    → ((p : Bytes) → latest n frames ≡ some p → page_at n (apply_wal_frames s frames) ≡ p)
      × (latest n frames ≡ none → n < k → page_at n (apply_wal_frames s frames) ≡ page_at n s)
unfolding apply_wal_frames
apply_wal_frames-pages n k s [] whole h = (λ p e. cc, λ e inside. refl)
apply_wal_frames-pages n k s (f ∷ frames) whole h =
    let ih =
      apply_wal_frames-pages n (max k f.pgno) (apply_frame f s) frames
        (length-apply_frame f s k h.0 whole) h.1 in
    (
      λ p e. elim (Option-cases (latest n frames)) [
        | inl last ↦
            let (here, holds) = latest-first f s k h.0 whole n p (rw last at e) in
            ih.1 last (omega (arith, here)) ∙ page_at-written f s k h.0 whole n here ∙ holds
        | inr (q, later) ↦ ih.0 q later ∙ (let g = rw later at e in cc)
      ],
      λ e inside. elim (Option-cases (latest n frames)) [
        | inl last ↦ elim (Bool-cases (f.pgno == suc n)) [
          | inl here ↦ absurd (let g = rw (last, here) at e in cc)
          | inr other ↦ ih.1 last (omega arith) ∙ page_at-kept f s k h.0 whole n other inside
        ]
        | inr (q, later) ↦ absurd (let g = rw later at e in cc)
      ],
    )
