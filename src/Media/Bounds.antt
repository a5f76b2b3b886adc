-- ===== src/Media/Bounds.antt =====
-- How long the decoded bytes of an arbitrary file are.
use Prim.Native.Nat.{min}
use weflow_server.Base.{
  ℕ, zero, suc, ◌+◌, ◌-◌, ◌%◌, ◌<◌, ◌≤◌, ◌≡◌, refl, ap, false, ◌++◌, some, arith, inl, inr, ltb,
  leb, leb→le, length, take, drop, length-append, length-take, length-drop, Bool-cases,
  Option-cases,
}
use weflow_server.Base.Bytes.{Bytes, slice, from_le_bytes, xor_all, length-xor_all}
use weflow_server.Media.{
  BlockCipher, ecb_blocks, aes128_ecb_decrypt, checked_add, pkcs7_ct_len, segments,
  decrypt_dat_payload,
}

-- A block keeps its length.
abbrev pub KeepsBlocks : BlockCipher → Type 0
KeepsBlocks dec = (key block : Bytes) → length block ≡ 16 → length (dec key block) ≡ 16

module _ (dec : BlockCipher) (keeps : KeepsBlocks dec) (key : Bytes) where
  length-ecb_rounds :
      (rounds : ℕ) (s : Bytes) → length s < rounds → length (ecb_blocks dec key rounds s) ≡ length s
  unfolding ecb_blocks
  length-ecb_rounds zero s h = absurd (omega arith)
  length-ecb_rounds (suc rounds) s h = elim (Bool-cases (leb 16 (length s))) [
    | inl whole ↦
        let long = leb→le 16 (length s) whole in
        let first : length (take 16 s) ≡ 16 = omega (arith, length-take 16 s) in
        let rest = length-drop 16 s in
        rw whole (
          omega (
            arith,
            length-append (dec key (take 16 s)) (ecb_blocks dec key rounds (drop 16 s)),
            keeps key (take 16 s) first,
            length-ecb_rounds rounds (drop 16 s) (omega arith),
          ))
    | inr short ↦ rw short refl
  ]

  length-segments :
      (xor aes_size xor_size ct_len : ℕ) (payload : Bytes)
      → aes_size ≤ ct_len
      → ct_len + xor_size ≤ length payload
      → length (segments dec key xor aes_size xor_size ct_len payload) + ct_len
        ≡ length payload + aes_size
  unfolding aes128_ecb_decrypt
  length-segments xor aes_size xor_size ct_len payload fits room =
      let ct = take ct_len payload in
      let pt = ecb_blocks dec key (suc (length ct)) ct in
      let start = length payload - xor_size in
      omega (
        arith,
        length-take ct_len payload,
        length-ecb_rounds (suc (length ct)) ct (omega arith),
        length-take (min aes_size (length pt)) pt,
        length-take (start - ct_len) (drop ct_len payload),
        length-drop ct_len payload,
        length-drop start payload,
        length-xor_all xor (drop start payload),
        length-append (take (min aes_size (length pt)) pt)
            (slice ct_len start payload ++ xor_all xor (drop start payload)),
        length-append (slice ct_len start payload) (xor_all xor (drop start payload)),
      )

not_less : (m n : ℕ) → ltb m n ≡ false → n ≤ m
not_less m n h = ground arith

checked_add-some : (a b n : ℕ) → checked_add a b ≡ some n → n ≡ a + b
checked_add-some a b n h = ground arith

module _ (dec : BlockCipher) (keeps : KeepsBlocks dec) (file key out : Bytes) (xor : ℕ) where
  abbrev aes_size : ℕ
  aes_size = from_le_bytes (slice 6 10 file)

  abbrev xor_size : ℕ
  xor_size = from_le_bytes (slice 10 14 file)

  abbrev IsRead : ℕ → ℕ → Type 0
  IsRead ct_len needed =
      (pkcs7_ct_len aes_size ≡ some ct_len)
      × (checked_add ct_len xor_size ≡ some needed)
      × (15 ≤ length file)
      × (needed ≤ length (drop 15 file))
      × (segments dec key xor aes_size xor_size ct_len (drop 15 file) ≡ out)

  -- A file that is decoded passed each of the tests.
  IsRead-cases :
      decrypt_dat_payload dec file key xor ≡ some out
      → (ct_len : ℕ) × (needed : ℕ) × IsRead ct_len needed
  unfolding decrypt_dat_payload
  IsRead-cases h = elim (Bool-cases (ltb (length file) 15)) [
    | inl short ↦ absurd (let g = rw short at h in cc)
    | inr long ↦ elim (Option-cases (pkcs7_ct_len aes_size)) [
      | inl over ↦ absurd (let g = rw (long, over) at h in cc)
      | inr (ct_len, c) ↦ elim (Option-cases (checked_add ct_len xor_size)) [
        | inl over ↦ absurd (let g = rw (long, c, over) at h in cc)
        | inr (needed, n) ↦ elim (Bool-cases (ltb (length (drop 15 file)) needed)) [
          | inl small ↦ absurd (let g = rw (long, c, n, small) at h in cc)
          | inr room ↦
              let e : segments dec key xor aes_size xor_size ct_len (drop 15 file) ≡ out =
                (let g = rw (long, c, n, room) at h in cc) in
              (ct_len, needed, (c, n, not_less _ 15 long, not_less _ needed room, e))
        ]
      ]
    ]
  ]

  -- Whatever file is decoded, nothing of it is lost: the result has the length of the file without
  -- its header of 15 bytes and the padding, which has 1 to 16 bytes.
  pub length-decrypt_dat_payload :
      decrypt_dat_payload dec file key xor ≡ some out
      → (pad : ℕ) × (0 < pad) × (pad ≤ 16) × (length file ≡ 15 + pad + length out)
  unfolding pkcs7_ct_len
  length-decrypt_dat_payload h =
      let (ct_len, needed, (c, n, long, room, e)) = IsRead-cases h in
      let s = length-segments dec keeps key xor aes_size xor_size ct_len (drop 15 file) in
      let len = checked_add-some aes_size (16 - aes_size % 16) ct_len c in
      let sum = checked_add-some ct_len xor_size needed n in
      (
        16 - aes_size % 16,
        omega arith,
        omega arith,
        omega (
          arith,
          ap (λ (o : Bytes). length o) e,
          length-drop 15 file,
          s (omega arith) (omega arith),
        ),
      )
