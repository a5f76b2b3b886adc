-- ===== src/Media/Blocks.antt =====
-- Whole blocks of AES in electronic codebook mode: `aes128_ecb_decrypt` of src/media/mod.rs.
use weflow_server.Base.{
  ℕ, zero, suc, ◌*◌, ◌<◌, ◌≤◌, ◌≡◌, refl, true, [], ◌∷◌, ◌++◌, arith, leb, length, take, drop,
  length-append, length-take, length-drop, take-append-drop,
}
use weflow_server.Base.Bytes.{Bytes}
use weflow_server.Base.Windows.{take_of_length, drop_of_length}
use weflow_server.Media.{BlockCipher, ecb_blocks}

-- Encryption of a block is undone by decryption, and both keep its 16 bytes.
pub record BlockLaws (decrypt_block encrypt_block : BlockCipher) : Type 0 where
  pub undone :
      (key block : Bytes) → length block ≡ 16 → decrypt_block key (encrypt_block key block) ≡ block
  pub length-encrypt :
      (key block : Bytes) → length block ≡ 16 → length (encrypt_block key block) ≡ 16

pub fits : (m n : ℕ) → m ≤ n → leb m n ≡ true
fits m n h = ground arith

module _ (f : BlockCipher) (key : Bytes) where
  ecb_blocks-step :
      (rounds : ℕ) (s : Bytes)
      → 16 ≤ length s
      → ecb_blocks f key (suc rounds) s ≡ f key (take 16 s) ++ ecb_blocks f key rounds (drop 16 s)
  unfolding ecb_blocks
  ecb_blocks-step rounds s h = rw (fits 16 (length s) h) refl

  ecb_blocks-nil : (rounds : ℕ) (s : Bytes) → length s ≡ 0 → ecb_blocks f key rounds s ≡ []
  unfolding ecb_blocks
  ecb_blocks-nil zero s h = refl
  ecb_blocks-nil (suc rounds) [] h = refl
  ecb_blocks-nil (suc rounds) (b ∷ s) h = absurd (omega arith)

no_bytes : (s : Bytes) → length s ≡ 0 → [] ≡ s
no_bytes [] h = refl
no_bytes (b ∷ s) h = absurd (omega arith)

module _ (dec enc : BlockCipher) (laws : BlockLaws dec enc) (key : Bytes) where
  pub length-ecb_blocks :
      (n rounds : ℕ) (s : Bytes)
      → length s ≡ n * 16
      → n < rounds
      → length (ecb_blocks enc key rounds s) ≡ length s
  length-ecb_blocks zero rounds s l h =
      rw (ecb_blocks-nil enc key rounds s (omega arith)) (omega arith)
  length-ecb_blocks (suc n) zero s l h = absurd (omega arith)
  length-ecb_blocks (suc n) (suc rounds) s l h =
      let rest : length (drop 16 s) ≡ n * 16 = omega (arith, length-drop 16 s) in
      let first : length (take 16 s) ≡ 16 = omega (arith, length-take 16 s) in
      rw (ecb_blocks-step enc key rounds s (omega arith)) (
        omega (
          arith,
          length-append (enc key (take 16 s)) (ecb_blocks enc key rounds (drop 16 s)),
          laws.length-encrypt key (take 16 s) first,
          length-ecb_blocks n rounds (drop 16 s) rest (omega arith),
        ))

  pub ecb_blocks-undone :
      (n rounds before : ℕ) (s : Bytes)
      → length s ≡ n * 16
      → n < rounds
      → n < before
      → ecb_blocks dec key rounds (ecb_blocks enc key before s) ≡ s
  ecb_blocks-undone zero rounds before s l h k =
      rw (ecb_blocks-nil enc key before s (omega arith), ecb_blocks-nil dec key rounds [] refl)
        (no_bytes s (omega arith))
  ecb_blocks-undone (suc n) zero before s l h k = absurd (omega arith)
  ecb_blocks-undone (suc n) (suc rounds) zero s l h k = absurd (omega arith)
  ecb_blocks-undone (suc n) (suc rounds) (suc before) s l h k =
      let rest : length (drop 16 s) ≡ n * 16 = omega (arith, length-drop 16 s) in
      let first : length (take 16 s) ≡ 16 = omega (arith, length-take 16 s) in
      let block = enc key (take 16 s) in
      let more = ecb_blocks enc key before (drop 16 s) in
      let size = laws.length-encrypt key (take 16 s) first in
      rw
        (
          ecb_blocks-step enc key before s (omega arith),
          ecb_blocks-step dec key rounds (block ++ more) (omega (arith, length-append block more)),
          take_of_length 16 block more size,
          drop_of_length 16 block more size,
          laws.undone key (take 16 s) first,
          ecb_blocks-undone n rounds before (drop 16 s) rest (omega arith) (omega arith),
        )
        (take-append-drop 16 s)
