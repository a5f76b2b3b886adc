-- ===== src/Media/RoundTrip.antt =====
-- A `.dat` file gives back the image that was written into it.
use mathlib.Core.List.{append_assoc}
use weflow_server.Base.{
  ℕ, suc, ◌+◌, ◌-◌, ◌*◌, ◌/◌, ◌%◌, ◌^◌, ◌<◌, ◌≤◌, ◌≡◌, refl, sym, ap, ◌∙◌, true, false, [], ◌∷◌,
  ◌++◌, Option, some, arith, ltb, length, take, drop, length-append, All,
}
use Prim.Native.Nat.{min}
use weflow_server.Base.Bytes.{
  Bytes, IsByte, replicate, length-replicate, le32, slice, from_le_bytes, from_le_bytes-le32,
  xor_all, xor_all-xor_all, length-xor_all,
}
use weflow_server.Base.Text.{Text, text_eq}
use weflow_server.Base.Windows.{take_of_length, drop_of_length}
use weflow_server.Keys.{Codecs, aes_key_hex, xor_key}
use weflow_server.Media.{
  BlockCipher, ecb_blocks, aes128_ecb_decrypt, pkcs7_ct_len, segments, decrypt_dat_payload, v1, v2,
  detect_format, decrypt_dat, v1_fixed_aes_key,
}
use weflow_server.Media.Blocks.{BlockLaws, fits, length-ecb_blocks, ecb_blocks-undone}

-- The padding of PKCS7, and the length of what is encrypted.
abbrev pub pad_of : Bytes → ℕ
pad_of head = 16 - length head % 16

abbrev pub pkcs7 : Bytes → Bytes
pkcs7 head = head ++ replicate (pad_of head) (pad_of head)

abbrev pub blocks_of : Bytes → ℕ
blocks_of head = length head / 16 + 1

-- A file as the client writes it: the header, the encrypted head, the plain middle, and the tail
-- under the key of one byte.
abbrev pub written_ct : BlockCipher → Bytes → Bytes → Bytes
written_ct enc aes head = ecb_blocks enc aes (suc (blocks_of head)) (pkcs7 head)

abbrev pub dat_file : BlockCipher → ℕ → Bytes → ℕ → ℕ → Bytes → Bytes → Bytes → Bytes
dat_file enc version aes xor flag head mid tail =
    (0x07 ∷ 0x08 ∷ 0x56 ∷ version ∷ 0x08 ∷ 0x07 ∷ [])
    ++ (le32 (length head)
        ++ (le32 (length tail) ++ (flag ∷ (written_ct enc aes head ++ (mid ++ xor_all xor tail)))))

length-pkcs7 : (head : Bytes) → length (pkcs7 head) ≡ blocks_of head * 16
length-pkcs7 head = omega (
  arith,
  length-append head (replicate (pad_of head) (pad_of head)),
  length-replicate (pad_of head) (pad_of head),
)

ltb_of : (m n : ℕ) → m < n → ltb m n ≡ true
ltb_of m n h = ground arith

not_less : (m n : ℕ) → n ≤ m → ltb m n ≡ false
not_less m n h = ground arith

-- A file whose header is read as these sizes, and whose payload has room for them.
decrypt_dat_payload-read :
    (dec : BlockCipher) (file payload aes : Bytes) (xor aes_size xor_size ct_len : ℕ)
    → ltb (length file) 15 ≡ false
    → from_le_bytes (slice 6 10 file) ≡ aes_size
    → from_le_bytes (slice 10 14 file) ≡ xor_size
    → drop 15 file ≡ payload
    → pkcs7_ct_len aes_size ≡ some ct_len
    → ltb (ct_len + xor_size) (2 ^ 64) ≡ true
    → ltb (length payload) (ct_len + xor_size) ≡ false
    → decrypt_dat_payload dec file aes xor
      ≡ some (segments dec aes xor aes_size xor_size ct_len payload)
unfolding decrypt_dat_payload
decrypt_dat_payload-read dec file payload aes xor aes_size xor_size ct_len long a x p c n room =
    rw (long, a, x, p, c, n, room) refl

pkcs7_ct_len-head :
    (head : Bytes) → length head < 2 ^ 32 → pkcs7_ct_len (length head) ≡ some (blocks_of head * 16)
unfolding pkcs7_ct_len
pkcs7_ct_len-head head small =
    let e : length head + (16 - length head % 16) ≡ blocks_of head * 16 = omega arith in
    let t : ltb (blocks_of head * 16) (2 ^ 64) ≡ true =
      ltb_of (blocks_of head * 16) (2 ^ 64) (omega arith) in
    rw (e, t) refl

module _ (dec enc : BlockCipher) (laws : BlockLaws dec enc) (aes : Bytes) (xor : ℕ)
    (byte : xor < 256) (head mid tail : Bytes) (bytes : All IsByte tail) where
  length-written_ct : length (written_ct enc aes head) ≡ blocks_of head * 16
  length-written_ct =
      length-ecb_blocks dec enc laws aes (blocks_of head) (suc (blocks_of head)) (pkcs7 head)
        (length-pkcs7 head) (omega arith)
      ∙ length-pkcs7 head

  payload : Bytes
  payload = written_ct enc aes head ++ (mid ++ xor_all xor tail)

  length-payload : length payload ≡ blocks_of head * 16 + length mid + length tail
  unfolding payload
  length-payload = omega (
    arith,
    length-append (written_ct enc aes head) (mid ++ xor_all xor tail),
    length-append mid (xor_all xor tail),
    length-xor_all xor tail,
    length-written_ct,
  )

  head-written :
      take
        (min
          (length head)
          (length (aes128_ecb_decrypt dec aes (take (blocks_of head * 16) payload))))
        (aes128_ecb_decrypt dec aes (take (blocks_of head * 16) payload))
      ≡ head
  unfolding payload aes128_ecb_decrypt
  head-written =
      let ct = written_ct enc aes head in
      let enough : blocks_of head < suc (length ct) = omega (arith, length-written_ct) in
      let plain : ecb_blocks dec aes (suc (length ct)) ct ≡ pkcs7 head =
        ecb_blocks-undone dec enc laws aes (blocks_of head) (suc (length ct)) (suc (blocks_of head))
          (pkcs7 head) (length-pkcs7 head) enough (omega arith) in
      let least : length head ≡ min (length head) (length (pkcs7 head)) =
        omega (arith, length-append head (replicate (pad_of head) (pad_of head))) in
      rw
        (take_of_length (blocks_of head * 16) ct (mid ++ xor_all xor tail) length-written_ct, plain)
        (take_of_length (min (length head) (length (pkcs7 head))) head
          (replicate (pad_of head) (pad_of head)) least)

  middle-written : slice (blocks_of head * 16) (length payload - length tail) payload ≡ mid
  unfolding payload
  middle-written =
      let ct = written_ct enc aes head in
      let n : length payload - length tail - blocks_of head * 16 ≡ length mid =
        omega (arith, length-payload) in
      rw (n, drop_of_length (blocks_of head * 16) ct (mid ++ xor_all xor tail) length-written_ct)
        (take_of_length (length mid) mid (xor_all xor tail) refl)

  tail-written : drop (length payload - length tail) payload ≡ xor_all xor tail
  unfolding payload
  tail-written =
      let ct = written_ct enc aes head in
      let n : length (ct ++ mid) ≡ length payload - length tail =
        omega (arith, length-payload, length-append ct mid, length-written_ct) in
      ap (drop (length payload - length tail)) (sym (append_assoc ct mid (xor_all xor tail)))
      ∙ drop_of_length (length payload - length tail) (ct ++ mid) (xor_all xor tail) n

  -- The segments of the payload that was written.
  segments-written :
      segments dec aes xor (length head) (length tail) (blocks_of head * 16) payload
      ≡ head ++ (mid ++ tail)
  segments-written =
      rw (head-written, middle-written, tail-written, xor_all-xor_all xor tail byte bytes) refl

  -- The header's sizes are read back, and the payload is long enough for them.
  decrypt_dat_payload-written :
      (version flag : ℕ)
      → length head < 2 ^ 32
      → length tail < 2 ^ 32
      → decrypt_dat_payload dec (dat_file enc version aes xor flag head mid tail) aes xor
        ≡ some (head ++ (mid ++ tail))
  unfolding payload
  decrypt_dat_payload-written version flag h t =
      let ct = blocks_of head * 16 in
      decrypt_dat_payload-read dec (dat_file enc version aes xor flag head mid tail) payload aes xor
        (length head) (length tail) ct (not_less _ 15 (omega arith))
        (from_le_bytes-le32 (length head) h) (from_le_bytes-le32 (length tail) t) refl
        (pkcs7_ct_len-head head h) (ltb_of (ct + length tail) (2 ^ 64) (omega arith))
        (not_less (length payload) (ct + length tail) (omega (arith, length-payload)))
      ∙ ap some segments-written

detect_format-v1 :
    (rest : Bytes) → detect_format (0x07 ∷ 0x08 ∷ 0x56 ∷ 0x31 ∷ 0x08 ∷ 0x07 ∷ rest) ≡ some v1
unfolding detect_format text_eq
detect_format-v1 rest =
    let long = fits 6 (length (0x07 ∷ 0x08 ∷ 0x56 ∷ 0x31 ∷ 0x08 ∷ 0x07 ∷ rest)) (omega arith) in
    rw long refl

detect_format-v2 :
    (rest : Bytes) → detect_format (0x07 ∷ 0x08 ∷ 0x56 ∷ 0x32 ∷ 0x08 ∷ 0x07 ∷ rest) ≡ some v2
unfolding detect_format text_eq
detect_format-v2 rest =
    let long = fits 6 (length (0x07 ∷ 0x08 ∷ 0x56 ∷ 0x32 ∷ 0x08 ∷ 0x07 ∷ rest)) (omega arith) in
    rw long refl

-- A file in three segments, the head encrypted with its PKCS7 padding, the middle plain, the tail
-- under the key byte, head and tail shorter than 2 ^ 32: in the first version it is decoded to the
-- image with any code of the account or none, in the second under the code whose keys wrote it, if
-- the derived key has 16 bytes.
pub decrypt_dat-dat_file :
    (dec enc : BlockCipher) (c : Codecs) (code wxid : Text) (img_code : Option Text) (flag : ℕ)
    (head mid tail : Bytes)
    → BlockLaws dec enc
    → All IsByte tail
    → length head < 2 ^ 32
    → length tail < 2 ^ 32
    → xor_key c code < 256
    → length (c.utf8 (aes_key_hex c code wxid)) ≡ 16
    → (decrypt_dat dec c (dat_file enc 0x31 v1_fixed_aes_key 0 flag head mid tail) img_code wxid
        ≡ some (head ++ (mid ++ tail), v1))
      × (decrypt_dat dec c
            (dat_file enc 0x32
              (c.utf8 (aes_key_hex c code wxid))
              (xor_key c code)
              flag
              head
              mid
              tail)
            (some code)
            wxid
          ≡ some (head ++ (mid ++ tail), v2))
unfolding decrypt_dat
decrypt_dat-dat_file dec enc c code wxid img_code flag head mid tail laws bytes h t byte sixteen = (
  rw
      (
        detect_format-v1 _,
        decrypt_dat_payload-written dec enc laws v1_fixed_aes_key 0 (omega arith) head mid tail
            bytes 0x31 flag h t,
      )
      refl,
  rw
      (
        detect_format-v2 _,
        sixteen,
        decrypt_dat_payload-written dec enc laws (c.utf8 (aes_key_hex c code wxid)) (xor_key c code)
            byte head mid tail bytes 0x32 flag h t,
      )
      refl,
)
