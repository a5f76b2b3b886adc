-- ===== src/Media.antt =====
-- src/media/mod.rs: the `.dat` files of cached images. One block of AES-128 is another crate's and a
-- parameter.
pub mod Blocks
pub mod Bounds
pub mod Disk
pub mod Export
pub mod RoundTrip
use weflow_server.Base.{
  ℕ, zero, suc, ◌+◌, ◌-◌, ◌*◌, ◌/◌, ◌%◌, ◌^◌, Bool, true, false, ◌&&◌, List, [], ◌∷◌, ◌++◌, Option,
  none, some, if◌then◌else◌, ltb, leb, ◌==◌, option_map, ◌>>=◌, length, take, drop,
}
use Prim.Native.Nat.{min}
use weflow_server.Base.Bytes.{Bytes, slice, from_le_bytes, xor_all}
use weflow_server.Base.Text.{Text, text_eq, codes}
use weflow_server.Keys.{Codecs, aes_key_hex, xor_key}

abbrev pub magic_v1 : Bytes
magic_v1 = 0x07 ∷ 0x08 ∷ 0x56 ∷ 0x31 ∷ 0x08 ∷ 0x07 ∷ []

abbrev pub magic_v2 : Bytes
magic_v2 = 0x07 ∷ 0x08 ∷ 0x56 ∷ 0x32 ∷ 0x08 ∷ 0x07 ∷ []

abbrev pub v1_fixed_aes_key : Bytes
v1_fixed_aes_key = codes "cfcd208495d565ef"

pub data DatFormat : Type 0 where
  v1 v2 legacy_xor : DatFormat

unfoldable pub detect_format : Bytes → Option DatFormat
detect_format bytes =
    if leb 6 (length bytes) && text_eq (take 6 bytes) magic_v1
    then some v1
    else if leb 6 (length bytes) && text_eq (take 6 bytes) magic_v2
    then some v2
    else if ltb 1 (length bytes)
    then some legacy_xor
    else none

-- `Aes128::decrypt_block` under a key.
abbrev pub BlockCipher : Type 0
BlockCipher = Bytes → Bytes → Bytes

-- The loop over the blocks of 16 bytes; a last block that is shorter stays. A round takes one block
-- off, so that as many rounds as there are bytes are enough.
unfoldable pub ecb_blocks : BlockCipher → Bytes → ℕ → Bytes → Bytes
ecb_blocks decrypt_block key zero ct = []
ecb_blocks decrypt_block key (suc rounds) ct =
    let later = ecb_blocks decrypt_block key rounds (drop 16 ct) in
    if leb 16 (length ct) then decrypt_block key (take 16 ct) ++ later else ct

unfoldable pub aes128_ecb_decrypt : BlockCipher → Bytes → Bytes → Bytes
aes128_ecb_decrypt decrypt_block key ct = ecb_blocks decrypt_block key (suc (length ct)) ct

-- `usize` has 64 bits.
abbrev pub checked_add : ℕ → ℕ → Option ℕ
checked_add a b = if ltb (a + b) (2 ^ 64) then some (a + b) else none

unfoldable pub pkcs7_ct_len : ℕ → Option ℕ
pkcs7_ct_len plain_len = checked_add plain_len (16 - plain_len % 16)

-- The three segments of a payload, once the header is read.
abbrev pub segments : BlockCipher → Bytes → ℕ → ℕ → ℕ → ℕ → Bytes → Bytes
segments decrypt_block aes_key xor aes_size xor_size ct_len payload =
    let xor_start = length payload - xor_size in
    let aes_pt = aes128_ecb_decrypt decrypt_block aes_key (take ct_len payload) in
    take (min aes_size (length aes_pt)) aes_pt
    ++ (slice ct_len xor_start payload ++ xor_all xor (drop xor_start payload))

unfoldable pub decrypt_dat_payload : BlockCipher → Bytes → Bytes → ℕ → Option Bytes
decrypt_dat_payload decrypt_block bytes aes_key xor =
    if ltb (length bytes) 15
    then none
    else let aes_size = from_le_bytes (slice 6 10 bytes) in
      let xor_size = from_le_bytes (slice 10 14 bytes) in
      let payload = drop 15 bytes in
      do
        ct_len ← pkcs7_ct_len aes_size
        needed ← checked_add ct_len xor_size
        if ltb (length payload) needed
            then none
            else some (segments decrypt_block aes_key xor aes_size xor_size ct_len payload)

unfoldable pub decrypt_dat_legacy : Bytes → ℕ → Bytes
decrypt_dat_legacy bytes xor = xor_all xor bytes

-- `as_bytes().try_into::<[u8; 16]>().ok()`
abbrev sixteen : Bytes → Option Bytes
sixteen key = if length key == 16 then some key else none

abbrev with_format : DatFormat → Option Bytes → Option (Bytes × DatFormat)
with_format f bytes = option_map (λ b. (b, f)) bytes

abbrev decrypt_as :
    BlockCipher → Codecs → Bytes → Option Text → Text → DatFormat → Option (Bytes × DatFormat)
decrypt_as decrypt_block c bytes img_code wxid v2 = do
  code ← img_code
  key ← sixteen (c.utf8 (aes_key_hex c code wxid))
  with_format v2 (decrypt_dat_payload decrypt_block bytes key (xor_key c code))
decrypt_as decrypt_block c bytes img_code wxid v1 =
    with_format v1 (decrypt_dat_payload decrypt_block bytes v1_fixed_aes_key 0)
decrypt_as decrypt_block c bytes img_code wxid legacy_xor = do
  code ← img_code
  some (decrypt_dat_legacy bytes (xor_key c code), legacy_xor)

unfoldable pub decrypt_dat :
    BlockCipher → Codecs → Bytes → Option Text → Text → Option (Bytes × DatFormat)
decrypt_dat decrypt_block c bytes img_code wxid =
    detect_format bytes >>= decrypt_as decrypt_block c bytes img_code wxid
