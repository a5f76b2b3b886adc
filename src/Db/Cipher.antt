-- ===== src/Db/Cipher.antt =====
-- src/db/wcdb.rs: the pages of an encrypted database and of its log. AES, HMAC and PBKDF2 are other
-- crates' and a parameter, as are the random bytes of an initialisation vector.
pub mod Wal
pub mod Sealed
pub mod RoundTrip
pub mod File
pub mod Frames
pub mod Snapshot
use weflow_server.Base.{
  ℕ, zero, suc, ◌+◌, ◌-◌, ◌/◌, ◌%◌, ◌^◌, Bool, false, [], ◌∷◌, ◌++◌, Option, none, some,
  if◌then◌else◌, ltb, ◌==◌, length, take, drop,
}
use weflow_server.Base.Bytes.{Bytes, slice, padded, le32, xor_all}
use weflow_server.Base.Text.{text_eq, codes}

abbrev pub page_size : ℕ
page_size = 4096

abbrev pub iv_size : ℕ
iv_size = 16

abbrev pub hmac_size : ℕ
hmac_size = 64

abbrev pub salt_size : ℕ
salt_size = 16

abbrev pub usable_size : ℕ
usable_size = 4016

-- "SQLite format 3" and a zero byte.
abbrev pub sqlite_hdr : Bytes
sqlite_hdr = codes "SQLite format 3" ++ 0 ∷ []

abbrev pub wal_header_size : ℕ
wal_header_size = 32

abbrev pub wal_frame_header_size : ℕ
wal_frame_header_size = 24

abbrev pub wal_frame_size : ℕ
wal_frame_size = 4120

-- `pbkdf2_hmac::<Sha512>` with its rounds and its output's length, HMAC-SHA512, and AES-256-CBC
-- without padding, of which decryption can fail.
pub record Ciphers : Type 0 where
  pub pbkdf2 : Bytes → Bytes → ℕ → ℕ → Bytes
  pub hmac : Bytes → Bytes → Bytes
  pub cbc_encrypt : Bytes → Bytes → Bytes → Bytes
  pub cbc_decrypt : Bytes → Bytes → Bytes → Option Bytes

-- The messages of `bail!`.
pub data CipherError : Type 0 where
  page_truncated : ℕ → ℕ → CipherError
  decrypt_failed : CipherError
  file_too_small : ℕ → CipherError
  wrong_key : CipherError

pub data Result {ℓ} (A : Type ℓ) : Type ℓ where
  ok : A → Result A
  err : CipherError → Result A

infixl 5 ◌>>=◌
abbrev pub ◌>>=◌ {ℓ κ} : {A : Type ℓ} {B : Type κ} → Result A → (A → Result B) → Result B
ok a >>= f = f a
err e >>= f = err e

unfoldable pub derive_mac_key : Ciphers → Bytes → Bytes → Bytes
derive_mac_key c enc_key salt = c.pbkdf2 enc_key (xor_all 0x3a salt) 2 32

unfoldable pub page_mac : Ciphers → Bytes → Bytes → ℕ → Bytes
page_mac c mac_key ct_iv pgno = c.hmac mac_key (ct_iv ++ le32 pgno)

unfoldable pub aes_cbc_decrypt : Ciphers → Bytes → Bytes → Bytes → Result Bytes
aes_cbc_decrypt c key iv ct = elim (c.cbc_decrypt key iv ct) [
  | none ↦ err decrypt_failed
  | some pt ↦ ok pt
]

unfoldable pub verify_page1 : Ciphers → Bytes → Bytes → Bool
verify_page1 c enc_key page =
    if ltb (length page) page_size
    then false
    else text_eq
        (page_mac c (derive_mac_key c enc_key (take salt_size page))
          (slice salt_size (usable_size + iv_size) page) 1)
        (drop (page_size - hmac_size) page)

abbrev pub iv_of : Bytes → Bytes
iv_of page = slice usable_size (usable_size + iv_size) page

unfoldable pub decrypt_page : Ciphers → Bytes → Bytes → ℕ → Result Bytes
decrypt_page c enc_key page pgno =
    if ltb (length page) page_size then err (page_truncated pgno (length page)) else do
      pt ←
          aes_cbc_decrypt c enc_key (iv_of page)
            (if pgno == 1 then slice salt_size usable_size page else take usable_size page)
      ok (padded page_size (if pgno == 1 then sqlite_hdr ++ pt else pt))

-- The salt, if any, the ciphertext, the vector, and their code.
unfoldable pub sealed_page : Ciphers → Bytes → Bytes → ℕ → Bytes → Bytes
sealed_page c mac_key body pgno iv =
    let input = if pgno == 1 then drop salt_size (body ++ iv) else body ++ iv in
    (body ++ iv) ++ page_mac c mac_key input pgno

unfoldable pub encrypt_page : Ciphers → Bytes → Bytes → ℕ → Bytes → Bytes → Bytes
encrypt_page c enc_key salt pgno plain iv =
    let src = if pgno == 1 then slice salt_size usable_size plain else take usable_size plain in
    let ct = c.cbc_encrypt enc_key iv src in
    sealed_page c (derive_mac_key c enc_key salt) (if pgno == 1 then salt ++ ct else ct) pgno iv

-- The loop of `decrypt_db` over the pages that are left, the number of the next one first.
unfoldable pub decrypt_pages : Ciphers → Bytes → ℕ → ℕ → Bytes → Result Bytes
decrypt_pages c enc_key pgno zero encrypted = ok []
decrypt_pages c enc_key pgno (suc left) encrypted = do
  page ← decrypt_page c enc_key (padded page_size (take page_size encrypted)) pgno
  rest ← decrypt_pages c enc_key (suc pgno) left (drop page_size encrypted)
  ok (page ++ rest)

-- `len.div_ceil(PAGE_SIZE) as u32`
abbrev pub total_pages : Bytes → ℕ
total_pages encrypted = (length encrypted + (page_size - 1)) / page_size % 2 ^ 32

unfoldable pub decrypt_db : Ciphers → Bytes → Bytes → Result Bytes
decrypt_db c enc_key encrypted =
    if ltb (length encrypted) page_size
    then err (file_too_small (length encrypted))
    else if verify_page1 c enc_key (take page_size encrypted)
    then decrypt_pages c enc_key 1 (total_pages encrypted) encrypted
    else err wrong_key
