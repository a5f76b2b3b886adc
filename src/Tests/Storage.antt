-- ===== src/Tests/Storage.antt =====
-- src/db/wcdb.rs, src/keystore/mod.rs and src/media/mod.rs on concrete inputs. The ciphers of these
-- runs leave the text as it is, and the code of a page shows the first byte of the key.
use weflow_server.Base.{
  ℕ, ◌≡◌, ◌≢◌, refl, ap, [], ◌∷◌, ◌++◌, none, some, arith, length, or_else, ◌<◌, ◌≤◌, ◌+◌, All,
}
use weflow_server.Base.Bytes.{Bytes, replicate, slice, from_le_bytes, xor_all}
use weflow_server.Base.Text.{Text, codes, text_ops}
use weflow_server.Base.Map.{Map, map_ops}
use weflow_server.Db.Cipher.{
  Ciphers, ok, err, wrong_key, derive_mac_key, page_mac, decrypt_db, encrypt_page,
}
use weflow_server.Db.Cipher.Sealed.{CipherLaws, IsPage}
use weflow_server.Db.Cipher.File.{
  ArePages, encrypt_pages, plain_file, decrypt_db-encrypt_pages, decrypt_db-other_key,
}
use weflow_server.Db.Cipher.Wal.{WalFrame, decrypt_wal_frames, apply_wal_frames}
use weflow_server.Db.Cipher.Frames.{
  Written, LogHeader, CanWrite, written_log, frames_of, decrypt_wal_frames-written,
}
use weflow_server.Db.Cipher.Snapshot.{latest, page_at, apply_wal_frames-pages}
use weflow_server.Keys.{
  Codecs, keyed, from_parts, parse_keys, parse_db_key, key_for, backslashed, aes_key_hex, xor_key,
}
use weflow_server.Keys
use weflow_server.Keys.Lookup.{IsTable, AreKeys, registered, key_for-from_parts}
use weflow_server.Media.{
  BlockCipher, v1, v2, v1_fixed_aes_key, decrypt_dat, decrypt_dat_payload, pkcs7_ct_len,
  aes128_ecb_decrypt, ecb_blocks,
}
use weflow_server.Media.Blocks.{BlockLaws}
use weflow_server.Media.RoundTrip.{dat_file, decrypt_dat-dat_file}
use weflow_server.Media.Bounds.{length-decrypt_dat_payload}

abbrev first_byte : Bytes → ℕ
first_byte [] = 0
first_byte (b ∷ s) = b

abbrev plain_ciphers : Ciphers
plain_ciphers = record {
  pbkdf2 = λ key salt rounds n. key;
  hmac = λ key message. first_byte key ∷ replicate 63 0;
  cbc_encrypt = λ key iv pt. pt;
  cbc_decrypt = λ key iv ct. some ct;
}

plain_laws : CipherLaws plain_ciphers
plain_laws = record {
  decrypt-encrypt = λ key iv pt whole. refl;
  length-encrypt = λ key iv pt whole. refl;
  length-hmac = λ key message. refl;
}

abbrev zeros : Bytes
zeros = replicate 16 0

abbrev first_plain : Bytes
first_plain = codes "SQLite format 3" ++ 0 ∷ replicate 4080 0

first_IsPage : IsPage 1 first_plain
first_IsPage = record { whole = refl; reserve = refl; header = λ e. refl }

abbrev one_page : ArePages 1 ((first_plain, zeros) ∷ [])
one_page = (first_IsPage, refl, tt)

decrypt_db-encrypt_pages_example :
    decrypt_db plain_ciphers
      (7 ∷ [])
      (encrypt_pages plain_ciphers (7 ∷ []) zeros 1 ((first_plain, zeros) ∷ []))
    ≡ ok (plain_file ((first_plain, zeros) ∷ []))
decrypt_db-encrypt_pages_example =
    decrypt_db-encrypt_pages plain_ciphers plain_laws (7 ∷ []) zeros refl first_plain zeros []
      one_page (omega arith)

other_code :
    page_mac plain_ciphers
      (derive_mac_key plain_ciphers (9 ∷ []) zeros)
      (slice 16 4032 (encrypt_page plain_ciphers (7 ∷ []) zeros 1 first_plain zeros))
      1
    ≢ page_mac plain_ciphers
        (derive_mac_key plain_ciphers (7 ∷ []) zeros)
        (slice 16 4032 (encrypt_page plain_ciphers (7 ∷ []) zeros 1 first_plain zeros))
        1
unfolding page_mac derive_mac_key
other_code e = absurd (omega (arith, ap first_byte e))

decrypt_db-other_key_example :
    decrypt_db plain_ciphers
      (9 ∷ [])
      (encrypt_pages plain_ciphers (7 ∷ []) zeros 1 ((first_plain, zeros) ∷ []))
    ≡ err wrong_key
decrypt_db-other_key_example =
    decrypt_db-other_key plain_ciphers plain_laws (7 ∷ []) zeros refl first_plain zeros [] one_page
      (9 ∷ []) other_code

-- A frame of the cycle 5 and 6 and one of an earlier cycle.
abbrev fresh : Written
fresh = record {
  pgno = 1;
  pages = 1;
  salt1 = 5;
  salt2 = 6;
  check1 = 0;
  check2 = 0;
  plain = first_plain;
  iv = zeros;
}

abbrev stale : Written
stale = record fresh { salt1 = 4 }

abbrev log_start : LogHeader
log_start = record {
  magic = 0x377f0682;
  version = 0;
  size = 4096;
  cycle = 1;
  salt1 = 5;
  salt2 = 6;
  check1 = 0;
  check2 = 0;
}

can_write : All CanWrite (fresh ∷ stale ∷ [])
can_write = (
  (omega arith, omega arith, omega arith, first_IsPage, refl),
  ((omega arith, omega arith, omega arith, first_IsPage, refl), tt),
)

decrypt_wal_frames-written_example :
    decrypt_wal_frames plain_ciphers
      (7 ∷ [])
      (written_log plain_ciphers (7 ∷ []) zeros log_start (fresh ∷ stale ∷ []) (1 ∷ 2 ∷ []))
    ≡ frames_of 5 6 (fresh ∷ stale ∷ [])
decrypt_wal_frames-written_example =
    decrypt_wal_frames-written plain_ciphers plain_laws (7 ∷ []) zeros refl log_start
      (fresh ∷ stale ∷ []) (1 ∷ 2 ∷ []) (omega arith) (omega arith) can_write (omega arith)

-- A frame for the second page of a snapshot of one page.
abbrev second_frame : WalFrame
second_frame = record { pgno = 2; page = first_plain }

apply_wal_frames-pages_example :
    ((p : Bytes)
      → latest 1 (second_frame ∷ []) ≡ some p
      → page_at 1 (apply_wal_frames first_plain (second_frame ∷ [])) ≡ p)
    × (latest 1 (second_frame ∷ []) ≡ none
        → 1 < 1
        → page_at 1 (apply_wal_frames first_plain (second_frame ∷ [])) ≡ page_at 1 first_plain)
apply_wal_frames-pages_example =
    apply_wal_frames-pages 1 1 first_plain (second_frame ∷ []) refl ((omega arith, refl), tt)

-- The text of 16 letters is its own bytes, and every digest is this one.
abbrev pub plain_codecs : Codecs
plain_codecs = record {
  utf8 = λ s. s;
  md5 = λ s. codes "0123456789abcdef";
  hex_encode = λ s. s ++ s;
  hex_decode = λ s. some s;
}

abbrev key_text : Text
key_text = replicate 64 b'a'

abbrev registered_texts : Map Text
registered_texts = (codes "message\\m.db", key_text) ∷ []

is_table : IsTable registered_texts
unfolding map_ops
is_table = (refl, tt)

accepted :
    from_parts plain_codecs none (some registered_texts)
    ≡ Keys.ok (keyed ((codes "message\\m.db", key_text) ∷ []))
unfolding text_ops map_ops from_parts parse_keys parse_db_key
accepted = refl

key_for-from_parts_example :
    AreKeys plain_codecs registered_texts
    × (key_for (keyed ((codes "message\\m.db", key_text) ∷ [])) (codes "message/m.db")
        ≡ or_else
            (registered plain_codecs registered_texts (codes "message/m.db"))
            (registered plain_codecs registered_texts (backslashed (codes "message/m.db"))))
key_for-from_parts_example =
    key_for-from_parts plain_codecs registered_texts
      (keyed ((codes "message\\m.db", key_text) ∷ [])) (codes "message/m.db") is_table accepted

-- A cipher of blocks that leaves them as they are.
abbrev pub keeps_block : BlockCipher
keeps_block key block = block

block_laws : BlockLaws keeps_block keeps_block
block_laws = record { undone = λ key block whole. refl; length-encrypt = λ key block whole. whole }

sixteen_bytes : length (plain_codecs.utf8 (aes_key_hex plain_codecs (codes "k") (codes "w"))) ≡ 16
unfolding aes_key_hex
sixteen_bytes = refl

small_code : xor_key plain_codecs (codes "k") < 256
unfolding xor_key
small_code = omega arith

decrypt_dat-dat_file_example :
    (decrypt_dat keeps_block plain_codecs
        (dat_file keeps_block 0x31 v1_fixed_aes_key 0 1 (1 ∷ 2 ∷ []) (3 ∷ []) (4 ∷ []))
        none
        (codes "w")
      ≡ some ((1 ∷ 2 ∷ []) ++ ((3 ∷ []) ++ (4 ∷ [])), v1))
    × (decrypt_dat keeps_block plain_codecs
          (dat_file keeps_block 0x32
            (plain_codecs.utf8 (aes_key_hex plain_codecs (codes "k") (codes "w")))
            (xor_key plain_codecs (codes "k"))
            1
            (1 ∷ 2 ∷ [])
            (3 ∷ [])
            (4 ∷ []))
          (some (codes "k"))
          (codes "w")
        ≡ some ((1 ∷ 2 ∷ []) ++ ((3 ∷ []) ++ (4 ∷ [])), v2))
decrypt_dat-dat_file_example =
    decrypt_dat-dat_file keeps_block keeps_block plain_codecs (codes "k") (codes "w") none 1
      (1 ∷ 2 ∷ []) (3 ∷ []) (4 ∷ []) block_laws (omega arith, tt) (omega arith) (omega arith)
      small_code sixteen_bytes

-- A header, a block of padding for an empty head, and two bytes.
abbrev raw_file : Bytes
raw_file = replicate 15 0 ++ (replicate 16 9 ++ (1 ∷ 2 ∷ []))

abbrev two_bytes : Bytes
two_bytes = 1 ∷ 2 ∷ []

raw_decoded : decrypt_dat_payload keeps_block raw_file [] 0 ≡ some two_bytes
unfolding decrypt_dat_payload pkcs7_ct_len aes128_ecb_decrypt ecb_blocks from_le_bytes xor_all
raw_decoded = refl

length-decrypt_dat_payload_example :
    (pad : ℕ) × (0 < pad) × (pad ≤ 16) × (length raw_file ≡ 15 + pad + length two_bytes)
length-decrypt_dat_payload_example =
    length-decrypt_dat_payload keeps_block (λ key block whole. whole) raw_file [] two_bytes 0
      raw_decoded
