-- ===== src/Db/Cipher/File.antt =====
-- A whole encrypted file: what is decrypted under the right key, and which files are refused.
use weflow_server.Base.{
  ℕ, suc, ◌*◌, ◌<◌, ◌≤◌, ◌^◌, ◌≡◌, refl, ◌≢◌, true, false, List, [], ◌∷◌, ◌++◌, arith, inl, inr,
  Bool-cases, length, take, length-append, ltb,
}
use mathlib.Core.List.{append-nil}
use weflow_server.Base.Bytes.{Bytes, padded, slice}
use weflow_server.Base.Windows.{take_of_length, drop_of_length}
use weflow_server.Db.Cipher.{
  Ciphers, ok, err, wrong_key, page_size, salt_size, iv_size, verify_page1, derive_mac_key,
  page_mac, encrypt_page, decrypt_pages, total_pages, decrypt_db,
}
use weflow_server.Db.Cipher.Sealed.{CipherLaws, IsPage}
use weflow_server.Db.Cipher.RoundTrip.{
  length-encrypt_page, decrypt_page-encrypt_page, verify_page1_iff,
}

-- Pages with their vectors, numbered from `pgno` on, that can be encrypted; their encryption; and
-- the plain file.
abbrev pub ArePages : ℕ → List (Bytes × Bytes) → Type 0
ArePages pgno [] = Unit
ArePages pgno ((plain, iv) ∷ pages) =
    IsPage pgno plain × (length iv ≡ iv_size) × ArePages (suc pgno) pages

abbrev pub encrypt_pages : Ciphers → Bytes → Bytes → ℕ → List (Bytes × Bytes) → Bytes
encrypt_pages c key salt pgno [] = []
encrypt_pages c key salt pgno ((plain, iv) ∷ pages) =
    encrypt_page c key salt pgno plain iv ++ encrypt_pages c key salt (suc pgno) pages

abbrev pub plain_file : List (Bytes × Bytes) → Bytes
plain_file [] = []
plain_file ((plain, iv) ∷ pages) = plain ++ plain_file pages

not_short : (m n : ℕ) → n ≤ m → ltb m n ≡ false
not_short m n h = ground arith

padded_page :
    (page rest : Bytes)
    → length page ≡ page_size
    → padded page_size (take page_size (page ++ rest)) ≡ page
padded_page page rest e = rw (take_of_length page_size page rest e, e) (append-nil page)

module _ (c : Ciphers) (laws : CipherLaws c) (key salt : Bytes)
    (salted : length salt ≡ salt_size) where
  length-encrypt_pages :
      (pgno : ℕ) (pages : List (Bytes × Bytes))
      → ArePages pgno pages
      → length (encrypt_pages c key salt pgno pages) ≡ length pages * page_size
  length-encrypt_pages pgno [] h = refl
  length-encrypt_pages pgno ((plain, iv) ∷ pages) h =
      let page = encrypt_page c key salt pgno plain iv in
      let more = encrypt_pages c key salt (suc pgno) pages in
      omega (
        arith,
        length-append page more,
        length-encrypt_page c laws key salt salted plain iv h.1 pgno h.0,
        length-encrypt_pages (suc pgno) pages h.2,
      )

  decrypt_pages-encrypt_pages :
      (pgno : ℕ) (pages : List (Bytes × Bytes))
      → ArePages pgno pages
      → decrypt_pages c key pgno (length pages) (encrypt_pages c key salt pgno pages)
        ≡ ok (plain_file pages)
  unfolding decrypt_pages
  decrypt_pages-encrypt_pages pgno [] h = refl
  decrypt_pages-encrypt_pages pgno ((plain, iv) ∷ pages) h =
      let page = encrypt_page c key salt pgno plain iv in
      let more = encrypt_pages c key salt (suc pgno) pages in
      let e = length-encrypt_page c laws key salt salted plain iv h.1 pgno h.0 in
      rw
        (
          padded_page page more e,
          decrypt_page-encrypt_page c laws key salt salted plain iv h.1 pgno h.0,
          drop_of_length page_size page more e,
          decrypt_pages-encrypt_pages (suc pgno) pages h.2,
        )
        refl

  module _ (plain iv : Bytes) (pages : List (Bytes × Bytes))
      (h : ArePages 1 ((plain, iv) ∷ pages)) where
    first_page :
        take page_size (encrypt_pages c key salt 1 ((plain, iv) ∷ pages))
        ≡ encrypt_page c key salt 1 plain iv
    first_page =
        take_of_length page_size (encrypt_page c key salt 1 plain iv)
          (encrypt_pages c key salt 2 pages)
          (length-encrypt_page c laws key salt salted plain iv h.1 1 h.0)

    long_enough : ltb (length (encrypt_pages c key salt 1 ((plain, iv) ∷ pages))) page_size ≡ false
    long_enough =
        not_short _ page_size (omega (arith, length-encrypt_pages 1 ((plain, iv) ∷ pages) h))

    counted :
        suc (length pages) < 2 ^ 32
        → total_pages (encrypt_pages c key salt 1 ((plain, iv) ∷ pages)) ≡ suc (length pages)
    counted few = omega (arith, length-encrypt_pages 1 ((plain, iv) ∷ pages) h)

    -- The encryption of at least one page and of fewer than 2 ^ 32 pages is decrypted to the plain
    -- file under its key, if each page has 4096 bytes of which the last 80 are zero, the first page
    -- opens with the header of SQLite, and the salt and each vector have 16 bytes, for ciphers that
    -- obey the laws of `CipherLaws`.
    pub decrypt_db-encrypt_pages :
        suc (length pages) < 2 ^ 32
        → decrypt_db c key (encrypt_pages c key salt 1 ((plain, iv) ∷ pages))
          ≡ ok (plain_file ((plain, iv) ∷ pages))
    unfolding decrypt_db
    decrypt_db-encrypt_pages few =
        let accepted : verify_page1 c key (encrypt_page c key salt 1 plain iv) ≡ true =
          (verify_page1_iff c laws key salt salted plain iv h.1 key h.0.whole).1 refl in
        rw (long_enough, first_page, accepted, counted few)
          (decrypt_pages-encrypt_pages 1 ((plain, iv) ∷ pages) h)

    -- Under a key that gives another code for the first page the file is refused as a whole.
    pub decrypt_db-other_key :
        (candidate : Bytes)
        → page_mac c
            (derive_mac_key c candidate salt)
            (slice salt_size 4032 (encrypt_page c key salt 1 plain iv))
            1
          ≢ page_mac c
              (derive_mac_key c key salt)
              (slice salt_size 4032 (encrypt_page c key salt 1 plain iv))
              1
        → decrypt_db c candidate (encrypt_pages c key salt 1 ((plain, iv) ∷ pages)) ≡ err wrong_key
    unfolding decrypt_db
    decrypt_db-other_key candidate differs =
        let iff = verify_page1_iff c laws key salt salted plain iv h.1 candidate h.0.whole in
        let refused : verify_page1 c candidate (encrypt_page c key salt 1 plain iv) ≡ false =
          elim (Bool-cases (verify_page1 c candidate (encrypt_page c key salt 1 plain iv))) [
            | inl accepted ↦ absurd (differs (iff.0 accepted))
            | inr refused ↦ refused
          ] in
        rw (long_enough, first_page, refused) refl
