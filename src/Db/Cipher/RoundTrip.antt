-- ===== src/Db/Cipher/RoundTrip.antt =====
-- An encrypted page, and a whole encrypted file, give back what was encrypted; and a key is accepted
-- by the code of the first page alone.
use weflow_server.Base.{
  ℕ, ◌≡◌, ◌↔◌, refl, sym, ap, ◌∙◌, true, false, some, ◌++◌, arith, inl, inr, ◌==◌, ==_iff,
  Bool-cases, length, take, drop, length-append,
}
use weflow_server.Base.Bytes.{Bytes, slice}
use weflow_server.Base.Windows.{take_of_length}
use weflow_server.Base.Text.{text_eq, text_eq_iff}
use mathlib.Core.List.{append_assoc}
use weflow_server.Db.Cipher.{
  Ciphers, ok, page_size, usable_size, salt_size, iv_size, derive_mac_key, page_mac, verify_page1,
  iv_of, decrypt_page, encrypt_page,
}
use weflow_server.Db.Cipher.Sealed.{
  CipherLaws, IsPage, parts-whole, parts-iv, parts-body, parts-mac, parts-inner, parts-input,
  decrypt_page-parts, first_ct, other_ct, length-first_ct, length-other_ct, mac_of, mac_of_lem,
  decrypt-first_ct, decrypt-other_ct, encrypt_page-first, encrypt_page-other, length-mac_of,
  rebuilt-first, rebuilt-other,
}

verify_page1-parts :
    (c : Ciphers) (candidate page : Bytes)
    → length page ≡ page_size
    → verify_page1 c candidate page
      ≡ text_eq
          (page_mac c
            (derive_mac_key c candidate (take salt_size page))
            (slice salt_size 4032 page)
            1)
          (drop 4032 page)
unfolding verify_page1
verify_page1-parts c candidate page whole = rw whole refl

module _ (c : Ciphers) (laws : CipherLaws c) (key salt : Bytes)
    (salted : length salt ≡ salt_size) where
  module _ (plain iv : Bytes) (v : length iv ≡ iv_size) where
    pub length-encrypt_page :
        (pgno : ℕ) → IsPage pgno plain → length (encrypt_page c key salt pgno plain iv) ≡ page_size
    length-encrypt_page pgno p = elim (Bool-cases (pgno == 1)) [
      | inl first ↦
          rw ((==_iff pgno 1).0 first, encrypt_page-first c laws key salt plain iv)
            (parts-whole (salt ++ first_ct c laws key salt plain iv) iv _
              (omega (
                arith,
                length-append salt (first_ct c laws key salt plain iv),
                length-first_ct c laws key salt plain iv p.whole,
              ))
              v (length-mac_of c laws key salt plain iv _ 1))
      | inr other ↦ rw (encrypt_page-other c laws key salt plain iv pgno other) (
          parts-whole (other_ct c laws key salt plain iv) iv _
            (length-other_ct c laws key salt plain iv p.whole) v
            (length-mac_of c laws key salt plain iv _ pgno))
    ]

    decrypted-first :
        IsPage 1 plain → decrypt_page c key (encrypt_page c key salt 1 plain iv) 1 ≡ ok plain
    decrypted-first p =
        let ct = first_ct c laws key salt plain iv in
        let l = length-first_ct c laws key salt plain iv p.whole in
        let mac = mac_of c laws key salt plain iv (drop salt_size ((salt ++ ct) ++ iv)) 1 in
        let b : length (salt ++ ct) ≡ usable_size = omega (arith, length-append salt ct) in
        let inner = slice salt_size usable_size plain in
        let dec : c.cbc_decrypt key (iv_of (((salt ++ ct) ++ iv) ++ mac))
              (slice salt_size usable_size (((salt ++ ct) ++ iv) ++ mac))
            ≡ some inner =
          rw (parts-iv (salt ++ ct) iv mac b v, parts-inner salt ct iv mac salted l v)
            (decrypt-first_ct c laws key salt plain iv p.whole) in
        rw (encrypt_page-first c laws key salt plain iv) (
          decrypt_page-parts c key _ inner 1
            (parts-whole (salt ++ ct) iv mac b v (length-mac_of c laws key salt plain iv _ 1)) dec
          ∙ ap ok (rebuilt-first plain p))

    decrypted-other :
        (pgno : ℕ)
        → (pgno == 1) ≡ false
        → IsPage pgno plain
        → decrypt_page c key (encrypt_page c key salt pgno plain iv) pgno ≡ ok plain
    decrypted-other pgno other p =
        let ct = other_ct c laws key salt plain iv in
        let l = length-other_ct c laws key salt plain iv p.whole in
        let mac = mac_of c laws key salt plain iv (ct ++ iv) pgno in
        let dec : c.cbc_decrypt key (iv_of ((ct ++ iv) ++ mac))
              (take usable_size ((ct ++ iv) ++ mac))
            ≡ some (take usable_size plain) =
          rw (parts-iv ct iv mac l v, parts-body ct iv mac l v)
            (decrypt-other_ct c laws key salt plain iv p.whole) in
        rw (encrypt_page-other c laws key salt plain iv pgno other) (
          decrypt_page-parts c key _ (take usable_size plain) pgno
            (parts-whole ct iv mac l v (length-mac_of c laws key salt plain iv _ pgno))
            (rw other dec)
          ∙ (rw other (ap ok (rebuilt-other pgno plain p))))

    -- A page of 4096 bytes whose 80 reserved ones are zero, the first page with the header of the
    -- format, comes back from its encryption under any salt of 16 bytes and any vector of 16 bytes.
    pub decrypt_page-encrypt_page :
        (pgno : ℕ)
        → IsPage pgno plain
        → decrypt_page c key (encrypt_page c key salt pgno plain iv) pgno ≡ ok plain
    decrypt_page-encrypt_page pgno p = elim (Bool-cases (pgno == 1)) [
      | inl first ↦ let e = (==_iff pgno 1).0 first in rw e (decrypted-first (rw e at p))
      | inr other ↦ decrypted-other pgno other p
    ]

    length-first :
        length plain ≡ page_size → length (encrypt_page c key salt 1 plain iv) ≡ page_size
    length-first whole =
        let ct = first_ct c laws key salt plain iv in
        let l = length-first_ct c laws key salt plain iv whole in
        rw (encrypt_page-first c laws key salt plain iv) (
          parts-whole (salt ++ ct) iv _ (omega (arith, length-append salt ct)) v
            (length-mac_of c laws key salt plain iv _ 1))

    begins : length plain ≡ page_size → take salt_size (encrypt_page c key salt 1 plain iv) ≡ salt
    begins whole =
        let ct = first_ct c laws key salt plain iv in
        let mac = mac_of c laws key salt plain iv (drop salt_size ((salt ++ ct) ++ iv)) 1 in
        rw
          (
            encrypt_page-first c laws key salt plain iv,
            append_assoc (salt ++ ct) iv mac,
            append_assoc salt ct (iv ++ mac),
          )
          (take_of_length salt_size salt (ct ++ (iv ++ mac)) salted)

    coded :
        length plain ≡ page_size
        → drop 4032 (encrypt_page c key salt 1 plain iv)
          ≡ page_mac c
              (derive_mac_key c key salt)
              (slice salt_size 4032 (encrypt_page c key salt 1 plain iv))
              1
    coded whole =
        let ct = first_ct c laws key salt plain iv in
        let l = length-first_ct c laws key salt plain iv whole in
        let mac = mac_of c laws key salt plain iv (drop salt_size ((salt ++ ct) ++ iv)) 1 in
        let b : length (salt ++ ct) ≡ usable_size = omega (arith, length-append salt ct) in
        let whole' : length ((salt ++ ct) ++ iv) ≡ 4032 =
          omega (arith, length-append (salt ++ ct) iv) in
        rw (encrypt_page-first c laws key salt plain iv) (
          parts-mac (salt ++ ct) iv mac b v
          ∙ mac_of_lem c laws key salt plain iv _ 1
          ∙ ap (λ i. page_mac c (derive_mac_key c key salt) i 1)
              (sym (parts-input ((salt ++ ct) ++ iv) mac whole')))

    -- An encrypted first page is accepted under a key exactly when that key gives the code that the
    -- page carries; so always under its own.
    pub verify_page1_iff :
        (candidate : Bytes)
        → length plain ≡ page_size
        → (verify_page1 c candidate (encrypt_page c key salt 1 plain iv) ≡ true) ↔ (
            page_mac c
              (derive_mac_key c candidate salt)
              (slice salt_size 4032 (encrypt_page c key salt 1 plain iv))
              1
            ≡ page_mac c
                (derive_mac_key c key salt)
                (slice salt_size 4032 (encrypt_page c key salt 1 plain iv))
                1)
    verify_page1_iff candidate whole =
        rw (verify_page1-parts c candidate _ (length-first whole))
          (rw (begins whole, coded whole) (text_eq_iff _ _))
