-- ===== src/Db/Cipher/Sealed.antt =====
-- The parts of an encrypted page, and that decrypting it gives the page back.
use weflow_server.Base.{
  ℕ, ◌%◌, ◌≡◌, refl, sym, ap, ◌∙◌, false, ◌++◌, some, arith, if◌then◌else◌, ◌==◌, length, take,
  drop, length-append, length-take, length-drop, take-append-drop, drop-drop,
}
use weflow_server.Base.Bytes.{Bytes, replicate, slice, padded}
use weflow_server.Base.Windows.{take_of_length, drop_of_length, take_all, window-append}
use weflow_server.Db.Cipher.{
  Ciphers, ok, page_size, usable_size, salt_size, iv_size, sqlite_hdr, derive_mac_key, page_mac,
  aes_cbc_decrypt, iv_of, decrypt_page, sealed_page, encrypt_page,
}

-- What the ciphers document: CBC over whole blocks is undone by its inverse and keeps the length,
-- and an HMAC-SHA512 has 64 bytes.
pub record CipherLaws (c : Ciphers) : Type 0 where
  pub decrypt-encrypt :
      (key iv pt : Bytes)
      → length pt % 16 ≡ 0
      → c.cbc_decrypt key iv (c.cbc_encrypt key iv pt) ≡ some pt
  pub length-encrypt :
      (key iv pt : Bytes) → length pt % 16 ≡ 0 → length (c.cbc_encrypt key iv pt) ≡ length pt
  pub length-hmac : (key message : Bytes) → length (c.hmac key message) ≡ 64

-- A page of a database whose pages have 80 reserved bytes: they are zero, and the first page opens
-- with the header.
pub record IsPage (pgno : ℕ) (plain : Bytes) : Type 0 where
  pub whole : length plain ≡ page_size
  pub reserve : drop usable_size plain ≡ replicate 80 0
  pub header : pgno ≡ 1 → take salt_size plain ≡ sqlite_hdr

module _ (body iv mac : Bytes) (b : length body ≡ usable_size) (v : length iv ≡ iv_size) where
  pub parts-whole : length mac ≡ 64 → length ((body ++ iv) ++ mac) ≡ page_size
  parts-whole m = omega (arith, length-append (body ++ iv) mac, length-append body iv)

  pub parts-iv : iv_of ((body ++ iv) ++ mac) ≡ iv
  parts-iv =
      window-append usable_size iv_size (body ++ iv) mac (omega (arith, length-append body iv))
      ∙ ap (take iv_size) (drop_of_length usable_size body iv b)
      ∙ take_all iv_size iv v

  pub parts-body : take usable_size ((body ++ iv) ++ mac) ≡ body
  parts-body =
      window-append 0 usable_size (body ++ iv) mac (omega (arith, length-append body iv))
      ∙ take_of_length usable_size body iv b

  pub parts-mac : drop 4032 ((body ++ iv) ++ mac) ≡ mac
  parts-mac = drop_of_length 4032 (body ++ iv) mac (omega (arith, length-append body iv))

pub parts-inner :
    (salt ct iv mac : Bytes)
    → length salt ≡ salt_size
    → length ct ≡ 4000
    → length iv ≡ iv_size
    → slice salt_size usable_size (((salt ++ ct) ++ iv) ++ mac) ≡ ct
parts-inner salt ct iv mac s t v =
    let both = length-append salt ct in
    let all = length-append (salt ++ ct) iv in
    window-append salt_size 4000 ((salt ++ ct) ++ iv) mac (omega arith)
    ∙ window-append salt_size 4000 (salt ++ ct) iv (omega arith)
    ∙ ap (take 4000) (drop_of_length salt_size salt ct s)
    ∙ take_all 4000 ct t

pub parts-input :
    (sealed mac : Bytes)
    → length sealed ≡ 4032
    → slice salt_size 4032 (sealed ++ mac) ≡ drop salt_size sealed
parts-input sealed mac e =
    window-append salt_size 4016 sealed mac (omega arith)
    ∙ take_all 4016 (drop salt_size sealed) (omega (arith, length-drop salt_size sealed))

aes_cbc_decrypt-some :
    (c : Ciphers) (key iv ct pt : Bytes)
    → c.cbc_decrypt key iv ct ≡ some pt
    → aes_cbc_decrypt c key iv ct ≡ ok pt
unfolding aes_cbc_decrypt
aes_cbc_decrypt-some c key iv ct pt h = rw (h, aes_cbc_decrypt) refl

-- Decryption reads the vector and the ciphertext where they stand.
pub decrypt_page-parts :
    (c : Ciphers) (key page pt : Bytes) (pgno : ℕ)
    → length page ≡ page_size
    → c.cbc_decrypt key
        (iv_of page)
        (if pgno == 1 then slice salt_size usable_size page else take usable_size page)
      ≡ some pt
    → decrypt_page c key page pgno
      ≡ ok (padded page_size (if pgno == 1 then sqlite_hdr ++ pt else pt))
unfolding decrypt_page
decrypt_page-parts c key page pt pgno whole dec =
    rw (whole, aes_cbc_decrypt-some c key (iv_of page) _ pt dec) refl

module _ (c : Ciphers) (laws : CipherLaws c) (key salt plain iv : Bytes) where
  -- The encrypted part of the first page, and of every other one.
  pub first_ct : Bytes
  first_ct = c.cbc_encrypt key iv (slice salt_size usable_size plain)

  pub other_ct : Bytes
  other_ct = c.cbc_encrypt key iv (take usable_size plain)

  pub length-first_ct : length plain ≡ page_size → length first_ct ≡ 4000
  unfolding first_ct
  length-first_ct e =
      let src : length (slice salt_size usable_size plain) ≡ 4000 =
        omega (arith, length-take 4000 (drop salt_size plain), length-drop salt_size plain) in
      laws.length-encrypt key iv (slice salt_size usable_size plain) (rw src refl) ∙ src

  pub length-other_ct : length plain ≡ page_size → length other_ct ≡ usable_size
  unfolding other_ct
  length-other_ct e =
      let src : length (take usable_size plain) ≡ usable_size =
        omega (arith, length-take usable_size plain) in
      laws.length-encrypt key iv (take usable_size plain) (rw src refl) ∙ src

  pub decrypt-first_ct :
      length plain ≡ page_size
      → c.cbc_decrypt key iv first_ct ≡ some (slice salt_size usable_size plain)
  unfolding first_ct
  decrypt-first_ct e =
      let src : length (slice salt_size usable_size plain) ≡ 4000 =
        omega (arith, length-take 4000 (drop salt_size plain), length-drop salt_size plain) in
      laws.decrypt-encrypt key iv (slice salt_size usable_size plain) (rw src refl)

  pub decrypt-other_ct :
      length plain ≡ page_size → c.cbc_decrypt key iv other_ct ≡ some (take usable_size plain)
  unfolding other_ct
  decrypt-other_ct e =
      let src : length (take usable_size plain) ≡ usable_size =
        omega (arith, length-take usable_size plain) in
      laws.decrypt-encrypt key iv (take usable_size plain) (rw src refl)

  pub mac_of : Bytes → ℕ → Bytes
  mac_of input pgno = page_mac c (derive_mac_key c key salt) input pgno

  pub mac_of_lem :
      (input : Bytes) (pgno : ℕ)
      → mac_of input pgno ≡ page_mac c (derive_mac_key c key salt) input pgno
  unfolding mac_of
  mac_of_lem input pgno = refl

  pub encrypt_page-first :
      encrypt_page c key salt 1 plain iv
      ≡ ((salt ++ first_ct) ++ iv) ++ mac_of (drop salt_size ((salt ++ first_ct) ++ iv)) 1
  unfolding encrypt_page sealed_page first_ct mac_of
  encrypt_page-first = refl

  pub encrypt_page-other :
      (pgno : ℕ)
      → (pgno == 1) ≡ false
      → encrypt_page c key salt pgno plain iv ≡ (other_ct ++ iv) ++ mac_of (other_ct ++ iv) pgno
  unfolding encrypt_page sealed_page other_ct mac_of
  encrypt_page-other pgno e = rw e refl

  pub length-mac_of : (input : Bytes) (pgno : ℕ) → length (mac_of input pgno) ≡ 64
  unfolding mac_of page_mac
  length-mac_of input pgno = laws.length-hmac _ _

padded-reserve : (s : Bytes) → length s ≡ usable_size → padded page_size s ≡ s ++ replicate 80 0
padded-reserve s e = rw e refl

pub rebuilt-other :
    (pgno : ℕ) (plain : Bytes)
    → IsPage pgno plain
    → padded page_size (take usable_size plain) ≡ plain
rebuilt-other pgno plain p =
    padded-reserve (take usable_size plain) (length-take usable_size plain ∙ (rw p.whole refl))
    ∙ ap (◌++◌ (take usable_size plain)) (sym p.reserve)
    ∙ take-append-drop usable_size plain

pub rebuilt-first :
    (plain : Bytes)
    → IsPage 1 plain
    → padded page_size (sqlite_hdr ++ slice salt_size usable_size plain) ≡ plain
rebuilt-first plain p =
    let inner = slice salt_size usable_size plain in
    let src : length inner ≡ 4000 =
      omega
        (arith, p.whole, length-take 4000 (drop salt_size plain), length-drop salt_size plain) in
    let rest : drop salt_size plain ≡ inner ++ replicate 80 0 =
      sym (take-append-drop 4000 (drop salt_size plain))
      ∙ ap (◌++◌ inner) (drop-drop salt_size 4000 plain ∙ p.reserve) in
    padded-reserve (sqlite_hdr ++ inner) (omega (arith, length-append sqlite_hdr inner))
    ∙ ap (◌++◌ sqlite_hdr) (sym rest)
    ∙ ap (λ h. h ++ drop salt_size plain) (sym (p.header refl))
    ∙ take-append-drop salt_size plain
