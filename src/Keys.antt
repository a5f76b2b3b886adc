-- ===== src/Keys.antt =====
-- src/keystore/mod.rs: the keys of the databases and of the images. MD5 and hexadecimal text are
-- other crates', and the bytes of a string are the standard library's: parameters.
pub mod Lookup
use weflow_server.Base.{
  ℕ, zero, suc, ◌+◌, ◌-◌, ◌*◌, Bool, true, false, ◌&&◌, List, [], ◌∷◌, ◌++◌, Option, none, some,
  if◌then◌else◌, ltb, leb, ◌==◌, or_else, unwrap_or, option_map, ◌>>=◌, length, take, map,
}
use weflow_server.Base.Bytes.{Bytes}
use weflow_server.Base.Text.{Text, codes, len, trim, strip_prefix, is_ascii_digit, to_ascii_lower}
use weflow_server.Base.Decimal.{parse_u8}
use weflow_server.Base.Map.{Map, lookup, insert}

pub record Codecs : Type 0 where
  pub utf8 : Text → Bytes
  pub md5 : Bytes → Bytes
  pub hex_encode : Bytes → Text
  pub hex_decode : Text → Option Bytes

-- A key is its 32 bytes.
abbrev pub DbKey : Type 0
DbKey = Bytes

pub data KeyMap : Type 0 where
  empty : KeyMap
  single : DbKey → KeyMap
  keyed : Map DbKey → KeyMap

-- `rel.replace('/', "\\")`
abbrev pub backslashed : Text → Text
backslashed rel = map (λ c. if c == b'/' then b'\\' else c) rel

unfoldable pub key_for : KeyMap → Text → Option DbKey
key_for empty rel = none
key_for (single k) rel = some k
key_for (keyed m) rel = or_else (lookup rel m) (lookup (backslashed rel) m)

unfoldable pub keys_is_empty : KeyMap → Bool
keys_is_empty empty = true
keys_is_empty (single k) = false
keys_is_empty (keyed m) = false

-- The two messages of `parse_db_key`; neither holds the key.
pub data KeyError : Type 0 where
  bad_length : ℕ → KeyError
  not_hex : KeyError

pub data Parsed {ℓ} (A : Type ℓ) : Type ℓ where
  ok : A → Parsed A
  err : KeyError → Parsed A

unfoldable pub parse_db_key : Codecs → Text → Parsed DbKey
parse_db_key c raw =
    let s = trim raw in
    if len s == 64
    then elim (c.hex_decode s) as (λ _. Parsed DbKey) [ none ↦ err not_hex | some bytes ↦ ok bytes ]
    else err (bad_length (len s))

-- The loop of `from_parts` over the registered texts, in the order of the map; the first text that
-- is no key is the error.
unfoldable pub parse_keys : Codecs → Map DbKey → Map Text → Parsed (Map DbKey)
parse_keys c m [] = ok m
parse_keys c m ((rel, hex) ∷ texts) = elim (parse_db_key c hex) as (λ _. Parsed (Map DbKey)) [
  | ok key ↦ parse_keys c (insert rel key m) texts
  | err e ↦ err e
]

abbrev keyed_or_error : Parsed (Map DbKey) → Parsed KeyMap
keyed_or_error (ok m) = ok (keyed m)
keyed_or_error (err e) = err e

unfoldable pub from_parts : Codecs → Option DbKey → Option (Map Text) → Parsed KeyMap
from_parts c (some k) keys = ok (single k)
from_parts c none none = ok empty
from_parts c none (some texts) = keyed_or_error (parse_keys c [] texts)

-- The code of an account's images is a text.
abbrev first_or_zero : Bytes → ℕ
first_or_zero [] = 0
first_or_zero (b ∷ s) = b

unfoldable pub xor_key : Codecs → Text → ℕ
xor_key c code = first_or_zero (c.utf8 code)

unfoldable pub aes_key_hex : Codecs → Text → Text → Text
aes_key_hex c code wxid = c.hex_encode (take 8 (c.md5 (c.utf8 code ++ c.utf8 wxid)))

pub record ImageKeys : Type 0 where
  pub aes : Bytes
  pub xor : ℕ

unfoldable pub from_img_code : Codecs → Text → Text → ImageKeys
from_img_code c code wxid = record { aes = c.utf8 (aes_key_hex c code wxid); xor = xor_key c code }

-- `u8::from_str_radix(h, 16)`
abbrev hex_digit : ℕ → Option ℕ
hex_digit d =
    if is_ascii_digit d
    then some (d - b'0')
    else if leb b'a' (to_ascii_lower d) && leb (to_ascii_lower d) b'f'
    then some (to_ascii_lower d - b'a' + 10)
    else none

-- An overflow is an error at once.
read_hex : ℕ → Text → Option ℕ
read_hex n [] = some n
read_hex n (d ∷ s) = do
  v ← hex_digit d
  if ltb (n * 16 + v) 256 then read_hex (n * 16 + v) s else none

read_hex_digits : Text → Option ℕ
unfolding read_hex
read_hex_digits [] = none
read_hex_digits (d ∷ s) = read_hex 0 (d ∷ s)

unfoldable pub from_str_radix_16 : Text → Option ℕ
unfolding read_hex_digits
from_str_radix_16 [] = none
from_str_radix_16 (d ∷ s) = if d == b'+' then read_hex_digits s else read_hex_digits (d ∷ s)

abbrev xor_value : Text → Option ℕ
xor_value xor = elim (or_else (strip_prefix (codes "0x") xor) (strip_prefix (codes "0X") xor)) [
  | some h ↦ from_str_radix_16 h
  | none ↦ parse_u8 xor
]

-- `none` stands for each of its errors.
unfoldable pub image_keys_from_parts : Codecs → Text → Text → Option ImageKeys
image_keys_from_parts c aes_hex xor =
    if length (c.utf8 aes_hex) == 16
    then option_map (λ v. record { aes = c.utf8 aes_hex; xor = v }) (xor_value xor)
    else none
