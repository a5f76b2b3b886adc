-- ===== src/Pathsafe/Slug.antt =====
-- `slugify` of src/pathsafe.rs always makes a safe path component.
use weflow_server.Base.{
  ℕ, ◌≤◌, ◌≡◌, refl, inl, inr, Bool, true, false, [], ◌∷◌, map, arith, ◌==◌, length, take, last?,
  any, All, All-take, Bool-cases, length-take,
}
use weflow_server.Base.Text.{
  Text, codes, text_eq, is_empty, trim_end_matches, is_control, to_ascii_upper, len,
}
use weflow_server.Pathsafe.{
  before_dot, is_dot_or_space, is_device_name, is_reserved_device, last_is, safe_segment,
  is_slug_char, fold_char, guard_device, slugify,
}

abbrev IsSlug : ℕ → Type 0
IsSlug c = is_slug_char c ≡ true

fold_char-IsSlug : (c : ℕ) → IsSlug (fold_char c)
fold_char-IsSlug c = ground arith

map-fold_char-IsSlug : (s : Text) → All IsSlug (map fold_char s)
map-fold_char-IsSlug [] = tt
map-fold_char-IsSlug (c ∷ s) = (fold_char-IsSlug c, map-fold_char-IsSlug s)

-- A test that no slug character passes finds nothing in a slug.
any-slug :
    (p : ℕ → Bool)
    → ((c : ℕ) → IsSlug c → p c ≡ false)
    → (t : Text) → All IsSlug t
    → any p t ≡ false
any-slug p no_match [] h = refl
any-slug p no_match (c ∷ t) (h, hs) = ground (arith, no_match c h, any-slug p no_match t hs)

last_is-slug :
    (d : ℕ) → is_slug_char d ≡ false → (t : Text) → All IsSlug t → last_is d (last? t) ≡ false
last_is-slug d h [] hs = refl
last_is-slug d h (c ∷ []) (k, _) = ground arith
last_is-slug d h (c ∷ e ∷ t) (_, hs) = last_is-slug d h (e ∷ t) hs

len-slug : (t : Text) → All IsSlug t → len t ≡ length t
unfolding len
len-slug [] h = refl
len-slug (c ∷ t) (h, hs) = ground (arith, len-slug t hs)

not_dots :
    (c : ℕ) (t : Text)
    → IsSlug c
    → (text_eq (c ∷ t) (codes ".") ≡ false) × (text_eq (c ∷ t) (codes "..") ≡ false)
unfolding text_eq
not_dots c t h = (ground arith, ground arith)

-- A slug that is short, not empty and no device name is a safe component.
slug-safe_segment :
    (c : ℕ) (t : Text)
    → All IsSlug (c ∷ t)
    → length (c ∷ t) ≤ 64
    → is_reserved_device (c ∷ t) ≡ false
    → safe_segment (c ∷ t) ≡ true
unfolding safe_segment
slug-safe_segment c t h short plain =
    let slash = any-slug (λ d. d == b'/') (λ d k. ground arith) (c ∷ t) h in
    let back = any-slug (λ d. d == b'\\') (λ d k. ground arith) (c ∷ t) h in
    let colon = any-slug (λ d. d == b':') (λ d k. ground arith) (c ∷ t) h in
    let control = any-slug is_control (λ d k. ground arith) (c ∷ t) h in
    let dot = last_is-slug b'.' refl (c ∷ t) h in
    let space = last_is-slug b' ' refl (c ∷ t) h in
    let (one, two) = not_dots c t h.0 in
    let bytes : len (c ∷ t) ≤ 128 = omega (arith, len-slug (c ∷ t) h) in
    rw (one, two, slash, back, colon, control, dot, space, plain) (ground arith)

trim_end_matches-underscore :
    (s : Text) → (r : Text) × (trim_end_matches is_dot_or_space (b'_' ∷ s) ≡ b'_' ∷ r)
unfolding trim_end_matches
trim_end_matches-underscore s = go (trim_end_matches is_dot_or_space s) refl
  where
    go :
        (u : Text)
        → trim_end_matches is_dot_or_space s ≡ u
        → (r : Text) × (trim_end_matches is_dot_or_space (b'_' ∷ s) ≡ b'_' ∷ r)
    go [] e = ([], rw e)
    go (d ∷ u) e = (d ∷ u, rw e)

is_device_name-underscore : (r : Text) → is_device_name (b'_' ∷ r) ≡ false
unfolding is_device_name
is_device_name-underscore r = ground arith

-- A leading underscore makes any text an ordinary file name.
is_reserved_device-underscore : (s : Text) → is_reserved_device (b'_' ∷ s) ≡ false
unfolding is_reserved_device
is_reserved_device-underscore s =
    let (r, e) = trim_end_matches-underscore (before_dot s) in
    rw e (is_device_name-underscore (map to_ascii_upper r))

All-IsSlug-out : (s : Text) → All IsSlug (take 64 (map fold_char s))
All-IsSlug-out s = All-take IsSlug 64 (map fold_char s) (map-fold_char-IsSlug s)

guarded-safe_segment :
    (out : Text)
    → All IsSlug out
    → length out ≤ 64
    → is_empty out ≡ false
    → safe_segment (guard_device out) ≡ true
guarded-safe_segment [] h short e = cc
guarded-safe_segment (c ∷ t) h short e = elim (Bool-cases (is_reserved_device (c ∷ t))) [
  | inl device ↦ rw device (
      slug-safe_segment b'_' (take 63 (c ∷ t)) (refl, All-take IsSlug 63 (c ∷ t) h)
        (omega (arith, length-take 63 (c ∷ t))) (is_reserved_device-underscore (take 63 (c ∷ t))))
  | inr plain ↦ rw plain (slug-safe_segment c t h short plain)
]

-- Whatever the text, the slug is a safe path component, if the fallback is one.
pub slugify-safe_segment :
    (s fallback : Text) → safe_segment fallback ≡ true → safe_segment (slugify s fallback) ≡ true
unfolding slugify
slugify-safe_segment s fallback h =
    let out = take 64 (map fold_char s) in
    elim (Bool-cases (is_empty out)) [
      | inl e ↦ rw e h
      | inr e ↦ rw e (
          guarded-safe_segment out (All-IsSlug-out s)
            (omega (arith, length-take 64 (map fold_char s))) e)
    ]
