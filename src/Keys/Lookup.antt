-- ===== src/Keys/Lookup.antt =====
-- What a registered table of keys resolves to.
use weflow_server.Base.{
  ◌≡◌, refl, sym, ap, ◌∙◌, true, [], ◌∷◌, Option, none, some, inl, inr, ◌⊎◌, if◌then◌else◌, or_else,
  ◌>>=◌, All, Bool-cases, Option-cases, is_some,
}
use weflow_server.Base.Text.{Text, text_eq, text_eq_iff}
use weflow_server.Base.Map.{Map, lookup, insert, lookup-insert}
use weflow_server.Keys.{
  Codecs, DbKey, KeyMap, keyed, key_for, backslashed, KeyError, Parsed, ok, err, parse_db_key,
  parse_keys, from_parts,
}

-- A table has each of its names once.
abbrev pub IsTable : Map Text → Type 0
IsTable [] = Unit
IsTable ((rel, hex) ∷ texts) = (lookup rel texts ≡ none) × IsTable texts

-- The key that a text stands for, and the one that is registered under a name.
abbrev pub key_of : Codecs → Text → Option DbKey
key_of c hex = elim (parse_db_key c hex) [ ok key ↦ some key | err e ↦ none ]

abbrev pub registered : Codecs → Map Text → Text → Option DbKey
registered c texts rel = lookup rel texts >>= key_of c

abbrev pub AreKeys : Codecs → Map Text → Type 0
AreKeys c texts = All (λ e. is_some (key_of c e.1) ≡ true) texts

Parsed-cases {ℓ} :
    {A : Type ℓ} (p : Parsed A) → ((a : A) × (p ≡ ok a)) ⊎ ((e : KeyError) × (p ≡ err e))
Parsed-cases (ok a) = inl (a, refl)
Parsed-cases (err e) = inr (e, refl)

module _ (c : Codecs) where
  key_of-ok : (hex : Text) (key : DbKey) → parse_db_key c hex ≡ ok key → key_of c hex ≡ some key
  key_of-ok hex key e = rw (e, key_of) refl

  parse_keys-AreKeys :
      (m m' : Map DbKey) (texts : Map Text) → parse_keys c m texts ≡ ok m' → AreKeys c texts
  unfolding parse_keys
  parse_keys-AreKeys m m' [] h = tt
  parse_keys-AreKeys m m' ((rel, hex) ∷ texts) h = elim (Parsed-cases (parse_db_key c hex)) [
    | inl (key, e) ↦ (
      rw (key_of-ok hex key e) refl,
      parse_keys-AreKeys (insert rel key m) m' texts (rw (e, parse_keys) at h),
    )
    | inr (why, e) ↦ absurd (let g = rw (e, parse_keys) at h in cc)
  ]

  -- The table read so far answers for a name that is not among the rest.
  parse_keys-lookup :
      (m m' : Map DbKey) (texts : Map Text) (rel : Text)
      → IsTable texts
      → parse_keys c m texts ≡ ok m'
      → lookup rel m'
        ≡ (if is_some (lookup rel texts) then registered c texts rel else lookup rel m)
  unfolding parse_keys lookup
  parse_keys-lookup m m' [] rel u h = ap (lookup rel) (let g = h in cc)
  parse_keys-lookup m m' ((name, hex) ∷ texts) rel u h = elim (Parsed-cases (parse_db_key c hex)) [
    | inl (key, e) ↦
        let ih = parse_keys-lookup (insert name key m) m' texts rel u.1 (rw (e, parse_keys) at h) in
        elim (Bool-cases (text_eq name rel)) [
          | inl same ↦
              let at = (text_eq_iff name rel).0 same in
              let absent : lookup rel texts ≡ none = rw at at u.0 in
              let k : lookup rel m' ≡ some key =
                (rw (absent, lookup-insert name rel key m, same) at ih) in
              rw same (k ∙ sym (key_of-ok hex key e))
          | inr other ↦ rw other (rw (lookup-insert name rel key m, other) at ih)
        ]
    | inr (why, e) ↦ absurd (let g = rw (e, parse_keys) at h in cc)
  ]

  keyed-cases :
      (texts : Map Text) (km : KeyMap)
      → from_parts c none (some texts) ≡ ok km
      → (m : Map DbKey) × (parse_keys c [] texts ≡ ok m) × (km ≡ keyed m)
  unfolding from_parts
  keyed-cases texts km h = elim (Parsed-cases (parse_keys c [] texts)) [
    | inl (m, e) ↦ (m, e, let g = rw e at h in cc)
    | inr (why, e) ↦ absurd (let g = rw e at h in cc)
  ]

  registered-all :
      (m : Map DbKey) (texts : Map Text) (rel : Text)
      → IsTable texts
      → parse_keys c [] texts ≡ ok m
      → lookup rel m ≡ registered c texts rel
  registered-all m texts rel u h = elim (Option-cases (lookup rel texts)) [
    | inl absent ↦ rw (parse_keys-lookup [] m texts rel u h, absent) (unfold lookup in refl)
    | inr (hex, present) ↦ rw (parse_keys-lookup [] m texts rel u h, present) refl
  ]

  -- A table of keys, each name once, that is accepted: all its texts are keys, and a file has the
  -- key registered under its path or, if there is none, under its path with backslashes.
  pub key_for-from_parts :
      (texts : Map Text) (km : KeyMap) (rel : Text)
      → IsTable texts
      → from_parts c none (some texts) ≡ ok km
      → AreKeys c texts
        × (key_for km rel ≡ or_else (registered c texts rel) (registered c texts (backslashed rel)))
  unfolding key_for
  key_for-from_parts texts km rel u h =
      let (m, e, k) = keyed-cases texts km h in
      (
        parse_keys-AreKeys [] m texts e,
        rw (k, registered-all m texts rel u e, registered-all m texts (backslashed rel) u e) refl,
      )
