-- ===== src/Server/Params/Merge.antt =====
-- The body of a request cannot bring a credential into the parameters, and wins otherwise.
use weflow_server.Base.{
  ℕ, ◌≤◌, ◌≡◌, refl, sym, ap, ◌∙◌, inl, inr, true, false, List, [], ◌∷◌, Option, some, arith,
  if◌then◌else◌, Bool-cases, unwrap_or, ◌>>=◌,
}
use weflow_server.Base.Text.{Text, text_eq, text_eq_iff}
use weflow_server.Base.Decimal.{parse_u64}
use weflow_server.Base.Map.{lookup, insert, lookup-insert}
use weflow_server.Server.Params.{
  Params, JsonValue, value_text, is_credential_key, merge_fields, merge_params, parse_limit,
}

-- The last value that the body gives a key, or else that of the query.
abbrev pub merged : Text → List (Text × JsonValue) → Option Text → Option Text
merged key [] found = found
merged key ((k, v) ∷ fields) found =
    merged key fields (if text_eq k key then some (value_text v) else found)

merge_fields-credential :
    (fields : List (Text × JsonValue)) (out : Params) (key : Text)
    → is_credential_key key ≡ true
    → lookup key (merge_fields fields out) ≡ lookup key out
unfolding merge_fields
merge_fields-credential [] out key h = refl
merge_fields-credential ((k, v) ∷ fields) out key h = elim (Bool-cases (is_credential_key k)) [
  | inl secret ↦ rw secret (merge_fields-credential fields out key h)
  | inr plain ↦
      let other : text_eq k key ≡ false = elim (Bool-cases (text_eq k key)) [
        | inl same ↦
            let e = rw ((text_eq_iff k key).0 same) at plain in absurd (let g = sym h ∙ e in cc)
        | inr o ↦ o
      ] in
      rw plain (
        merge_fields-credential fields (insert k (value_text v) out) key h
        ∙ rw (lookup-insert k key (value_text v) out, other) refl)
]

merge_fields-merged :
    (fields : List (Text × JsonValue)) (out : Params) (key : Text)
    → is_credential_key key ≡ false
    → lookup key (merge_fields fields out) ≡ merged key fields (lookup key out)
unfolding merge_fields
merge_fields-merged [] out key h = refl
merge_fields-merged ((k, v) ∷ fields) out key h = elim (Bool-cases (is_credential_key k)) [
  | inl secret ↦
      let other : text_eq k key ≡ false = elim (Bool-cases (text_eq k key)) [
        | inl same ↦
            let e = rw ((text_eq_iff k key).0 same) at secret in absurd (let g = sym h ∙ e in cc)
        | inr o ↦ o
      ] in
      rw (secret, other) (merge_fields-merged fields out key h)
  | inr plain ↦ rw plain (
      merge_fields-merged fields (insert k (value_text v) out) key h
      ∙ ap (merged key fields) (lookup-insert k key (value_text v) out))
]

-- In the merged parameters a credential key has the value of the query, whatever the body holds;
-- any other key has the last value that the body gives it, or else that of the query.
pub merge_params-lookup :
    (query : Params) (fields : List (Text × JsonValue)) (key : Text)
    → lookup key (merge_params query (some fields))
      ≡ (if is_credential_key key then lookup key query else merged key fields (lookup key query))
unfolding merge_params
merge_params-lookup query fields key = elim (Bool-cases (is_credential_key key)) [
  | inl secret ↦ rw secret (merge_fields-credential fields query key secret)
  | inr plain ↦ rw plain (merge_fields-merged fields query key plain)
]

-- A limit stays between one and its maximum.
pub parse_limit-bounds :
    (params : Params) (key : Text) (default max : ℕ)
    → 1 ≤ max
    → (1 ≤ parse_limit params key default max) × (parse_limit params key default max ≤ max)
unfolding parse_limit
parse_limit-bounds params key default max h =
    let n = unwrap_or (lookup key params >>= parse_u64) default in ground arith
