-- ===== src/Server/Params.antt =====
-- The request parameters of src/server/mod.rs.
pub mod Merge
use weflow_server.Base.{
  ℕ, Bool, ◌||◌, not, List, [], ◌∷◌, Option, none, some, if◌then◌else◌, ltb, unwrap_or, option_map,
  ◌>>=◌, map, any,
}
use weflow_server.Base.Text.{Text, codes, text_eq, to_ascii_lower}
use weflow_server.Base.Decimal.{parse_unsigned, parse_u64}
use weflow_server.Base.Map.{Map, lookup, insert}

abbrev pub Params : Type 0
Params = Map Text

unfoldable pub is_credential_key : Text → Bool
is_credential_key k = text_eq k (codes "access_token") || text_eq k (codes "token")

-- A JSON value of the body: a string, or the text that another value prints as.
pub data JsonValue : Type 0 where
  string : Text → JsonValue
  other : Text → JsonValue

abbrev pub value_text : JsonValue → Text
value_text (string s) = s
value_text (other s) = s

-- The fields of a JSON object, in its order.
unfoldable pub merge_fields : List (Text × JsonValue) → Params → Params
merge_fields [] out = out
merge_fields ((k, v) ∷ fields) out =
    if is_credential_key k
    then merge_fields fields out
    else merge_fields fields (insert k (value_text v) out)

-- A body that is missing or no object adds nothing: `none`.
unfoldable pub merge_params : Params → Option (List (Text × JsonValue)) → Params
merge_params query none = query
merge_params query (some fields) = merge_fields fields query

abbrev is_yes : Text → Bool
is_yes v =
    let w : Text = map to_ascii_lower v in
    text_eq w (codes "1")
    || (text_eq w (codes "true") || (text_eq w (codes "yes") || text_eq w (codes "on")))

unfoldable pub flex_bool : Params → Text → Bool
flex_bool params key = unwrap_or (option_map is_yes (lookup key params)) Bool.false

abbrev pub clamp : ℕ → ℕ → ℕ → ℕ
clamp low high n = if ltb n low then low else if ltb high n then high else n

-- `usize` has 64 bits.
unfoldable pub parse_limit : Params → Text → ℕ → ℕ → ℕ
parse_limit params key default max =
    clamp 1 max (unwrap_or (lookup key params >>= parse_u64) default)

unfoldable pub parse_offset : Params → Text → ℕ
parse_offset params key = unwrap_or (lookup key params >>= parse_u64) 0
