-- ===== src/Server/Auth.antt =====
-- src/server/auth.rs: the comparison of tokens, and the guard of a request.
pub mod Guard
use Prim.Native.Nat.{bit_or, bit_xor}
use weflow_server.Base.{
  ℕ, Bool, true, false, ◌&&◌, ◌||◌, List, [], ◌∷◌, Option, none, some, if◌then◌else◌, ◌==◌, length,
  ◌>>=◌, unwrap_or, option_map,
}
use weflow_server.Base.Text.{Text, codes, strip_prefix}
use weflow_server.Base.Map.{lookup}
use weflow_server.Server.Params.{Params}

-- The differences of the bytes, gathered over the shorter length.
unfoldable pub diff_bytes : ℕ → List ℕ → List ℕ → ℕ
diff_bytes diff [] bs = diff
diff_bytes diff (a ∷ as') [] = diff
diff_bytes diff (a ∷ as') (b ∷ bs) = diff_bytes (bit_or diff (bit_xor a b)) as' bs

unfoldable pub constant_time_eq : List ℕ → List ℕ → Bool
constant_time_eq a b =
    let diff = diff_bytes 0 a b in if length a == length b then diff == 0 else false

-- The bytes of a text are the caller's encoding of it.
abbrev pub Encode : Type 0
Encode = Text → List ℕ

abbrev pub bearer : Text → Option Text
bearer v = strip_prefix (codes "Bearer ") v

-- A credential that is there and is the token.
abbrev pub credential_matches : Encode → Text → Option Text → Bool
credential_matches bytes token none = false
credential_matches bytes token (some t) = constant_time_eq (bytes t) (bytes token)

-- The header is `none` where it is missing or no visible text.
unfoldable pub authorized : Encode → Text → Params → Option Text → Bool
authorized bytes token params header =
    credential_matches bytes token (header >>= bearer)
    || credential_matches bytes token (lookup (codes "access_token") params)
