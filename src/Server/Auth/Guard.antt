-- ===== src/Server/Auth/Guard.antt =====
-- The comparison of tokens is equality, and a request passes exactly with the server's token.
use Prim.Native.Nat.{bit_or, bit_xor}
use mathlib.Core.Option.{some-injective}
use weflow_server.Base.{
  ℕ, zero, suc, ◌<◌, ◌≡◌, refl, sym, ap, ◌∙◌, inl, inr, ◌⊎◌, ◌↔◌, Bool, true, false, not, ◌&&◌,
  ◌||◌, List, [], ◌∷◌, Option, none, some, arith, ◌==◌, length, All, ==_iff, Bool-cases, ltb,
  ltb→lt, and-eq-true, ◌>>=◌,
}
use weflow_server.Base.Text.{Text, codes}
use weflow_server.Base.Map.{lookup}
use weflow_server.Server.Params.{Params}
use weflow_server.Server.Auth.{
  diff_bytes, constant_time_eq, Encode, bearer, credential_matches, authorized,
}

-- A test of every number under a bound, tried from below.
holds_under : (ℕ → Bool) → ℕ → Bool
holds_under test zero = true
holds_under test (suc bound) = holds_under test bound && test bound

holds_under-at :
    (test : ℕ → Bool) (bound c : ℕ) → c < bound → holds_under test bound ≡ true → test c ≡ true
unfolding holds_under
holds_under-at test zero c lt h = absurd (omega arith)
holds_under-at test (suc bound) c lt h =
    let (below, here) = and-eq-true (holds_under test bound) (test bound) h in
    elim (Bool-cases (c == bound)) [
      | inl same ↦ rw ((==_iff c bound).0 same) here
      | inr other ↦ holds_under-at test bound c (ground arith) below
    ]

abbrev same_bool : Bool → Bool → Bool
same_bool true b = b
same_bool false b = not b

xor_table :
    holds_under
      (λ x. holds_under (λ y. same_bool (bit_xor x y == 0) (x == y) && ltb (bit_xor x y) 256) 256)
      256
    ≡ true
unfolding holds_under
xor_table = refl

or_table :
    holds_under
      (λ x.
        holds_under
          (λ y. same_bool (bit_or x y == 0) (x == 0 && y == 0) && ltb (bit_or x y) 256)
          256)
      256
    ≡ true
unfolding holds_under
or_table = refl

same_bool-eq : (a b : Bool) → same_bool a b ≡ true → a ≡ b
same_bool-eq a b h = ground arith

-- Both digits tables, read at two bytes.
xor_byte : (x y : ℕ) → x < 256 → y < 256 → ((bit_xor x y == 0) ≡ (x == y)) × (bit_xor x y < 256)
xor_byte x y hx hy =
    let row = holds_under-at _ 256 y hy (holds_under-at _ 256 x hx xor_table) in
    let both = and-eq-true _ _ row in (same_bool-eq _ _ both.0, ltb→lt _ _ both.1)

or_byte :
    (x y : ℕ) → x < 256 → y < 256 → ((bit_or x y == 0) ≡ (x == 0 && y == 0)) × (bit_or x y < 256)
or_byte x y hx hy =
    let row = holds_under-at _ 256 y hy (holds_under-at _ 256 x hx or_table) in
    let both = and-eq-true _ _ row in (same_bool-eq _ _ both.0, ltb→lt _ _ both.1)

abbrev pub Bytes : List ℕ → Type 0
Bytes = All (λ x. x < 256)

-- The test that the comparison stands for.
abbrev bytes_eq : List ℕ → List ℕ → Bool
bytes_eq [] [] = true
bytes_eq [] (b ∷ bs) = false
bytes_eq (a ∷ as') [] = false
bytes_eq (a ∷ as') (b ∷ bs) = a == b && bytes_eq as' bs

bytes_eq_iff : (xs ys : List ℕ) → (bytes_eq xs ys ≡ true) ↔ (xs ≡ ys)
bytes_eq_iff [] [] = (λ h. refl, λ h. refl)
bytes_eq_iff [] (y ∷ ys) = (λ h. absurd cc, λ h. absurd cc)
bytes_eq_iff (x ∷ xs) [] = (λ h. absurd cc, λ h. absurd cc)
bytes_eq_iff (x ∷ xs) (y ∷ ys) = (
  λ h.
      let both = and-eq-true _ _ h in
      let e = (==_iff x y).0 both.0 in let es = (bytes_eq_iff xs ys).0 both.1 in cc,
  λ h.
      let e : x ≡ y = cc in
      let es : xs ≡ ys = cc in rw ((==_iff x y).1 e, (bytes_eq_iff xs ys).1 es) refl,
)

and_assoc : (a b c : Bool) → (a && b && c) ≡ (a && (b && c))
and_assoc a b c = ground arith

diff_bytes-zero :
    (diff : ℕ) (xs ys : List ℕ)
    → diff < 256
    → Bytes xs
    → Bytes ys
    → (length xs == length ys) ≡ true
    → (diff_bytes diff xs ys == 0) ≡ (diff == 0 && bytes_eq xs ys)
unfolding diff_bytes
diff_bytes-zero diff [] [] d hx hy same = ground arith
diff_bytes-zero diff [] (y ∷ ys) d hx hy same = absurd (ground arith)
diff_bytes-zero diff (x ∷ xs) [] d hx hy same = absurd (ground arith)
diff_bytes-zero diff (x ∷ xs) (y ∷ ys) d (px, hx) (py, hy) same =
    let xor = xor_byte x y px py in
    let or = or_byte diff (bit_xor x y) d xor.1 in
    diff_bytes-zero (bit_or diff (bit_xor x y)) xs ys or.1 hx hy (ground arith)
    ∙ rw (or.0, xor.0) (and_assoc (diff == 0) (x == y) (bytes_eq xs ys))

bytes_eq-length : (xs ys : List ℕ) → (length xs == length ys) ≡ false → bytes_eq xs ys ≡ false
bytes_eq-length [] [] h = absurd (ground arith)
bytes_eq-length [] (y ∷ ys) h = refl
bytes_eq-length (x ∷ xs) [] h = refl
bytes_eq-length (x ∷ xs) (y ∷ ys) h =
    let rest = bytes_eq-length xs ys (ground arith) in ground arith

constant_time_eq-bytes_eq :
    (xs ys : List ℕ) → Bytes xs → Bytes ys → constant_time_eq xs ys ≡ bytes_eq xs ys
unfolding constant_time_eq
constant_time_eq-bytes_eq xs ys hx hy = elim (Bool-cases (length xs == length ys)) [
  | inl same ↦ rw same (diff_bytes-zero 0 xs ys (omega arith) hx hy same)
  | inr other ↦ rw other (sym (bytes_eq-length xs ys other))
]

-- Of two strings of bytes, the comparison without an early exit says whether they are the same.
pub constant_time_eq_iff :
    (xs ys : List ℕ) → Bytes xs → Bytes ys → (constant_time_eq xs ys ≡ true) ↔ (xs ≡ ys)
constant_time_eq_iff xs ys hx hy = rw (constant_time_eq-bytes_eq xs ys hx hy) (bytes_eq_iff xs ys)

-- The test of one credential.
matches_iff :
    (bytes : Encode) (token : Text) (o : Option Text)
    → ((t : Text) → Bytes (bytes t))
    → ((t : Text) → bytes t ≡ bytes token → t ≡ token)
    → (credential_matches bytes token o ≡ true) ↔ (o ≡ some token)
matches_iff bytes token none valid inj = (λ h. absurd cc, λ h. absurd cc)
matches_iff bytes token (some t) valid inj =
    let eq = constant_time_eq_iff (bytes t) (bytes token) (valid t) (valid token) in
    (λ h. ap some (inj t (eq.0 h)), λ h. eq.1 (ap bytes (some-injective t token h)))

or_iff : (a b : Bool) → ((a || b) ≡ true) ↔ ((a ≡ true) ⊎ (b ≡ true))
or_iff a b = ground arith

-- A request passes the guard exactly when its `Authorization` header is `Bearer` and the token, or
-- its `access_token` parameter is the token. The encoding has bytes, and gives no other text the
-- bytes of the token.
pub authorized_iff :
    (bytes : Encode) (token : Text) (params : Params) (header : Option Text)
    → ((t : Text) → Bytes (bytes t))
    → ((t : Text) → bytes t ≡ bytes token → t ≡ token)
    → (authorized bytes token params header ≡ true)
      ↔ (((header >>= bearer) ≡ some token) ⊎ (lookup (codes "access_token") params ≡ some token))
unfolding authorized
authorized_iff bytes token params header valid inj =
    let either =
      or_iff (credential_matches bytes token (header >>= bearer))
        (credential_matches bytes token (lookup (codes "access_token") params)) in
    let h = matches_iff bytes token (header >>= bearer) valid inj in
    let q = matches_iff bytes token (lookup (codes "access_token") params) valid inj in
    (
      λ e. elim (either.0 e) [ inl a ↦ inl (h.0 a) | inr b ↦ inr (q.0 b) ],
      λ e. either.1 (elim e [ inl a ↦ inl (h.1 a) | inr b ↦ inr (q.1 b) ]),
    )
