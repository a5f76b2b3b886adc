-- ===== src/Base/Bytes.antt =====
-- Byte strings as lists of numbers below 256: slices, padding, the integers that a header holds.
use Prim.Native.Nat.{ℕ, zero, suc, ◌+◌, ◌-◌, ◌*◌, ◌/◌, ◌%◌, ◌^◌, ◌<◌, bit_xor}
use mathlib.Core.Path.{◌≡◌, refl, ap}
use mathlib.Core.Bool.{Bool, true}
use mathlib.Core.List.{List, [], ◌∷◌, ◌++◌}
use native.Mathlib.Omega.{arith}
use weflow_server.Base.Tests.{if◌then◌else◌, ◌==◌, ==_iff}
use weflow_server.Base.Lists.{length, take, drop, All}

abbrev pub Bytes : Type 0
Bytes = List ℕ

abbrev pub IsByte : ℕ → Type 0
IsByte b = b < 256

-- `vec![b; n]`
abbrev pub replicate : ℕ → ℕ → Bytes
replicate zero b = []
replicate (suc n) b = b ∷ replicate n b

-- `&s[from..to]`
abbrev pub slice : ℕ → ℕ → Bytes → Bytes
slice from to s = take (to - from) (drop from s)

-- A buffer of `n` zero bytes that starts with `s`.
abbrev pub padded : ℕ → Bytes → Bytes
padded n s = s ++ replicate (n - length s) 0

-- `u32::to_le_bytes` and `u32::from_be_bytes`
abbrev pub le32 : ℕ → Bytes
le32 n = n % 256 ∷ n / 2 ^ 8 % 256 ∷ n / 2 ^ 16 % 256 ∷ n / 2 ^ 24 % 256 ∷ []

abbrev pub be32 : ℕ → Bytes
be32 n = n / 2 ^ 24 % 256 ∷ n / 2 ^ 16 % 256 ∷ n / 2 ^ 8 % 256 ∷ n % 256 ∷ []

abbrev from_le : Bytes → ℕ
from_le [] = 0
from_le (b ∷ s) = b + 256 * from_le s

abbrev big_end : ℕ → Bytes → ℕ
big_end n [] = n
big_end n (b ∷ s) = big_end (256 * n + b) s

unfoldable pub from_le_bytes : Bytes → ℕ
from_le_bytes s = from_le s

unfoldable pub from_be_bytes : Bytes → ℕ
from_be_bytes s = big_end 0 s

pub from_le_bytes-le32 : (n : ℕ) → n < 2 ^ 32 → from_le_bytes (le32 n) ≡ n
unfolding from_le_bytes
from_le_bytes-le32 n h = omega arith

pub from_be_bytes-be32 : (n : ℕ) → n < 2 ^ 32 → from_be_bytes (be32 n) ≡ n
unfolding from_be_bytes
from_be_bytes-be32 n h = omega arith

-- `s.iter().map(|b| b ^ k)`
unfoldable pub xor_all : ℕ → Bytes → Bytes
xor_all k [] = []
xor_all k (b ∷ s) = bit_xor b k ∷ xor_all k s

-- How many numbers below the bound fail a test.
failures : (ℕ → Bool) → ℕ → ℕ
failures test zero = 0
failures test (suc k) = failures test k + (if test k then 0 else 1)

passes : (test : ℕ → Bool) (k b : ℕ) → b < k → failures test k ≡ 0 → test b ≡ true
unfolding failures
passes test zero b b<0 none_fail = absurd (omega arith)
passes test (suc k) b b<k none_fail = ground (arith, passes test k b)

abbrev xor_undone : ℕ → Bool
xor_undone k = failures (λ b. bit_xor (bit_xor b k) k == b) 256 == 0

xor_table : failures xor_undone 256 ≡ 0
unfolding failures
xor_table = refl

bit_xor-bit_xor : (b k : ℕ) → b < 256 → k < 256 → bit_xor (bit_xor b k) k ≡ b
bit_xor-bit_xor b k hb hk =
    (==_iff _ b).0 (passes _ 256 b hb ((==_iff _ 0).0 (passes xor_undone 256 k hk xor_table)))

-- Applying the key twice gives the bytes back.
pub xor_all-xor_all : (k : ℕ) (s : Bytes) → k < 256 → All IsByte s → xor_all k (xor_all k s) ≡ s
unfolding xor_all
xor_all-xor_all k [] hk h = refl
xor_all-xor_all k (b ∷ s) hk h = rw (bit_xor-bit_xor b k h.0 hk, xor_all-xor_all k s hk h.1) refl

pub length-xor_all : (k : ℕ) (s : Bytes) → length (xor_all k s) ≡ length s
unfolding xor_all
length-xor_all k [] = refl
length-xor_all k (b ∷ s) = ap suc (length-xor_all k s)

pub length-replicate : (n b : ℕ) → length (replicate n b) ≡ n
length-replicate zero b = refl
length-replicate (suc n) b = ap suc (length-replicate n b)
