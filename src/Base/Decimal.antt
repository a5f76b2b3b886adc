-- ===== src/Base/Decimal.antt =====
-- Decimal numbers as Rust prints and parses them (`to_string`, `str::parse`).
use mathlib.Core.Path.{◌≡◌, ◌∙◌}
use mathlib.Core.Logic.{inl, inr}
use mathlib.Core.Bool.{true}
use mathlib.Core.List.{[], ◌∷◌, ◌++◌}
use mathlib.Core.Option.{Option, none, some}
use Prim.Native.Nat.{ℕ, zero, suc, ◌+◌, ◌-◌, ◌*◌, ◌/◌, ◌%◌, ◌^◌, ◌<◌}
use native.Mathlib.Omega.{arith}
use weflow_server.Base.Tests.{ltb, ◌==◌, if◌then◌else◌, ◌>>=◌, Bool-cases}
use weflow_server.Base.Int.{ℤ, pos, negsuc}
use weflow_server.Base.Text.{Text, is_ascii_digit}

-- The digits of `n` in front of `acc`. The fuel exceeds the number, so the last digit is reached.
digits_from : ℕ → ℕ → Text → Text
digits_from zero n acc = acc
digits_from (suc f) n acc =
    let d = b'0' + n % 10 in
    let more = digits_from f (n / 10) (d ∷ acc) in if ltb n 10 then d ∷ acc else more

unfoldable pub print_ℕ : ℕ → Text
unfolding digits_from
print_ℕ n = digits_from (suc n) n []

unfoldable pub print_ℤ : ℤ → Text
print_ℤ (pos n) = print_ℕ n
print_ℤ (negsuc n) = b'-' ∷ print_ℕ (suc n)

-- The value of a row of digits behind a value already read.
read_digits : ℕ → Text → Option ℕ
read_digits acc [] = some acc
read_digits acc (c ∷ s) = if is_ascii_digit c then read_digits (acc * 10 + (c - b'0')) s else none

unfoldable pub parse_digits : Text → Option ℕ
unfolding read_digits
parse_digits [] = none
parse_digits (c ∷ s) = read_digits 0 (c ∷ s)

abbrev pub parse_unsigned : Text → Option ℕ
parse_unsigned [] = none
parse_unsigned (c ∷ s) = if c == b'+' then parse_digits s else parse_digits (c ∷ s)

-- `parse::<usize>()` and `parse::<u64>()`: an overflow is an error.
unfoldable pub parse_u64 : Text → Option ℕ
unfolding parse_digits
parse_u64 s = do n ← parse_unsigned s; if ltb n (2 ^ 64) then some n else none

-- `parse::<u8>()`
unfoldable pub parse_u8 : Text → Option ℕ
unfolding parse_digits
parse_u8 s = do n ← parse_unsigned s; if ltb n 256 then some n else none

abbrev negative : ℕ → Option ℤ
negative zero = some (pos 0)
negative (suc n) = if ltb n (2 ^ 63) then some (negsuc n) else none

abbrev signed : ℕ → Option ℤ
signed n = if ltb n (2 ^ 63) then some (pos n) else none

-- `parse::<i64>()`
unfoldable pub parse_i64 : Text → Option ℤ
unfolding parse_digits
parse_i64 [] = none
parse_i64 (c ∷ s) =
    if c == b'-' then parse_digits s >>= negative else parse_unsigned (c ∷ s) >>= signed

read_digits-append :
    (acc : ℕ) (s t : Text) (v : ℕ)
    → read_digits acc s ≡ some v
    → read_digits acc (s ++ t) ≡ read_digits v t
unfolding read_digits
read_digits-append acc [] t v h = ground arith
read_digits-append acc (c ∷ s) t v h =
    ground (arith, read_digits-append (acc * 10 + (c - b'0')) s t v)

-- Reading the digits of `n`, and then `acc`, goes on from the value `n`.
read_digits-digits_from :
    (f n : ℕ) (acc : Text) → n < f → read_digits 0 (digits_from f n acc) ≡ read_digits n acc
unfolding read_digits digits_from
read_digits-digits_from zero n acc h = absurd (omega arith)
read_digits-digits_from (suc f) n acc h = elim (Bool-cases (ltb n 10)) [
  | inl small ↦ rw small (ground arith)
  | inr big ↦
      rw big
        (read_digits-digits_from f (n / 10) ((b'0' + n % 10) ∷ acc) (ground arith) ∙ ground arith)
]

-- A printed number is a row of digits that begins with a digit.
digits_from-cons :
    (f n : ℕ) (acc : Text)
    → n < f
    → (c : ℕ) × (s : Text) × (digits_from f n acc ≡ c ∷ s) × (is_ascii_digit c ≡ true)
unfolding digits_from
digits_from-cons zero n acc h = absurd (omega arith)
digits_from-cons (suc f) n acc h = elim (Bool-cases (ltb n 10)) [
  | inl small ↦ (b'0' + n % 10, acc, rw small, ground arith)
  | inr big ↦ rw big (digits_from-cons f (n / 10) ((b'0' + n % 10) ∷ acc) (ground arith))
]

pub print_ℕ-cons : (n : ℕ) → (c : ℕ) × (s : Text) × (print_ℕ n ≡ c ∷ s) × (is_ascii_digit c ≡ true)
unfolding print_ℕ
print_ℕ-cons n = digits_from-cons (suc n) n [] (omega arith)

read_digits-print_ℕ : (n : ℕ) → read_digits 0 (print_ℕ n) ≡ some n
unfolding print_ℕ read_digits
read_digits-print_ℕ n = read_digits-digits_from (suc n) n [] (omega arith)

pub parse_digits-print_ℕ : (n : ℕ) → parse_digits (print_ℕ n) ≡ some n
unfolding parse_digits
parse_digits-print_ℕ n = let (c, s, e, d) = print_ℕ-cons n in rw e (rw e at (read_digits-print_ℕ n))

-- A text that begins with a digit has no sign.
parse_unsigned-digit :
    (c : ℕ) (s : Text) → is_ascii_digit c ≡ true → parse_unsigned (c ∷ s) ≡ parse_digits (c ∷ s)
parse_unsigned-digit c s d = ground arith

parse_i64-digit :
    (c : ℕ) (s : Text)
    → is_ascii_digit c ≡ true
    → parse_i64 (c ∷ s) ≡ (parse_digits (c ∷ s) >>= signed)
parse_i64-digit c s d = unfold parse_i64 in ground arith

parse_unsigned-print_ℕ : (n : ℕ) → parse_unsigned (print_ℕ n) ≡ some n
parse_unsigned-print_ℕ n =
    let (c, s, e, d) = print_ℕ-cons n in
    rw e (parse_unsigned-digit c s d ∙ (rw e at (parse_digits-print_ℕ n)))

pub parse_u64-print_ℕ : (n : ℕ) → n < 2 ^ 64 → parse_u64 (print_ℕ n) ≡ some n
unfolding parse_u64
parse_u64-print_ℕ n h = rw parse_unsigned-print_ℕ (ground arith)

pub parse_u8-print_ℕ : (n : ℕ) → n < 256 → parse_u8 (print_ℕ n) ≡ some n
unfolding parse_u8
parse_u8-print_ℕ n h = rw parse_unsigned-print_ℕ (ground arith)

-- What `to_string` prints of an `i64`, `parse` reads back.
pub parse_i64-print_ℤ-pos : (n : ℕ) → n < 2 ^ 63 → parse_i64 (print_ℤ (pos n)) ≡ some (pos n)
unfolding print_ℤ
parse_i64-print_ℤ-pos n h =
    let (c, s, e, d) = print_ℕ-cons n in
    rw e (parse_i64-digit c s d ∙ (rw (← e) (rw parse_digits-print_ℕ (ground arith))))

pub parse_i64-print_ℤ-negsuc :
    (n : ℕ) → n < 2 ^ 63 → parse_i64 (print_ℤ (negsuc n)) ≡ some (negsuc n)
unfolding parse_i64 print_ℤ
parse_i64-print_ℤ-negsuc n h = rw parse_digits-print_ℕ (ground arith)

-- The range of `i64`.
abbrev pub InI64 : ℤ → Type 0
InI64 (pos n) = n < 2 ^ 63
InI64 (negsuc n) = n < 2 ^ 63

pub parse_i64-print_ℤ : (z : ℤ) → InI64 z → parse_i64 (print_ℤ z) ≡ some z
parse_i64-print_ℤ (pos n) h = parse_i64-print_ℤ-pos n h
parse_i64-print_ℤ (negsuc n) h = parse_i64-print_ℤ-negsuc n h

-- Different numbers are printed differently.
pub print_ℤ-injective : (a b : ℤ) → InI64 a → InI64 b → print_ℤ a ≡ print_ℤ b → a ≡ b
print_ℤ-injective a b h k e = cc (parse_i64-print_ℤ a h, parse_i64-print_ℤ b k)

-- The line that a test names to see through all of these.
unfoldable pub decimal_ops : Unit {0}
unfolding digits_from read_digits print_ℕ print_ℤ parse_digits parse_u64 parse_i64
decimal_ops = tt
