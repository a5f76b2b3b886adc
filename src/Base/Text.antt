-- ===== src/Base/Text.antt =====
-- Rust's strings as their code points, with the operations of `str` that the source uses.
pub mod Laws
use Prim.Native.Char.{code}
use Prim.Native.Nat.{ℕ, ◌+◌, ◌-◌}
use Prim.Native.String.{String}
use mathlib.Core.Path.{◌≡◌, refl}
use mathlib.Core.Bool.{Bool, true, false, ◌&&◌, ◌||◌}
use mathlib.Core.List.{List, [], ◌∷◌}
use mathlib.Core.Logic.{◌↔◌}
use mathlib.Core.Option.{Option, none, some}
use native.Mathlib.Omega.{arith}
use weflow_server.Base.Tests.{ltb, leb, ◌==◌, if◌then◌else◌, option_map}

-- A `String` or `&str`: its code points.
abbrev pub Text : Type 0
Text = List ℕ

-- A literal of the source.
abbrev pub codes : String → Text
codes String.[] = []
codes (String.◌∷◌ c s) = code c ∷ codes s

-- `s == t`
unfoldable pub text_eq : Text → Text → Bool
text_eq [] [] = true
text_eq [] (d ∷ t) = false
text_eq (c ∷ s) [] = false
text_eq (c ∷ s) (d ∷ t) = c == d && text_eq s t

pub text_eq_iff : (s t : Text) → (text_eq s t ≡ true) ↔ (s ≡ t)
unfolding text_eq
text_eq_iff [] [] = ground arith
text_eq_iff [] (d ∷ t) = ground arith
text_eq_iff (c ∷ s) [] = ground arith
text_eq_iff (c ∷ s) (d ∷ t) = ground (arith, text_eq_iff s t)

pub text_eq_refl : (s : Text) → text_eq s s ≡ true
text_eq_refl s = (text_eq_iff s s).1 refl

abbrev pub is_empty : Text → Bool
is_empty [] = true
is_empty (c ∷ s) = false

-- The rest behind `pre`, if `s` starts with it.
unfoldable pub strip_prefix : Text → Text → Option Text
strip_prefix [] s = some s
strip_prefix (p ∷ pre) [] = none
strip_prefix (p ∷ pre) (c ∷ s) = if p == c then strip_prefix pre s else none

unfoldable pub starts_with : Text → Text → Bool
starts_with [] s = true
starts_with (p ∷ pre) [] = false
starts_with (p ∷ pre) (c ∷ s) = p == c && starts_with pre s

-- The text before the first match of the pattern and the text behind it: `find` with a slice on
-- either side, and `split_once`.
unfoldable pub split_once : Text → Text → Option (Text × Text)
split_once pat [] = option_map (λ r. ([], r)) (strip_prefix pat [])
split_once pat (c ∷ s) =
    let later = split_once pat s in
    elim (strip_prefix pat (c ∷ s)) [
      | some r ↦ some ([], r)
      | none ↦ option_map (λ p. (c ∷ p.0, p.1)) later
    ]

unfoldable pub contains : Text → Text → Bool
unfolding starts_with
contains pat [] = starts_with pat []
contains pat (c ∷ s) = starts_with pat (c ∷ s) || contains pat s

unfoldable pub ends_with : Text → Text → Bool
unfolding text_eq
ends_with pat [] = text_eq pat []
ends_with pat (c ∷ s) = text_eq pat (c ∷ s) || ends_with pat s

unfoldable pub strip_suffix : Text → Text → Option Text
unfolding text_eq
strip_suffix pat [] = if text_eq pat [] then some [] else none
strip_suffix pat (c ∷ s) =
    if text_eq pat (c ∷ s) then some [] else option_map (◌∷◌ c) (strip_suffix pat s)

-- `trim_start_matches(p)`
unfoldable pub drop_while : (ℕ → Bool) → Text → Text
drop_while p [] = []
drop_while p (c ∷ s) = if p c then drop_while p s else c ∷ s

-- A character that is dropped if nothing is left behind it.
abbrev pub trimmed_cons : (ℕ → Bool) → ℕ → Text → Text
trimmed_cons p c [] = if p c then [] else c ∷ []
trimmed_cons p c (d ∷ s) = c ∷ d ∷ s

unfoldable pub trim_end_matches : (ℕ → Bool) → Text → Text
trim_end_matches p [] = []
trim_end_matches p (c ∷ s) = trimmed_cons p c (trim_end_matches p s)

-- `char::is_whitespace`, the White_Space property of Unicode.
unfoldable pub is_whitespace : ℕ → Bool
is_whitespace c =
    leb 9 c && leb c 13
    || c == 32
    || c == 0x85
    || c == 0xA0
    || c == 0x1680
    || leb 0x2000 c && leb c 0x200A
    || c == 0x2028
    || c == 0x2029
    || c == 0x202F
    || c == 0x205F
    || c == 0x3000

unfoldable pub trim_start : Text → Text
unfolding drop_while is_whitespace
trim_start = drop_while is_whitespace

unfoldable pub trim : Text → Text
unfolding trim_end_matches trim_start
trim s = trim_end_matches is_whitespace (trim_start s)

-- `char::is_control`, the general category Cc.
abbrev pub is_control : ℕ → Bool
is_control c = ltb c 32 || leb 127 c && leb c 159

abbrev pub is_ascii_digit : ℕ → Bool
is_ascii_digit c = leb b'0' c && leb c b'9'

abbrev pub to_ascii_lower : ℕ → ℕ
to_ascii_lower c = if leb b'A' c && leb c b'Z' then c + 32 else c

abbrev pub to_ascii_upper : ℕ → ℕ
to_ascii_upper c = if leb b'a' c && leb c b'z' then c - 32 else c

-- The bytes of a character in UTF-8, and `str::len`.
abbrev pub utf8_len : ℕ → ℕ
utf8_len c = if ltb c 0x80 then 1 else if ltb c 0x800 then 2 else if ltb c 0x10000 then 3 else 4

unfoldable pub len : Text → ℕ
len [] = 0
len (c ∷ s) = utf8_len c + len s

-- The order of texts, by their characters.
unfoldable pub text_leb : Text → Text → Bool
text_leb [] t = true
text_leb (c ∷ s) [] = false
text_leb (c ∷ s) (d ∷ t) = let rest = text_leb s t in if c == d then rest else ltb c d

-- The line that a test names to see through all of these.
unfoldable pub text_ops : Unit {0}
unfolding text_eq strip_prefix starts_with split_once contains ends_with strip_suffix drop_while
    trim_end_matches is_whitespace trim_start trim len
text_ops = tt
