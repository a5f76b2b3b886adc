-- ===== src/Pathsafe.antt =====
-- src/pathsafe.rs: the rules for path components that are built from untrusted text.
pub mod Slug
pub mod Containment
pub mod Resolve
use weflow_server.Base.{
  ℕ, Bool, true, false, not, ◌&&◌, ◌||◌, List, [], ◌∷◌, map, Option, none, some, ltb, leb, ◌==◌,
  if◌then◌else◌, length, take, get_elem?, last?, any,
}
use weflow_server.Base.Text.{
  Text, codes, text_eq, is_empty, starts_with, trim_end_matches, is_control, is_ascii_digit,
  to_ascii_upper, len,
}

abbrev pub max_segment : ℕ
max_segment = 128

-- `s.split('.').next()`
unfoldable pub before_dot : Text → Text
before_dot [] = []
before_dot (c ∷ s) = if c == b'.' then [] else c ∷ before_dot s

abbrev pub is_dot_or_space : ℕ → Bool
is_dot_or_space c = c == b' ' || c == b'.'

-- `matches!(bytes[3], b'1'..=b'9')`
abbrev is_port_digit : Option ℕ → Bool
is_port_digit none = false
is_port_digit (some c) = leb b'1' c && leb c b'9'

abbrev pub device_names : List Text
device_names =
    codes "CON" ∷ codes "PRN" ∷ codes "AUX" ∷ codes "NUL" ∷ codes "CONIN$" ∷ codes "CONOUT$" ∷ []

-- The tests of `is_reserved_device` on the upper-case base name.
unfoldable pub is_device_name : Text → Bool
unfolding text_eq starts_with len
is_device_name upper =
    any (text_eq upper) device_names
    || len upper == 4
      && (starts_with (codes "COM") upper || starts_with (codes "LPT") upper)
      && is_port_digit (get_elem? upper 3)

unfoldable pub is_reserved_device : Text → Bool
unfolding before_dot trim_end_matches is_device_name
is_reserved_device s =
    is_device_name (map to_ascii_upper (trim_end_matches is_dot_or_space (before_dot s)))

-- `s.ends_with(c)`
abbrev pub last_is : ℕ → Option ℕ → Bool
last_is c none = false
last_is c (some d) = d == c

unfoldable pub safe_segment : Text → Bool
safe_segment s =
    not (is_empty s)
    && leb (len s) max_segment
    && not (text_eq s (codes "."))
    && not (text_eq s (codes ".."))
    && not (any (λ c. c == b'/') s)
    && not (any (λ c. c == b'\\') s)
    && not (any (λ c. c == b':') s)
    && not (any is_control s)
    && not (last_is b'.' (last? s))
    && not (last_is b' ' (last? s))
    && not (is_reserved_device s)

abbrev pub is_slug_char : ℕ → Bool
is_slug_char c =
    is_ascii_digit c
    || leb b'A' c && leb c b'Z'
    || leb b'a' c && leb c b'z'
    || c == b'-'
    || c == b'_'

abbrev pub fold_char : ℕ → ℕ
fold_char c = if is_slug_char c then c else b'_'

abbrev pub guard_device : Text → Text
guard_device out = if is_reserved_device out then b'_' ∷ take 63 out else out

unfoldable pub slugify : Text → Text → Text
slugify s fallback =
    let out = take 64 (map fold_char s) in if is_empty out then fallback else guard_device out

-- A path as its components; the file system's `canonicalize` is a parameter.
abbrev pub FilePath : Type 0
FilePath = List Text

unfoldable pub parent : FilePath → Option FilePath
parent [] = none
parent (c ∷ []) = some []
parent (c ∷ d ∷ p) = elim (parent (d ∷ p)) [ none ↦ none | some q ↦ some (c ∷ q) ]

-- `Path::starts_with`, which compares whole components.
unfoldable pub path_starts_with : FilePath → FilePath → Bool
unfolding text_eq
path_starts_with [] p = true
path_starts_with (r ∷ root) [] = false
path_starts_with (r ∷ root) (c ∷ p) = text_eq r c && path_starts_with root p

abbrev within : Option FilePath → Option FilePath → Bool
within (some root) (some dir) = path_starts_with root dir
within _ _ = false

unfoldable pub is_contained : (FilePath → Option FilePath) → FilePath → FilePath → Bool
unfolding parent path_starts_with
is_contained canonicalize root path = elim (parent path) [
  | none ↦ false
  | some dir ↦ within (canonicalize root) (canonicalize dir)
]
