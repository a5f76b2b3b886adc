-- ===== src/Pathsafe/Resolve.antt =====
-- Where a name leads that is joined to a directory, by the rules of the file systems that
-- src/pathsafe.rs names: either separator splits it, `.` and empty parts stay, `..` goes up, a leading
-- separator is another root. A colon (a drive or a stream), a control character, a device of Win32
-- and a part past 255 bytes name no file below the directory, and Win32 drops the dots and spaces at
-- the end of a part.
use weflow_server.Base.{
  ℕ, ◌≡◌, refl, Bool, true, false, ◌||◌, List, [], ◌∷◌, ◌++◌, map, Option, none, some, arith, ltb,
  ◌==◌, if◌then◌else◌, last?, any, unwrap_or, all, Bool-cases, inl, inr,
}
use mathlib.Core.List.{append-nil, append_assoc}
use weflow_server.Base.Text.{
  Text, codes, text_eq, text_eq_iff, is_empty, trim_end_matches, is_control, to_ascii_upper, len,
}
use weflow_server.Pathsafe.{
  before_dot, is_dot_or_space, is_device_name, is_reserved_device, last_is, safe_segment, FilePath,
}

abbrev pub is_separator : ℕ → Bool
is_separator c = c == b'/' || c == b'\\'

split_from : Text → Text → List Text
split_from cur [] = cur ∷ []
split_from cur (c ∷ s) =
    let closed = split_from [] s in
    let longer = split_from (cur ++ c ∷ []) s in if is_separator c then cur ∷ closed else longer

up : FilePath → FilePath
up [] = []
up (c ∷ []) = []
up (c ∷ d ∷ dir) = c ∷ up (d ∷ dir)

-- The devices, each by its name.
abbrev devices : List Text
devices =
    codes "CON"
    ∷ codes "PRN"
    ∷ codes "AUX"
    ∷ codes "NUL"
    ∷ codes "CONIN$"
    ∷ codes "CONOUT$"
    ∷ codes "COM1"
    ∷ codes "COM2"
    ∷ codes "COM3"
    ∷ codes "COM4"
    ∷ codes "COM5"
    ∷ codes "COM6"
    ∷ codes "COM7"
    ∷ codes "COM8"
    ∷ codes "COM9"
    ∷ codes "LPT1"
    ∷ codes "LPT2"
    ∷ codes "LPT3"
    ∷ codes "LPT4"
    ∷ codes "LPT5"
    ∷ codes "LPT6"
    ∷ codes "LPT7"
    ∷ codes "LPT8"
    ∷ codes "LPT9"
    ∷ []

unfoldable pub names_device : Text → Bool
unfolding text_eq trim_end_matches before_dot
names_device part =
    any (text_eq (map to_ascii_upper (trim_end_matches is_dot_or_space (before_dot part)))) devices

enter_trimmed : FilePath → Text → FilePath
enter_trimmed dir [] = dir
enter_trimmed dir (c ∷ s) = dir ++ (c ∷ s) ∷ []

enter : FilePath → Text → Option FilePath
unfolding enter_trimmed up names_device text_eq trim_end_matches len
enter dir part =
    if is_empty part || text_eq part (codes ".")
    then some dir
    else if text_eq part (codes "..")
    then some (up dir)
    else if any (λ c. c == b':') part
        || any is_control part
        || names_device part
        || ltb 255 (len part)
    then none
    else some (enter_trimmed dir (trim_end_matches is_dot_or_space part))

enter_all : Option FilePath → List Text → Option FilePath
unfolding enter
enter_all none parts = none
enter_all (some dir) [] = some dir
enter_all (some dir) (part ∷ parts) = enter_all (enter dir part) parts

abbrev leads_away : Text → Bool
leads_away [] = false
leads_away (c ∷ s) = is_separator c

-- The place below some directory that the name stands for; none for every other place.
unfoldable pub resolve : FilePath → Text → Option FilePath
unfolding split_from enter_all
resolve dir s = if leads_away s then none else enter_all (some dir) (split_from [] s)

-- The file that a joined path names. What is no file below a directory is a place of its own.
unfoldable pub join : FilePath → Text → FilePath
unfolding resolve
join dir s = unwrap_or (resolve dir s) (s ∷ [])

-- What makes a name one component.
pub record IsComponent (s : Text) : Type 0 where
  pub not_empty : is_empty s ≡ false
  pub not_dot : text_eq s (codes ".") ≡ false
  pub not_dots : text_eq s (codes "..") ≡ false
  pub no_separator : any is_separator s ≡ false
  pub no_colon : any (λ c. c == b':') s ≡ false
  pub no_control : any is_control s ≡ false
  pub no_device : names_device s ≡ false
  pub is_short : ltb 255 (len s) ≡ false
  pub no_dot_end : last_is b'.' (last? s) ≡ false
  pub no_space_end : last_is b' ' (last? s) ≡ false

split_from-plain : (cur s : Text) → any is_separator s ≡ false → split_from cur s ≡ (cur ++ s) ∷ []
unfolding split_from
split_from-plain cur [] h = rw append-nil
split_from-plain cur (c ∷ s) h =
    ground (arith, split_from-plain (cur ++ c ∷ []) s, append_assoc cur (c ∷ []) s)

-- A text that ends in neither a dot nor a space loses nothing.
trim_end_matches-kept :
    (c : ℕ) (s : Text)
    → last_is b'.' (last? (c ∷ s)) ≡ false
    → last_is b' ' (last? (c ∷ s)) ≡ false
    → trim_end_matches is_dot_or_space (c ∷ s) ≡ c ∷ s
unfolding trim_end_matches
trim_end_matches-kept c [] h k = ground arith
trim_end_matches-kept c (d ∷ s) h k = rw (trim_end_matches-kept d s h k)

any-separator :
    (s : Text)
    → any (λ c. c == b'/') s ≡ false
    → any (λ c. c == b'\\') s ≡ false
    → any is_separator s ≡ false
any-separator [] h k = refl
any-separator (c ∷ s) h k = ground (arith, any-separator s)

leads_away-plain : (s : Text) → any is_separator s ≡ false → leads_away s ≡ false
leads_away-plain [] h = refl
leads_away-plain (c ∷ s) h = ground arith

enter-IsComponent : (dir : FilePath) (s : Text) → IsComponent s → enter dir s ≡ some (dir ++ s ∷ [])
unfolding enter enter_trimmed
enter-IsComponent dir [] p = absurd (let full = p.not_empty in cc)
enter-IsComponent dir (c ∷ s) p =
    rw
      (
        p.not_dot,
        p.not_dots,
        p.no_colon,
        p.no_control,
        p.no_device,
        p.is_short,
        trim_end_matches-kept c s p.no_dot_end p.no_space_end,
      )
      refl

enter_all-one :
    (dir to : FilePath) (s : Text) → enter dir s ≡ some to → enter_all (some dir) (s ∷ []) ≡ some to
unfolding enter_all
enter_all-one dir to s h = rw (enter_all, h) refl

resolve-IsComponent :
    (dir : FilePath) (s : Text) → IsComponent s → resolve dir s ≡ some (dir ++ s ∷ [])
unfolding resolve
resolve-IsComponent dir s p =
    rw (leads_away-plain s p.no_separator, split_from-plain [] s p.no_separator)
      (enter_all-one dir _ s (enter-IsComponent dir s p))

-- Every device is reserved.
any-device :
    (name : Text) (ds : List Text)
    → all is_device_name ds ≡ true
    → any (text_eq name) ds ≡ true
    → is_device_name name ≡ true
any-device name [] h k = absurd cc
any-device name (d ∷ ds) h k = ground (arith, any-device name ds, text_eq_iff name d)

devices-reserved : all is_device_name devices ≡ true
unfolding is_device_name text_eq
devices-reserved = refl

not_reserved : (s : Text) → is_reserved_device s ≡ false → names_device s ≡ false
unfolding is_reserved_device names_device
not_reserved s h =
    let base = map to_ascii_upper (trim_end_matches is_dot_or_space (before_dot s)) in
    elim (Bool-cases (names_device s)) [
      | inl named ↦ absurd (let taken = any-device base devices devices-reserved named in cc)
      | inr free ↦ free
    ]

pub safe_segment-IsComponent : (s : Text) → safe_segment s ≡ true → IsComponent s
unfolding safe_segment
safe_segment-IsComponent s h = record {
  not_empty = ground arith;
  not_dot = ground arith;
  not_dots = ground arith;
  no_separator = any-separator s (ground arith) (ground arith);
  no_colon = ground arith;
  no_control = ground arith;
  no_device = not_reserved s (ground arith);
  is_short = ground arith;
  no_dot_end = ground arith;
  no_space_end = ground arith;
}

-- A safe component leads to a direct child of the directory, of exactly that name: to no other
-- directory, drive, stream or device, and to no shortened name.
pub resolve-safe_segment :
    (dir : FilePath) (s : Text) → safe_segment s ≡ true → resolve dir s ≡ some (dir ++ s ∷ [])
resolve-safe_segment dir s h = resolve-IsComponent dir s (safe_segment-IsComponent s h)

pub join-IsComponent : (dir : FilePath) (s : Text) → IsComponent s → join dir s ≡ dir ++ s ∷ []
unfolding join
join-IsComponent dir s p = rw (resolve-IsComponent dir s p) refl
