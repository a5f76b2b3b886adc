-- ===== src/Media/Export/Place.antt =====
-- src/media/export.rs: the two names that `write_out` joins to its directory.
use weflow_server.Base.{ℕ, ◌+◌, ◌≡◌, refl, true, false, [], ◌∷◌, ◌++◌, arith, ltb, leb, last?}
use weflow_server.Base.Text.{Text, codes, text_eq, is_control, len}
use weflow_server.Base.Text.Laws.{any-append}
use weflow_server.Pathsafe.{FilePath, safe_segment}
use weflow_server.Pathsafe.Resolve.{
  is_separator, names_device, IsComponent, join, safe_segment-IsComponent, join-IsComponent,
}
use weflow_server.Media.Export.{tmp_name}

len-append : (s t : Text) → len (s ++ t) ≡ len s + len t
unfolding len
len-append [] t = ground arith
len-append (c ∷ s) t = ground (arith, len-append s t)

last?-suffix : (s : Text) (d : ℕ) (t : Text) → last? (s ++ d ∷ t) ≡ last? (d ∷ t)
last?-suffix [] d t = refl
last?-suffix (c ∷ []) d t = refl
last?-suffix (c ∷ e ∷ s) d t = last?-suffix (e ∷ s) d t

longer_than_dot : (s : Text) (d : ℕ) → text_eq (s ++ codes ".tmp") (d ∷ []) ≡ false
unfolding text_eq
longer_than_dot [] d = ground arith
longer_than_dot (c ∷ []) d = ground arith
longer_than_dot (c ∷ e ∷ s) d = ground arith

dot_device : (s : Text) → names_device (b'.' ∷ s) ≡ false
unfolding names_device
dot_device s = refl

safe_segment-short : (s : Text) → safe_segment s ≡ true → leb (len s) 128 ≡ true
unfolding safe_segment
safe_segment-short s h = ground arith

not_too_long : (s : Text) → leb (len s) 128 ≡ true → ltb 255 (len (tmp_name s)) ≡ false
unfolding len
not_too_long s h = ground (arith, len-append s (codes ".tmp"))

tmp_name-IsComponent : (s : Text) → safe_segment s ≡ true → IsComponent (tmp_name s)
unfolding text_eq
tmp_name-IsComponent s h =
    let p = safe_segment-IsComponent s h in
    let t = codes ".tmp" in
    record {
      not_empty = refl;
      not_dot = ground arith;
      not_dots = longer_than_dot s b'.';
      no_separator = any-append is_separator s t p.no_separator refl;
      no_colon = any-append _ s t p.no_colon refl;
      no_control = any-append is_control s t p.no_control refl;
      no_device = dot_device (s ++ t);
      is_short = not_too_long s (safe_segment-short s h);
      no_dot_end = rw (last?-suffix (b'.' ∷ s) b'.' (codes "tmp")) refl;
      no_space_end = rw (last?-suffix (b'.' ∷ s) b'.' (codes "tmp")) refl;
    }

-- A safe name and its temporary name are files of the directory itself.
pub join-safe_segment :
    (dir : FilePath) (s : Text) → safe_segment s ≡ true → join dir s ≡ dir ++ s ∷ []
join-safe_segment dir s h = join-IsComponent dir s (safe_segment-IsComponent s h)

pub join-tmp_name :
    (dir : FilePath) (s : Text)
    → safe_segment s ≡ true
    → join dir (tmp_name s) ≡ dir ++ tmp_name s ∷ []
join-tmp_name dir s h = join-IsComponent dir (tmp_name s) (tmp_name-IsComponent s h)
