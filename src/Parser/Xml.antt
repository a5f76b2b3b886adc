-- ===== src/Parser/Xml.antt =====
-- The accessors of src/parser/mod.rs over XML-like text.
pub mod Laws
use mathlib.Core.List.{◌++◌}
use weflow_server.Base.{
  Bool, true, false, [], ◌∷◌, Option, none, some, ◌==◌, if◌then◌else◌, ◌>>=◌, unwrap_or,
}
use weflow_server.Base.Text.{
  Text, codes, is_empty, split_once, strip_prefix, strip_suffix, trim, trim_start, starts_with,
}

abbrev pub open_tag : Text → Text
open_tag name = b'<' ∷ (name ++ codes ">")

abbrev pub close_tag : Text → Text
close_tag name = b'<' ∷ b'/' ∷ (name ++ codes ">")

-- The text behind the first `lead`, up to the next `tail`: the two `find` calls of an accessor.
unfoldable pub between : Text → Text → Text → Option Text
between lead tail xml = do
  (before, rest) ← split_once lead xml
  (found, after) ← split_once tail rest
  some found

-- name="value"
unfoldable pub attr : Text → Text → Option Text
attr xml name = between (name ++ codes "=\"") (codes "\"") xml

unfoldable pub elem_text : Text → Text → Option Text
elem_text xml name = between (open_tag name) (close_tag name) xml

-- The first `<name>…</name>` is cut out; the search for the closing tag starts at the opening one.
unfoldable pub strip_elem : Text → Text → Text
strip_elem xml name = elim (split_once (open_tag name) xml) [
  | none ↦ xml
  | some (before, rest) ↦ elim (split_once (close_tag name) (open_tag name ++ rest)) [
    | none ↦ xml
    | some (found, after) ↦ before ++ after
  ]
]

abbrev non_empty : Text → Option Text
non_empty s = if is_empty s then none else some s

unfoldable pub elem_text_unwrapped : Text → Text → Option Text
elem_text_unwrapped xml name = do
  raw ← elem_text xml name
  let t = trim raw
  let inner = (strip_prefix (codes "<![CDATA[") t >>= strip_suffix (codes "]]>"))
  non_empty (trim (unwrap_or inner t))

-- A finished segment is appended with a space behind it, unless it is blank.
abbrev flush : Text → Text → Text
flush out seg = if is_empty (trim seg) then out else out ++ (trim seg ++ codes " ")

abbrev finish : Text → Text → Text
finish out seg = if is_empty (trim seg) then out else out ++ trim seg

-- The loop of `strip_tags` over its three variables.
unfoldable pub strip_tags_from : Text → Bool → Text → Text → Text
strip_tags_from out in_tag seg [] = trim (finish out seg)
strip_tags_from out in_tag seg (c ∷ s) =
    let opened = strip_tags_from (flush out seg) true [] s in
    let closed = strip_tags_from out false seg s in
    let skipped = strip_tags_from out in_tag seg s in
    let kept = strip_tags_from out in_tag (seg ++ c ∷ []) s in
    if c == b'<' then opened else if c == b'>' then closed else if in_tag then skipped else kept

unfoldable pub strip_tags : Text → Text
strip_tags xml = strip_tags_from [] false [] xml

unfoldable pub is_xml : Text → Bool
is_xml s = starts_with (codes "<") (trim_start s)

-- The line that a test names to see through all of these.
unfoldable pub xml_ops : Unit {0}
unfolding between attr elem_text strip_elem elem_text_unwrapped strip_tags_from strip_tags is_xml
xml_ops = tt
