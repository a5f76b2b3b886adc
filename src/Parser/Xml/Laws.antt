-- ===== src/Parser/Xml/Laws.antt =====
-- Laws of the accessors: an element or attribute that was written is read back, and stripped text
-- holds no tag.
use mathlib.Core.List.{◌++◌}
use weflow_server.Base.{
  ℕ, ◌≡◌, refl, Bool, true, false, ◌||◌, [], ◌∷◌, some, arith, ◌==◌, any, Bool-cases, inl, inr,
}
use weflow_server.Base.Text.{Text, codes, is_empty, trim}
use weflow_server.Base.Text.Laws.{any-append, any-trim, split_once-append}
use weflow_server.Parser.Xml.{
  open_tag, close_tag, between, attr, elem_text, strip_tags, strip_tags_from, flush, finish,
}

abbrev pub Lacks : ℕ → Text → Type 0
Lacks p s = any (λ c. c == p) s ≡ false

between-append :
    (p q : ℕ) (lead tail before v rest : Text)
    → Lacks p before
    → Lacks q v
    → between (p ∷ lead) (q ∷ tail) (before ++ ((p ∷ lead) ++ (v ++ ((q ∷ tail) ++ rest)))) ≡ some v
unfolding between
between-append p q lead tail before v rest h k = ground (
  arith,
  split_once-append p lead before (v ++ ((q ∷ tail) ++ rest)) h,
  split_once-append q tail v rest k,
)

-- An element reads back as the text that was written between its tags, if that text and what
-- stands before it hold no `<`; what follows does not matter.
pub elem_text-written :
    (name before v rest : Text)
    → Lacks b'<' before
    → Lacks b'<' v
    → elem_text (before ++ (open_tag name ++ (v ++ (close_tag name ++ rest)))) name ≡ some v
unfolding elem_text
elem_text-written name before v rest h k =
    between-append b'<' b'<' (name ++ codes ">") (b'/' ∷ (name ++ codes ">")) before v rest h k

-- An attribute reads back as its value, if the value holds no quote and the text before it does
-- not hold the first letter of its name.
pub attr-written :
    (c : ℕ) (name before v rest : Text)
    → Lacks c before
    → Lacks b'"' v
    → attr (before ++ (((c ∷ name) ++ codes "=\"") ++ (v ++ (codes "\"" ++ rest)))) (c ∷ name)
      ≡ some v
unfolding attr
attr-written c name before v rest h k =
    between-append c b'"' (name ++ codes "=\"") [] before v rest h k

abbrev is_bracket : ℕ → Bool
is_bracket c = c == b'<' || c == b'>'

any-flush :
    (out seg : Text)
    → any is_bracket out ≡ false
    → any is_bracket seg ≡ false
    → any is_bracket (flush out seg) ≡ false
any-flush out seg h k = elim (Bool-cases (is_empty (trim seg))) [
  | inl e ↦ rw e h
  | inr e ↦ rw e (
      any-append is_bracket out (trim seg ++ codes " ") h
        (any-append is_bracket (trim seg) (codes " ") (any-trim is_bracket seg k) refl))
]

any-finish :
    (out seg : Text)
    → any is_bracket out ≡ false
    → any is_bracket seg ≡ false
    → any is_bracket (finish out seg) ≡ false
any-finish out seg h k = elim (Bool-cases (is_empty (trim seg))) [
  | inl e ↦ rw e h
  | inr e ↦ rw e (any-append is_bracket out (trim seg) h (any-trim is_bracket seg k))
]

strip_tags_from-plain :
    (out : Text) (in_tag : Bool) (seg s : Text)
    → any is_bracket out ≡ false
    → any is_bracket seg ≡ false
    → any is_bracket (strip_tags_from out in_tag seg s) ≡ false
unfolding strip_tags_from
strip_tags_from-plain out in_tag seg [] h k =
    any-trim is_bracket (finish out seg) (any-finish out seg h k)
strip_tags_from-plain out in_tag seg (c ∷ s) h k = ground (
  arith,
  strip_tags_from-plain (flush out seg) true [] s (any-flush out seg h k) refl,
  strip_tags_from-plain out false seg s h k,
  strip_tags_from-plain out in_tag seg s h k,
  strip_tags_from-plain out in_tag (seg ++ c ∷ []) s h,
  any-append is_bracket seg (c ∷ []) k,
)

-- Stripped text holds no `<` and no `>`, whatever the input.
pub strip_tags-plain : (xml : Text) → any is_bracket (strip_tags xml) ≡ false
unfolding strip_tags
strip_tags-plain xml = strip_tags_from-plain [] false [] xml refl refl
