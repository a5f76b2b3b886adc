-- ===== src/Parser/Content/Prefix.antt =====
-- What is taken off a body that names its sender on the first line, `strip_sender_prefix` of
-- src/parser/mod.rs.
use weflow_server.Base.{
  ℕ, ◌≡◌, refl, false, not, ◌&&◌, [], ◌∷◌, ◌++◌, none, some, arith, if◌then◌else◌, any, ◌==◌, ap,
  ◌∙◌,
}
use weflow_server.Base.Text.{Text, codes, text_eq, is_empty, starts_with, strip_suffix, trim_start}
use weflow_server.Base.Text.Laws.{split_once-append, any-append}
use weflow_server.Parser.Content.{strip_sender_prefix, behind_line, unprefixed}

text_eq-colon : (c : ℕ) (id : Text) → text_eq (codes ":") (c ∷ (id ++ codes ":")) ≡ false
unfolding text_eq
text_eq-colon c [] = ground arith
text_eq-colon c (d ∷ id) = ground arith

strip_suffix-colon : (id : Text) → strip_suffix (codes ":") (id ++ codes ":") ≡ some id
unfolding strip_suffix text_eq
strip_suffix-colon [] = refl
strip_suffix-colon (c ∷ id) = ground (arith, text_eq-colon c id, strip_suffix-colon id)

-- A body whose first line is an id, any text without a line break, and a colon loses that line, and
-- the white space behind it, if markup follows; it loses the line alone if the id is the row's
-- sender and is not empty; and any other body is kept as it is.
pub strip_sender_prefix-line :
    (id rest sender : Text)
    → any (λ c. c == 10) id ≡ false
    → strip_sender_prefix ((id ++ codes ":") ++ (codes "\n" ++ rest)) sender ≡ (
        if starts_with (codes "<") (trim_start rest)
        then trim_start rest
        else if not (is_empty sender) && text_eq id sender
        then rest
        else ((id ++ codes ":") ++ (codes "\n" ++ rest)))
unfolding strip_sender_prefix
strip_sender_prefix-line id rest sender h =
    let body = (id ++ codes ":") ++ (codes "\n" ++ rest) in
    ap (λ o. elim o [ none ↦ body | some p ↦ behind_line body sender p ])
      (split_once-append 10 [] (id ++ codes ":") rest (any-append _ id (codes ":") h refl))
    ∙ ap (λ o. elim o [ none ↦ body | some name ↦ unprefixed body sender name rest ])
        (strip_suffix-colon id)
