-- ===== src/Parser/Message/FileName.antt =====
-- The file name that `sanitize_file_name` of src/parser/mod.rs makes of a title.
use weflow_server.Base.{
  ℕ, ◌≡◌, refl, ◌≢◌, Bool, false, [], ◌∷◌, map, some, arith, ◌==◌, any, last?, Bool-cases, inl, inr,
}
use weflow_server.Base.Text.{Text, is_empty, trim, trim_end_matches}
use weflow_server.Base.Text.Laws.{any-trim, any-trim_end_matches, last-trim_end_matches}
use weflow_server.Parser.Message.{is_reserved_char, clean_char, sanitize_file_name}

clean_char-plain : (c : ℕ) → is_reserved_char (clean_char c) ≡ false
clean_char-plain c = elim (Bool-cases (is_reserved_char c)) [ inl e ↦ rw e | inr e ↦ rw e e ]

map-clean_char-plain : (s : Text) → any is_reserved_char (map clean_char s) ≡ false
map-clean_char-plain [] = refl
map-clean_char-plain (c ∷ s) = rw (clean_char-plain c) (map-clean_char-plain s)

-- Whatever the title, the name is not empty, holds no separator, no other character that Windows
-- reserves and no control character, and does not end in a dot.
pub sanitize_file_name-plain :
    (title : Text)
    → (is_empty (sanitize_file_name title) ≡ false)
      × (any is_reserved_char (sanitize_file_name title) ≡ false)
      × (last? (sanitize_file_name title) ≢ some b'.')
unfolding sanitize_file_name
sanitize_file_name-plain title =
    let dots : ℕ → Bool = λ c. c == b'.' in
    let kept = trim (map clean_char title) in
    let plain = any-trim is_reserved_char (map clean_char title) (map-clean_char-plain title) in
    elim (Bool-cases (is_empty (trim_end_matches dots kept))) [
      | inl e ↦ rw e (refl, refl, λ h. ground arith)
      | inr e ↦ rw e (
        e,
        any-trim_end_matches is_reserved_char dots kept plain,
        λ h. absurd (ground (arith, last-trim_end_matches dots kept h)),
      )
    ]
