-- ===== src/Tests/Paths.antt =====
-- src/pathsafe.rs and the names of src/store/mod.rs and src/parser/mod.rs on concrete inputs.
use weflow_server.Base.{◌≡◌, refl, true, [], ◌∷◌, some, none}
use weflow_server.Base.Text.{codes, text_ops}
use weflow_server.Pathsafe.{FilePath, safe_segment, slugify, is_reserved_device}
use weflow_server.Pathsafe.Resolve.{resolve, resolve-safe_segment}
use weflow_server.Pathsafe.Slug.{slugify-safe_segment}

abbrev root : FilePath
root = codes "data" ∷ codes "export" ∷ []

abbrev photo : FilePath
photo = codes "data" ∷ codes "export" ∷ codes "ann" ∷ codes "a.jpg" ∷ []

safe_name : safe_segment (codes "a.jpg") ≡ true
unfolding safe_segment text_ops is_reserved_device
safe_name = refl

-- What the tests keep out: a colon, a device with an ending, a way up, and a name that is cut short.
dangerous_names :
    (resolve (codes "export" ∷ []) (codes "a:b") ≡ none)
    × (resolve (codes "export" ∷ []) (codes "nul.jpg") ≡ none)
    × (resolve (codes "export" ∷ []) (codes "..\\x") ≡ some (codes "x" ∷ []))
    × (resolve (codes "export" ∷ []) (codes "x. ") ≡ some (codes "export" ∷ codes "x" ∷ []))
unfolding resolve text_ops
dangerous_names = (refl, refl, refl, refl)

resolve-safe_segment_example :
    resolve (codes "export" ∷ []) (codes "a.jpg") ≡ some (codes "export" ∷ codes "a.jpg" ∷ [])
resolve-safe_segment_example = resolve-safe_segment (codes "export" ∷ []) (codes "a.jpg") safe_name

slugify-safe_segment_example : safe_segment (slugify (codes "../con") (codes "a.jpg")) ≡ true
slugify-safe_segment_example = slugify-safe_segment (codes "../con") (codes "a.jpg") safe_name

slug_of_device : slugify (codes "nul") (codes "a.jpg") ≡ codes "_nul"
unfolding slugify text_ops is_reserved_device
slug_of_device = refl
