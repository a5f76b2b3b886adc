-- ===== src/Parser/LocalType/Laws.antt =====
-- What the masking of `local_type` gives: nothing is lost, and the tables do not see the subtype.
use weflow_server.Base.{
  ℕ, ◌*◌, ◌+◌, ◌^◌, ◌<◌, ◌≡◌, refl, ◌≢◌, ◌⊎◌, true, none, some, arith, ◌==◌, if◌then◌else◌, is_some,
  ◌↔◌, List, [], ◌∷◌, any,
}
use weflow_server.Base.Int.{ℤ, pos, negsuc}
use weflow_server.Base.Text.{Text}
use weflow_server.Parser.{ParsedMsg}
use weflow_server.Parser.LocalType.{
  split_local_type, subtype_of, appmsg_type, placeholder_for, chatlab_code, chatlab_type,
}

-- `(subtype << 32) | base`
abbrev pub pack : ℕ → ℕ → ℤ
pack sub base = pos (sub * 2 ^ 32 + base)

-- The halves of a packed value are the values that were packed; the upper one is shown exactly
-- for base 49, and not if it is 0.
pub split_local_type-pack :
    (sub base : ℕ)
    → base < 2 ^ 32
    → split_local_type (pack sub base)
      ≡ (pos base, (if sub == 0 then none else if base == 49 then some (pos sub) else none))
unfolding split_local_type
split_local_type-pack sub base h = ground arith

-- The subtype that is packed wins over that of the XML, which serves where none is packed.
pub subtype_of-pack :
    (sub base : ℕ) (xml : Text)
    → base < 2 ^ 32
    → subtype_of (pack sub base) xml ≡ (
        if sub == 0
        then appmsg_type xml
        else if base == 49
        then some (pos sub)
        else appmsg_type xml)
unfolding subtype_of
subtype_of-pack sub base xml h = rw (split_local_type-pack sub base h) (ground arith)

base-pack : (sub base : ℕ) → base < 2 ^ 32 → (split_local_type (pack sub base)).0 ≡ pos base
unfolding split_local_type
base-pack sub base h = ground arith

base-small : (base : ℕ) → base < 2 ^ 32 → (split_local_type (pos base)).0 ≡ pos base
unfolding split_local_type
base-small base h = ground arith

-- The placeholder of a packed value is that of its base type.
pub placeholder_for-pack :
    (sub base : ℕ) → base < 2 ^ 32 → placeholder_for (pack sub base) ≡ placeholder_for (pos base)
unfolding placeholder_for
placeholder_for-pack sub base h = cc (base-pack sub base h, base-small base h)

chatlab_code-other :
    (n : ℕ) (a b : ℤ) (p : ParsedMsg) → n ≢ 49 → chatlab_code (pos n) a p ≡ chatlab_code (pos n) b p
unfolding chatlab_code
chatlab_code-other n a b p h = ground arith

-- Outside appmsg rows a packed value has the code of its base type.
pub chatlab_type-pack :
    (sub base : ℕ) (p : ParsedMsg)
    → base < 2 ^ 32
    → base ≢ 49
    → chatlab_type (pack sub base) p ≡ chatlab_type (pos base) p
unfolding chatlab_type
chatlab_type-pack sub base p h other =
    rw (base-pack sub base h, base-small base h)
      (chatlab_code-other base (pack sub base) (pos base) p other)

-- The code of a packed appmsg row whose upper half is not 0: a quote reply whatever else it holds,
-- then a file if the packed subtype is 6, and otherwise a link.
pub chatlab_type-appmsg :
    (sub : ℕ) (p : ParsedMsg)
    → sub ≢ 0
    → chatlab_type (pack sub 49) p ≡ (if is_some p.reply_to then 25 else if sub == 6 then 4 else 7)
unfolding chatlab_type chatlab_code
chatlab_type-appmsg sub p h =
    rw (base-pack sub 49 (omega arith), subtype_of-pack sub 49 p.raw_content (omega arith))
      (ground arith)

-- The codes of the published enumeration that the mapping uses; 6 is not assigned.
abbrev pub published : List ℕ
published = 0 ∷ 1 ∷ 2 ∷ 3 ∷ 4 ∷ 5 ∷ 7 ∷ 8 ∷ 24 ∷ 25 ∷ 27 ∷ 80 ∷ 81 ∷ 99 ∷ []

chatlab_code-published :
    (base t : ℤ) (p : ParsedMsg) → any (λ c. c == chatlab_code base t p) published ≡ true
unfolding chatlab_code
chatlab_code-published (negsuc n) t p = refl
chatlab_code-published (pos n) t p = ground arith

chatlab_code-recall :
    (base t : ℤ) (p : ParsedMsg)
    → (chatlab_code base t p ≡ 81)
      ↔ (((base ≡ pos 10000) ⊎ (base ≡ pos 10002)) × (is_some p.revoke ≡ true))
unfolding chatlab_code
chatlab_code-recall (negsuc n) t p = ground arith
chatlab_code-recall (pos n) t p = ground arith

-- Every row has a code of the published enumeration, and never the code 6, which is not assigned.
pub chatlab_type-published :
    (t : ℤ) (p : ParsedMsg)
    → (any (λ c. c == chatlab_type t p) published ≡ true) × (chatlab_type t p ≢ 6)
unfolding chatlab_type
chatlab_type-published t p =
    let h = chatlab_code-published (split_local_type t).0 t p in (h, λ six. ground arith)

-- The code 81 is given exactly to the system rows that carry a revocation.
pub chatlab_type-recall :
    (t : ℤ) (p : ParsedMsg)
    → (chatlab_type t p ≡ 81) ↔ (
        (((split_local_type t).0 ≡ pos 10000) ⊎ ((split_local_type t).0 ≡ pos 10002))
        × (is_some p.revoke ≡ true))
unfolding chatlab_type
chatlab_type-recall t p = chatlab_code-recall (split_local_type t).0 t p
