-- ===== src/Base/Sort.antt =====
-- The stable sort of the standard library, `sort_by`, given the test that a first element may stand
-- before a second one.
use mathlib.Core.List.{Perm}
use mathlib.Core.List.Perm
use mathlib.Core.Path.{◌≡◌, refl, ◌∙◌}
use mathlib.Core.Logic.{inl, inr}
use native.Mathlib.Omega.{arith}
use mathlib.Core.Bool.{Bool, true, false, ◌||◌}
use mathlib.Core.List.{List, [], ◌∷◌}
use weflow_server.Base.Tests.{if◌then◌else◌, Bool-cases}
use weflow_server.Base.Lists.{any, All, retain}

module _ {ℓ} {A : Type ℓ} (le : A → A → Bool) where
  unfoldable pub insert_by : A → List A → List A
  insert_by x [] = x ∷ []
  insert_by x (y ∷ ys) = if le x y then x ∷ y ∷ ys else y ∷ insert_by x ys

  unfoldable pub sort_by : List A → List A
  sort_by [] = []
  sort_by (x ∷ xs) = insert_by x (sort_by xs)

  -- Each element may stand before every later one.
  abbrev pub Sorted : List A → Type 0
  Sorted [] = Unit
  Sorted (x ∷ xs) = All (λ y. le x y ≡ true) xs × Sorted xs

  insert_by-Perm : (x : A) (ys : List A) → Perm (insert_by x ys) (x ∷ ys)
  unfolding insert_by
  insert_by-Perm x [] = Perm.rfl
  insert_by-Perm x (y ∷ ys) = elim (Bool-cases (le x y)) [
    | inl front ↦ rw front Perm.rfl
    | inr behind ↦ rw behind (Perm.trans (Perm.cons y (insert_by-Perm x ys)) (Perm.swap x y ys))
  ]

  -- The sort keeps the elements.
  pub sort_by-Perm : (xs : List A) → Perm (sort_by xs) xs
  unfolding sort_by
  sort_by-Perm [] = Perm.rfl
  sort_by-Perm (x ∷ xs) = Perm.trans (insert_by-Perm x (sort_by xs)) (Perm.cons x (sort_by-Perm xs))

  All-inserted : (P : A → Type 0) (x : A) (ys : List A) → P x → All P ys → All P (insert_by x ys)
  unfolding insert_by
  All-inserted P x [] h k = (h, tt)
  All-inserted P x (y ∷ ys) h (p, k) = elim (Bool-cases (le x y)) [
    | inl front ↦ rw front (h, (p, k))
    | inr behind ↦ rw behind (p, All-inserted P x ys h k)
  ]

  -- What holds of each element holds after the sort.
  pub All-sort_by : (P : A → Type 0) (xs : List A) → All P xs → All P (sort_by xs)
  unfolding sort_by
  All-sort_by P [] h = tt
  All-sort_by P (x ∷ xs) (p, h) = All-inserted P x (sort_by xs) p (All-sort_by P xs h)

  any-insert_by : (p : A → Bool) (x : A) (ys : List A) → any p (insert_by x ys) ≡ (p x || any p ys)
  unfolding insert_by
  any-insert_by p x [] = refl
  any-insert_by p x (y ∷ ys) = ground (arith, any-insert_by p x ys)

  pub any-sort_by : (p : A → Bool) (xs : List A) → any p (sort_by xs) ≡ any p xs
  unfolding sort_by
  any-sort_by p [] = refl
  any-sort_by p (x ∷ xs) = rw (any-insert_by p x (sort_by xs), any-sort_by p xs) refl

  module _ (total : (x y : A) → le x y ≡ false → le y x ≡ true)
      (trans : (x y z : A) → le x y ≡ true → le y z ≡ true → le x z ≡ true) where
    All-le :
        (x y : A) (ys : List A)
        → le x y ≡ true
        → All (λ z. le y z ≡ true) ys
        → All (λ z. le x z ≡ true) ys
    All-le x y [] h k = tt
    All-le x y (z ∷ ys) h (p, k) = (trans x y z h p, All-le x y ys h k)

    All-insert_by :
        (x y : A) (ys : List A)
        → le x y ≡ true
        → All (λ z. le x z ≡ true) ys
        → All (λ z. le x z ≡ true) (insert_by y ys)
    unfolding insert_by
    All-insert_by x y [] h k = (h, tt)
    All-insert_by x y (z ∷ ys) h (p, k) = elim (Bool-cases (le y z)) [
      | inl front ↦ rw front (h, (p, k))
      | inr behind ↦ rw behind (p, All-insert_by x y ys h k)
    ]

    insert_by-Sorted : (x : A) (ys : List A) → Sorted ys → Sorted (insert_by x ys)
    unfolding insert_by
    insert_by-Sorted x [] h = (tt, tt)
    insert_by-Sorted x (y ∷ ys) (p, h) = elim (Bool-cases (le x y)) [
      | inl front ↦ rw front ((front, All-le x y ys front p), (p, h))
      | inr behind ↦ rw behind (All-insert_by y x ys (total x y behind) p, insert_by-Sorted x ys h)
    ]

    -- The sort puts the elements in order.
    pub sort_by-Sorted : (xs : List A) → Sorted (sort_by xs)
    unfolding sort_by
    sort_by-Sorted [] = tt
    sort_by-Sorted (x ∷ xs) = insert_by-Sorted x (sort_by xs) (sort_by-Sorted xs)

    insert_by-front : (x : A) (ys : List A) → All (λ y. le x y ≡ true) ys → insert_by x ys ≡ x ∷ ys
    unfolding insert_by
    insert_by-front x [] h = refl
    insert_by-front x (y ∷ ys) h = rw h.0 refl

    All-retain :
        (p : A → Bool) (x : A) (ys : List A)
        → All (λ y. le x y ≡ true) ys
        → All (λ y. le x y ≡ true) (retain p ys)
    All-retain p x [] h = tt
    All-retain p x (y ∷ ys) (f, h) = elim (Bool-cases (p y)) [
      | inl keep ↦ rw keep (f, All-retain p x ys h)
      | inr skip ↦ rw skip (All-retain p x ys h)
    ]

    retain-insert_by :
        (p : A → Bool) (x : A) (ys : List A)
        → Sorted ys
        → retain p (insert_by x ys) ≡ (if p x then insert_by x (retain p ys) else retain p ys)
    unfolding insert_by
    retain-insert_by p x [] h = refl
    retain-insert_by p x (y ∷ ys) (f, h) = elim (Bool-cases (le x y)) [
      | inl front ↦
          let first =
            insert_by-front x (retain p (y ∷ ys))
              (All-retain p x (y ∷ ys) (front, All-le x y ys front f)) in
          rw (front, first) refl
      | inr behind ↦
          rw (behind, retain-insert_by p x ys h)
            (elim (Bool-cases (p y)) [
              | inl keep ↦ rw keep (elim (Bool-cases (p x)) [
                | inl want ↦ rw (want, behind) refl
                | inr unwanted ↦ rw unwanted refl
              ])
              | inr skip ↦ rw skip refl
            ])
    ]

    -- A test that is applied before the sort or after it leaves the same list.
    pub retain-sort_by :
        (p : A → Bool) (xs : List A) → retain p (sort_by xs) ≡ sort_by (retain p xs)
    unfolding sort_by
    retain-sort_by p [] = refl
    retain-sort_by p (x ∷ xs) =
        retain-insert_by p x (sort_by xs) (sort_by-Sorted xs) ∙ elim (Bool-cases (p x)) [
          | inl keep ↦ rw (keep, retain-sort_by p xs) refl
          | inr skip ↦ rw (skip, retain-sort_by p xs) refl
        ]
