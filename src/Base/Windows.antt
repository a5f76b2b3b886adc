-- ===== src/Base/Windows.antt =====
-- Windows of a list, the elements from one place to another, and what a write elsewhere leaves of
-- them.
use Prim.Native.Nat.{ℕ, zero, suc, ◌+◌, ◌-◌, ◌≤◌}
use mathlib.Core.Path.{◌≡◌, refl, ap, ◌∙◌}
use mathlib.Core.List.{List, [], ◌∷◌, ◌++◌}
use native.Mathlib.Omega.{arith}
use weflow_server.Base.Lists.{length, take, drop, take-append-left, drop-append-left, drop-drop}

module _ {ℓ} {A : Type ℓ} where
  pub take_of_length : (n : ℕ) (xs ys : List A) → length xs ≡ n → take n (xs ++ ys) ≡ xs
  take_of_length n xs ys e = rw (← e) (take-append-left xs ys)

  pub drop_of_length : (n : ℕ) (xs ys : List A) → length xs ≡ n → drop n (xs ++ ys) ≡ ys
  drop_of_length n xs ys e = rw (← e) (drop-append-left xs ys)

  pub take_all : (n : ℕ) (xs : List A) → length xs ≡ n → take n xs ≡ xs
  take_all zero [] e = refl
  take_all zero (x ∷ xs) e = absurd (ground arith)
  take_all (suc n) [] e = refl
  take_all (suc n) (x ∷ xs) e = ap (◌∷◌ x) (take_all n xs (omega arith))

  take-take : (n m : ℕ) (xs : List A) → n ≤ m → take n (take m xs) ≡ take n xs
  take-take zero m xs h = refl
  take-take (suc n) zero xs h = absurd (omega arith)
  take-take (suc n) (suc m) [] h = refl
  take-take (suc n) (suc m) (x ∷ xs) h = ap (◌∷◌ x) (take-take n m xs (omega arith))

  pub window-take :
      (a n m : ℕ) (xs : List A) → a + n ≤ m → take n (drop a (take m xs)) ≡ take n (drop a xs)
  window-take zero n m xs h = take-take n m xs (omega arith)
  window-take (suc a) n zero xs h = absurd (omega arith)
  window-take (suc a) n (suc m) [] h = refl
  window-take (suc a) n (suc m) (x ∷ xs) h = window-take a n m xs (omega arith)

  take-append : (n : ℕ) (xs ys : List A) → n ≤ length xs → take n (xs ++ ys) ≡ take n xs
  take-append zero xs ys h = refl
  take-append (suc n) [] ys h = absurd (omega arith)
  take-append (suc n) (x ∷ xs) ys h = ap (◌∷◌ x) (take-append n xs ys (omega arith))

  pub window-append :
      (a n : ℕ) (xs ys : List A)
      → a + n ≤ length xs
      → take n (drop a (xs ++ ys)) ≡ take n (drop a xs)
  window-append zero n xs ys h = take-append n xs ys (omega arith)
  window-append (suc a) n [] ys h = absurd (omega arith)
  window-append (suc a) n (x ∷ xs) ys h = window-append a n xs ys (omega arith)

  pub drop-append :
      (a : ℕ) (xs ys : List A) → length xs ≤ a → drop a (xs ++ ys) ≡ drop (a - length xs) ys
  drop-append zero [] ys h = refl
  drop-append zero (x ∷ xs) ys h = absurd (omega arith)
  drop-append (suc a) [] ys h = let e : suc a - 0 ≡ suc a = omega arith in rw e refl
  drop-append (suc a) (x ∷ xs) ys h =
      let e : suc a - suc (length xs) ≡ a - length xs = omega arith in
      rw e (drop-append a xs ys (omega arith))

  -- `s[off..off + page.len()].copy_from_slice(page)`
  abbrev pub splice : ℕ → List A → List A → List A
  splice off page s = take off s ++ (page ++ drop (off + length page) s)

  module _ (off : ℕ) (page s : List A) where
    pub splice-here :
        (n : ℕ)
        → length (take off s) ≡ off
        → length page ≡ n
        → take n (drop off (splice off page s)) ≡ page
    splice-here n e l =
        rw (drop_of_length off (take off s) (page ++ drop (off + length page) s) e)
          (take_of_length n page (drop (off + length page) s) l)

    pub splice-before :
        (a n : ℕ)
        → length (take off s) ≡ off
        → a + n ≤ off
        → take n (drop a (splice off page s)) ≡ take n (drop a s)
    splice-before a n e h =
        window-append a n (take off s) (page ++ drop (off + length page) s) (omega arith)
        ∙ window-take a n off s h

    pub splice-behind :
        (a : ℕ)
        → length (take off s) ≡ off
        → off + length page ≤ a
        → drop a (splice off page s) ≡ drop a s
    splice-behind a e h =
        drop-append a (take off s) (page ++ drop (off + length page) s) (omega arith)
        ∙ drop-append (a - length (take off s)) page (drop (off + length page) s) (omega arith)
        ∙ drop-drop (off + length page) (a - length (take off s) - length page) s
        ∙ (let k : off + length page + (a - length (take off s) - length page) ≡ a = omega arith in
            rw k refl)
