-- ===== src/Sync/Drain/Total.antt =====
-- The order of the watermarks is total.
use weflow_server.Base.{◌≡◌, ◌∙◌, inl, inr, Bool, true, false, ◌||◌, arith, Bool-cases}
use weflow_server.Base.Int.{ℤ, ltb_ℤ, eqb_ℤ, eqb_ℤ_iff}
use weflow_server.Store.{Watermark}
use weflow_server.Sync.Drain.{before}
use weflow_server.Sync.Drain.Order.{before_trans}

or-false : (a b : Bool) → (a || b) ≡ false → (a ≡ false) × (b ≡ false)
or-false a b h = ground arith

ltb_ℤ-connex : (a b : ℤ) → ltb_ℤ a b ≡ false → ltb_ℤ b a ≡ false → eqb_ℤ a b ≡ true
ltb_ℤ-connex a b h k = ground arith

eqb_ℤ_comm : (a b : ℤ) → eqb_ℤ a b ≡ eqb_ℤ b a
eqb_ℤ_comm a b = ground arith

watermark-eq :
    (a b : Watermark)
    → a.create_time ≡ b.create_time
    → a.sort_seq ≡ b.sort_seq
    → a.local_id ≡ b.local_id
    → a ≡ b
watermark-eq a b t q l = λ i. record { create_time = t i; sort_seq = q i; local_id = l i }

-- Of two places that are not one before the other, one field after the other is the same.
before-connex : (a b : Watermark) → before a b ≡ false → before b a ≡ false → a ≡ b
unfolding before
before-connex a b h k =
    let (t, h) = or-false _ _ h in
    let (u, k) = or-false _ _ k in
    let time = ltb_ℤ-connex a.create_time b.create_time t u in
    let (q, h) = or-false _ _ (rw time at h) in
    let (r, k) = or-false _ _ (rw (eqb_ℤ_comm b.create_time a.create_time ∙ time) at k) in
    let seq = ltb_ℤ-connex a.sort_seq b.sort_seq q r in
    let l = rw seq at h in
    let m = rw (eqb_ℤ_comm b.sort_seq a.sort_seq ∙ seq) at k in
    watermark-eq a b ((eqb_ℤ_iff _ _).0 time) ((eqb_ℤ_iff _ _).0 seq)
      ((eqb_ℤ_iff _ _).0 (ltb_ℤ-connex a.local_id b.local_id l m))

-- What is not after a second place, and that not after a third, is not after the third.
pub before_weak : (a b c : Watermark) → before a b ≡ false → before b c ≡ false → before a c ≡ false
before_weak a b c h k = elim (Bool-cases (before b a)) [
  | inl g ↦ elim (Bool-cases (before a c)) [
    | inl l ↦ absurd (let e = before_trans b a c g l in cc)
    | inr l ↦ l
  ]
  | inr g ↦ rw (before-connex a b h g) k
]
