-- ===== src/Sync/Drain/Order.antt =====
-- The order of the watermarks is strict.
use mathlib.Core.Bool.{true≢false}
use weflow_server.Base.{
  ◌≡◌, sym, ◌∙◌, Bool, true, false, arith, Bool-cases, ◌||◌, ◌&&◌, ◌↔◌, ◌⊎◌, inl, inr,
}
use weflow_server.Base.Int.{ℤ, ltb_ℤ, eqb_ℤ}
use weflow_server.Store.{Watermark}
use weflow_server.Sync.Drain.{before}

-- The order of the triples is that of numbers.
pub before_irrefl : (a : Watermark) → before a a ≡ false
unfolding before
before_irrefl a = ground arith

-- `a < b`, in the three ways that the triples can show it.
abbrev pub Lex : Bool → Bool → Bool → Bool → Bool → Type 0
Lex t t= q q= l = (t ≡ true) ⊎ ((t= ≡ true) × ((q ≡ true) ⊎ ((q= ≡ true) × (l ≡ true))))

pub Lex-iff : (t t= q q= l : Bool) → ((t || (t= && (q || (q= && l)))) ≡ true) ↔ Lex t t= q q= l
Lex-iff t t= q q= l = ground arith

pub lt_trans : (a b c : ℤ) → ltb_ℤ a b ≡ true → ltb_ℤ b c ≡ true → ltb_ℤ a c ≡ true
lt_trans a b c h k = ground arith

pub lt_eq : (a b c : ℤ) → ltb_ℤ a b ≡ true → eqb_ℤ b c ≡ true → ltb_ℤ a c ≡ true
lt_eq a b c h k = ground arith

pub eq_lt : (a b c : ℤ) → eqb_ℤ a b ≡ true → ltb_ℤ b c ≡ true → ltb_ℤ a c ≡ true
eq_lt a b c h k = ground arith

pub eq_trans : (a b c : ℤ) → eqb_ℤ a b ≡ true → eqb_ℤ b c ≡ true → eqb_ℤ a c ≡ true
eq_trans a b c h k = ground arith

pub before-Lex :
    (a b : Watermark)
    → (before a b ≡ true)
      ↔ Lex
          (ltb_ℤ a.create_time b.create_time)
          (eqb_ℤ a.create_time b.create_time)
          (ltb_ℤ a.sort_seq b.sort_seq)
          (eqb_ℤ a.sort_seq b.sort_seq)
          (ltb_ℤ a.local_id b.local_id)
unfolding before
before-Lex a b = Lex-iff _ _ _ _ _

pub before_trans : (a b c : Watermark) → before a b ≡ true → before b c ≡ true → before a c ≡ true
before_trans a b c h k = (before-Lex a c).1 (elim ((before-Lex a b).0 h) [
  | inl t ↦ inl (elim ((before-Lex b c).0 k) [
    | inl u ↦ lt_trans a.create_time b.create_time c.create_time t u
    | inr u ↦ lt_eq a.create_time b.create_time c.create_time t u.0
  ])
  | inr (t, inl q) ↦ elim ((before-Lex b c).0 k) [
    | inl u ↦ inl (eq_lt a.create_time b.create_time c.create_time t u)
    | inr (u, inl r) ↦ inr (
      eq_trans a.create_time b.create_time c.create_time t u,
      inl (lt_trans a.sort_seq b.sort_seq c.sort_seq q r),
    )
    | inr (u, inr r) ↦ inr (
      eq_trans a.create_time b.create_time c.create_time t u,
      inl (lt_eq a.sort_seq b.sort_seq c.sort_seq q r.0),
    )
  ]
  | inr (t, inr (q, l)) ↦ elim ((before-Lex b c).0 k) [
    | inl u ↦ inl (eq_lt a.create_time b.create_time c.create_time t u)
    | inr (u, inl r) ↦ inr (
      eq_trans a.create_time b.create_time c.create_time t u,
      inl (eq_lt a.sort_seq b.sort_seq c.sort_seq q r),
    )
    | inr (u, inr (r, m)) ↦ inr (
      eq_trans a.create_time b.create_time c.create_time t u,
      inr (
        eq_trans a.sort_seq b.sort_seq c.sort_seq q r,
        lt_trans a.local_id b.local_id c.local_id l m,
      ),
    )
  ]
])

pub before_asymm : (a b : Watermark) → before a b ≡ true → before b a ≡ false
before_asymm a b h = elim (Bool-cases (before b a)) [
  | inl k ↦ absurd (true≢false (sym (before_trans a b a h k) ∙ before_irrefl a))
  | inr k ↦ k
]
