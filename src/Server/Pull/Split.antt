-- ===== src/Server/Pull/Split.antt =====
-- How a page of a pull and what is left behind it divide the rows.
use weflow_server.Base.{
  ℕ, suc, ◌+◌, ◌≤◌, ◌≡◌, refl, ap, inl, inr, true, not, ◌&&◌, List, [], ◌∷◌, ◌++◌, Option, some,
  arith, leb, length, All, Bool-cases, and-eq-true,
}
use weflow_server.Base.Int.{ℤ, ltb_ℤ, leb_ℤ, eqb_ℤ}
use weflow_server.Store.{MessageRecord}
use weflow_server.Server.Pull.{another_second, take_seconds, is_nonempty}

pub take_seconds-append :
    (limit taken : ℕ) (prev : Option ℤ) (rows : List MessageRecord)
    → (take_seconds limit taken prev rows).0 ++ (take_seconds limit taken prev rows).1 ≡ rows
unfolding take_seconds
take_seconds-append limit taken prev [] = refl
take_seconds-append limit taken prev (m ∷ ms) =
    elim (Bool-cases (another_second m.create_time prev && leb limit taken)) [
      | inl cut ↦ rw cut refl
      | inr on ↦ rw on (ap (◌∷◌ m) (take_seconds-append limit (suc taken) (some m.create_time) ms))
    ]

-- The time of the last message, or one from before.
abbrev pub last_time : ℤ → List MessageRecord → ℤ
last_time t [] = t
last_time t (m ∷ ms) = last_time m.create_time ms

-- Messages not before a time, and messages after it.
abbrev pub NotBefore : ℤ → List MessageRecord → Type 0
NotBefore t = All (λ m. leb_ℤ t m.create_time ≡ true)

abbrev pub After : ℤ → List MessageRecord → Type 0
After t = All (λ m. ltb_ℤ t m.create_time ≡ true)

abbrev pub UpTo : ℤ → List MessageRecord → Type 0
UpTo t = All (λ m. leb_ℤ m.create_time t ≡ true)

-- In order of their times.
abbrev pub InTime : List MessageRecord → Type 0
InTime [] = Unit
InTime (m ∷ ms) = NotBefore m.create_time ms × InTime ms

pub le_trans : (a b c : ℤ) → leb_ℤ a b ≡ true → leb_ℤ b c ≡ true → leb_ℤ a c ≡ true
le_trans a b c h k = ground arith

pub lt_le_trans : (a b c : ℤ) → ltb_ℤ a b ≡ true → leb_ℤ b c ≡ true → ltb_ℤ a c ≡ true
lt_le_trans a b c h k = ground arith

pub le_refl : (a : ℤ) → leb_ℤ a a ≡ true
le_refl a = ground arith

pub another-later : (t u : ℤ) → leb_ℤ t u ≡ true → not (eqb_ℤ t u) ≡ true → ltb_ℤ t u ≡ true
another-later t u h k = ground arith

pub After-later :
    (t u : ℤ) (ms : List MessageRecord) → ltb_ℤ t u ≡ true → NotBefore u ms → After t ms
After-later t u [] h k = tt
After-later t u (m ∷ ms) h (p, k) = (lt_le_trans t u m.create_time h p, After-later t u ms h k)

-- From a last time on: what is taken ends at a time that nothing left behind shares.
pub take_seconds-split :
    (limit taken : ℕ) (t : ℤ) (rows : List MessageRecord)
    → NotBefore t rows
    → InTime rows
    → After
        (last_time t (take_seconds limit taken (some t) rows).0)
        (take_seconds limit taken (some t) rows).1
      × UpTo
          (last_time t (take_seconds limit taken (some t) rows).0)
          (take_seconds limit taken (some t) rows).0
      × (leb_ℤ t (last_time t (take_seconds limit taken (some t) rows).0) ≡ true)
unfolding take_seconds
take_seconds-split limit taken t [] h s = (tt, tt, le_refl t)
take_seconds-split limit taken t (m ∷ ms) (p, h) (q, s) =
    elim (Bool-cases (another_second m.create_time (some t) && leb limit taken)) [
      | inl cut ↦
          let later = another-later t m.create_time p (and-eq-true _ _ cut).0 in
          rw cut ((later, After-later t m.create_time ms later q), tt, le_refl t)
      | inr on ↦
          let rest = take_seconds-split limit (suc taken) m.create_time ms q s in
          rw on (rest.0, (rest.2, rest.1), le_trans t m.create_time _ p rest.2)
    ]

-- A page that is cut has the limit's number of messages at least.
pub take_seconds-limit :
    (limit taken : ℕ) (prev : Option ℤ) (rows : List MessageRecord)
    → is_nonempty (take_seconds limit taken prev rows).1 ≡ true
    → limit ≤ taken + length (take_seconds limit taken prev rows).0
unfolding take_seconds
take_seconds-limit limit taken prev [] h = absurd cc
take_seconds-limit limit taken prev (m ∷ ms) h =
    elim (Bool-cases (another_second m.create_time prev && leb limit taken)) [
      | inl cut ↦
          let full = (and-eq-true (another_second m.create_time prev) (leb limit taken) cut).1 in
          rw cut (ground arith)
      | inr on ↦
          let rest = take_seconds-limit limit (suc taken) (some m.create_time) ms (rw on at h) in
          rw on (omega arith)
    ]
