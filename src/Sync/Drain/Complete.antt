-- ===== src/Sync/Drain/Complete.antt =====
-- The loop over the pages of one message table reads what lies behind the watermark, each row once
-- and in order, and says truly whether anything is left.
use mathlib.Core.Bool.{true≢false}
use native.Mathlib.Nat.{suc-mul}
use weflow_server.Base.{
  ℕ, zero, suc, ◌+◌, ◌*◌, ◌≤◌, ◌<◌, ◌≡◌, refl, sym, ap, ◌∙◌, Bool, true, false, not, List, [], ◌∷◌,
  ◌++◌, Option, some, arith, leb, length, take, drop, retain, All, length-take, length-drop,
  Bool-cases, ◌⊎◌, inl, inr, All-take, take_of_length-le,
}
use weflow_server.Store.{MessageRecord, Watermark}
use weflow_server.Sync.Drain.{before, watermark_of, advance, Drained, after_page, drain}
use weflow_server.Sync.Drain.Order.{before_irrefl, before_trans, before_asymm}

-- The rows of a table behind a watermark.
abbrev pub behind : Watermark → List MessageRecord → List MessageRecord
behind wm rows = retain (λ r. before wm (watermark_of r)) rows

-- Each row of the list is behind the watermark.
abbrev pub Behind : Watermark → List MessageRecord → Type 0
Behind wm = All (λ r. before wm (watermark_of r) ≡ true)

-- The rows of a table in the order of the query, no two with the same place.
abbrev pub Sorted : List MessageRecord → Type 0
Sorted [] = Unit
Sorted (r ∷ rs) = Behind (watermark_of r) rs × Sorted rs

Behind-later :
    (a b : Watermark) (rs : List MessageRecord) → before a b ≡ true → Behind b rs → Behind a rs
Behind-later a b [] h k = tt
Behind-later a b (r ∷ rs) h k = (before_trans a b _ h k.0, Behind-later a b rs h k.1)

behind-all : (wm : Watermark) (rs : List MessageRecord) → Behind wm rs → behind wm rs ≡ rs
behind-all wm [] h = refl
behind-all wm (r ∷ rs) h = rw (h.0, behind-all wm rs h.1)

Behind-behind : (wm : Watermark) (rs : List MessageRecord) → Behind wm (behind wm rs)
Behind-behind wm [] = tt
Behind-behind wm (r ∷ rs) = elim (Bool-cases (before wm (watermark_of r))) [
  | inl h ↦ rw h (h, Behind-behind wm rs)
  | inr h ↦ rw h (Behind-behind wm rs)
]

-- Filtering keeps the order.
behind-Behind : (a b : Watermark) (rs : List MessageRecord) → Behind b rs → Behind b (behind a rs)
behind-Behind a b [] h = tt
behind-Behind a b (r ∷ rs) h = elim (Bool-cases (before a (watermark_of r))) [
  | inl k ↦ rw k (h.0, behind-Behind a b rs h.1)
  | inr k ↦ rw k (behind-Behind a b rs h.1)
]

behind-Sorted : (wm : Watermark) (rs : List MessageRecord) → Sorted rs → Sorted (behind wm rs)
behind-Sorted wm [] h = tt
behind-Sorted wm (r ∷ rs) h = elim (Bool-cases (before wm (watermark_of r))) [
  | inl k ↦ rw k (behind-Behind wm _ rs h.0, behind-Sorted wm rs h.1)
  | inr k ↦ rw k (behind-Sorted wm rs h.1)
]

-- A later watermark leaves the same rows whether or not an earlier one was applied before it.
behind-later :
    (a b : Watermark) (rs : List MessageRecord)
    → (a ≡ b) ⊎ (before a b ≡ true)
    → behind b (behind a rs) ≡ behind b rs
behind-later a b [] h = refl
behind-later a b (r ∷ rs) h = elim (Bool-cases (before a (watermark_of r))) [
  | inl k ↦ rw (k, behind-later a b rs h)
  | inr k ↦
      let unread : before b (watermark_of r) ≡ false =
        elim (Bool-cases (before b (watermark_of r))) [
          | inl later ↦ elim h [
            | inl e ↦ absurd (true≢false (sym later ∙ rw (← e) k))
            | inr h ↦ absurd (true≢false (sym (before_trans a b _ h later) ∙ k))
          ]
          | inr l ↦ l
        ] in
      rw (k, unread, behind-later a b rs h)
]

advance-forward :
    (wm : Watermark) (rs : List MessageRecord)
    → Sorted rs
    → Behind wm rs
    → (wm ≡ advance wm rs) ⊎ (before wm (advance wm rs) ≡ true)
unfolding advance
advance-forward wm [] s h = inl refl
advance-forward wm (r ∷ rs) s h = inr (elim (advance-forward (watermark_of r) rs s.1 s.0) [
  | inl e ↦ rw (← e) h.0
  | inr k ↦ before_trans wm _ _ h.0 k
])

Sorted-take : (n : ℕ) (rs : List MessageRecord) → Sorted rs → Sorted (take n rs)
Sorted-take zero rs s = tt
Sorted-take (suc n) [] s = tt
Sorted-take (suc n) (r ∷ rs) s = (All-take _ n rs s.0, Sorted-take n rs s.1)

-- The place reached after a page, and the rows that are left behind it.
behind-advance :
    (page : ℕ) (wm : Watermark) (rs : List MessageRecord)
    → Sorted rs
    → Behind wm rs
    → behind (advance wm (take page rs)) rs ≡ drop page rs
unfolding advance
behind-advance zero wm rs s h = behind-all wm rs h
behind-advance (suc page) wm [] s h = refl
behind-advance (suc page) wm (r ∷ rs) s h =
    let next : Watermark = advance (watermark_of r) (take page rs) in
    let past : before next (watermark_of r) ≡ false =
      elim (advance-forward (watermark_of r) (take page rs) (Sorted-take page rs s.1)
        (All-take _ page rs s.0)) [
          | inl e ↦ rw (← e) (before_irrefl (watermark_of r))
          | inr k ↦ before_asymm _ _ k
        ] in
    rw past (behind-advance page (watermark_of r) rs s.1 s.0)

take-nil : (n : ℕ) → take {A = MessageRecord} n [] ≡ []
take-nil zero = refl
take-nil (suc n) = refl

take-add : (m n : ℕ) (rs : List MessageRecord) → take m rs ++ take n (drop m rs) ≡ take (m + n) rs
take-add zero n rs = let e : 0 + n ≡ n = omega arith in rw e refl
take-add (suc m) n [] = let e : suc m + n ≡ suc (m + n) = omega arith in rw (e, take-nil n) refl
take-add (suc m) n (r ∷ rs) =
    let e : suc m + n ≡ suc (m + n) = omega arith in rw e (ap (◌∷◌ r) (take-add m n rs))

advance-append :
    (wm : Watermark) (xs ys : List MessageRecord)
    → advance wm (xs ++ ys) ≡ advance (advance wm xs) ys
unfolding advance
advance-append wm [] ys = refl
advance-append wm (x ∷ xs) ys = advance-append (watermark_of x) xs ys

abbrev drained : Watermark → List MessageRecord → Bool → Drained
drained wm rs all = record { rows = rs; cursor = advance wm rs; drained_all = all }

-- What the loop is to return when `left` rows are behind the watermark and `most` may be read.
abbrev pub drained_of : ℕ → Watermark → List MessageRecord → Drained
drained_of most wm left = drained wm (take most left) (not (leb most (length left)))

-- Two results agree when their rows do, the cursor standing behind them, and their flags do.
drained-eq :
    (wm : Watermark) {xs ys : List MessageRecord} {b c : Bool}
    → xs ≡ ys
    → b ≡ c
    → some (drained wm xs b) ≡ some (drained wm ys c)
drained-eq wm e f = rw (e, f) refl

after_page-drained_of :
    (page most : ℕ) (wm : Watermark) (left : List MessageRecord)
    → page ≤ length left
    → some (
        after_page
          (take page left)
          (drained_of most (advance wm (take page left)) (drop page left)))
      ≡ some (drained_of (page + most) wm left)
after_page-drained_of page most wm left le =
    rw (← advance-append wm (take page left) (take most (drop page left)))
      (drained-eq wm (take-add page most left) (let e = length-drop page left in ground arith))

pages-more : (page pages : ℕ) → suc (suc pages) * page ≡ page + suc pages * page
pages-more page pages = suc-mul (suc pages) page ∙ omega arith

page-fits : (page pages : ℕ) → page ≤ suc (suc pages) * page
page-fits page pages = rw (pages-more page pages) (omega arith)

-- A table whose rows have each their own place in the order of the query, read by a query that
-- returns the first `page` rows behind its watermark: the loop stops, and returns the rows behind
-- the watermark in order, all of them or as many as the allowed pages hold, the watermark of the
-- last one, and the flag that nothing is left exactly when fewer rows were there than those pages
-- hold.
pub drain_complete :
    (rows : List MessageRecord) (page pages : ℕ) (wm : Watermark)
    (read : Watermark → Option (List MessageRecord))
    → Sorted rows
    → 0 < page
    → ((w : Watermark) → read w ≡ some (take page (behind w rows)))
    → drain read page (suc pages) wm ≡ some (drained_of (suc pages * page) wm (behind wm rows))
unfolding drain
drain_complete rows page zero wm read s pos sql = rw (sql wm) (
    drained-eq wm (let e : page ≡ 1 * page = omega arith in rw (← e) refl)
      (let e = length-take page (behind wm rows) in ground arith))
drain_complete rows page (suc pages) wm read s pos sql =
    let left : List MessageRecord = behind wm rows in
    let next : Watermark = advance wm (take page left) in
    let whole = length-take page left in
    let tail : behind next rows ≡ drop page left =
      sym (
        behind-later wm next rows (
          advance-forward wm (take page left) (Sorted-take page left (behind-Sorted wm rows s))
            (All-take _ page left (Behind-behind wm rows))))
      ∙ behind-advance page wm left (behind-Sorted wm rows s) (Behind-behind wm rows) in
    rw (sql wm, drain_complete rows page pages next read s pos sql, tail)
      (elim (Bool-cases (leb page (length (take page left)))) [
        | inl full ↦
            rw (full, pages-more page pages)
              (after_page-drained_of page (suc pages * page) wm left (ground arith))
        | inr short ↦ rw (short) (
            drained-eq wm
              (let few : length left ≤ page = ground arith in
                take_of_length-le page left few
                ∙ sym (take_of_length-le _ left (omega (arith, few, page-fits page pages))))
              (let some_pages = page-fits page pages in ground arith))
      ])
