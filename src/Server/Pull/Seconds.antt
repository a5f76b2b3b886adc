-- ===== src/Server/Pull/Seconds.antt =====
-- A page of a pull ends on a whole second, and the next pull goes on right behind it.
use weflow_server.Base.{
  ℕ, ◌≤◌, ◌≡◌, refl, sym, ap, ◌∙◌, inl, inr, ◌⊎◌, Bool, true, false, not, List, [], ◌∷◌, ◌++◌,
  Option, none, some, arith, if◌then◌else◌, length, retain, All, All-retained, last?, unwrap_or,
  option_map, Bool-cases, not-eq-true, and-eq-true,
}
use weflow_server.Base.Int.{ℤ, ltb_ℤ, leb_ℤ}
use weflow_server.Base.Sort
use weflow_server.Base.Sort.{sort_by, sort_by-Sorted, retain-sort_by, All-sort_by}
use weflow_server.Store.{MessageRecord, Watermark}
use weflow_server.Sync.Drain.{before, watermark_of}
use weflow_server.Sync.Drain.Order.{before_asymm}
use weflow_server.Sync.Drain.Total.{before_weak}
use weflow_server.Server.Pull.{
  in_range, oldest_first, ascending, take_seconds, is_nonempty, pull_page,
}
use weflow_server.Server.Pull.Split.{
  take_seconds-append, last_time, NotBefore, After, UpTo, InTime, take_seconds-split,
  take_seconds-limit,
}

not-eq-false : (b : Bool) → not b ≡ false → b ≡ true
not-eq-false b h = ground arith

not_lt : (a b : ℤ) → ltb_ℤ b a ≡ false → leb_ℤ a b ≡ true
not_lt a b h = ground arith

before-time : (a b : Watermark) → ltb_ℤ a.create_time b.create_time ≡ true → before a b ≡ true
unfolding before
before-time a b h = rw h refl

oldest_first_total : (x y : MessageRecord) → oldest_first x y ≡ false → oldest_first y x ≡ true
oldest_first_total a b h =
    rw (before_asymm (watermark_of b) (watermark_of a) (not-eq-false _ h)) refl

oldest_first_trans :
    (x y z : MessageRecord)
    → oldest_first x y ≡ true
    → oldest_first y z ≡ true
    → oldest_first x z ≡ true
oldest_first_trans a b c h g =
    rw
      (before_weak (watermark_of c) (watermark_of b) (watermark_of a) (not-eq-true _ g)
        (not-eq-true _ h))
      refl

oldest_first-time :
    (a b : MessageRecord) → oldest_first a b ≡ true → leb_ℤ a.create_time b.create_time ≡ true
unfolding watermark_of
oldest_first-time a b h = elim (Bool-cases (ltb_ℤ b.create_time a.create_time)) [
  | inl l ↦
      absurd
        (let e = before-time (watermark_of b) (watermark_of a) l in let f = not-eq-true _ h in cc)
  | inr l ↦ not_lt a.create_time b.create_time l
]

Sorted-NotBefore :
    (m : MessageRecord) (ms : List MessageRecord)
    → All (λ y. oldest_first m y ≡ true) ms
    → NotBefore m.create_time ms
Sorted-NotBefore m [] h = tt
Sorted-NotBefore m (x ∷ ms) (p, h) = (oldest_first-time m x p, Sorted-NotBefore m ms h)

Sorted-InTime : (ms : List MessageRecord) → Sort.Sorted oldest_first ms → InTime ms
Sorted-InTime [] h = tt
Sorted-InTime (m ∷ ms) (p, h) = (Sorted-NotBefore m ms p, Sorted-InTime ms h)

ascending-InTime :
    (since end : Option ℤ) (conv : List MessageRecord) → InTime (ascending since end conv)
unfolding ascending
ascending-InTime since end conv =
    Sorted-InTime _ (sort_by-Sorted oldest_first oldest_first_total oldest_first_trans _)

-- The rows after a time are what stands behind those up to it.
abbrev after_time : ℤ → MessageRecord → Bool
after_time t m = ltb_ℤ t m.create_time

not_after : (t u : ℤ) → leb_ℤ u t ≡ true → ltb_ℤ t u ≡ false
not_after t u h = ground arith

retain-After : (t : ℤ) (ms : List MessageRecord) → After t ms → retain (after_time t) ms ≡ ms
retain-After t [] h = refl
retain-After t (m ∷ ms) (p, h) = rw (p, retain-After t ms h) refl

retain-split :
    (t : ℤ) (xs ys : List MessageRecord)
    → UpTo t xs
    → After t ys
    → retain (after_time t) (xs ++ ys) ≡ ys
retain-split t [] ys h k = retain-After t ys k
retain-split t (x ∷ xs) ys (p, h) k = rw (not_after t x.create_time p) (retain-split t xs ys h k)

-- Later lower bounds can be applied afterwards.
retain-in_range :
    (t : ℤ) (since end : Option ℤ) (ms : List MessageRecord)
    → ((u : ℤ) → ltb_ℤ t u ≡ true → unwrap_or (option_map (λ s. ltb_ℤ s u) since) true ≡ true)
    → retain (in_range (some t) end) ms ≡ retain (after_time t) (retain (in_range since end) ms)
retain-in_range t since end [] h = refl
retain-in_range t since end (m ∷ ms) h = elim (Bool-cases (ltb_ℤ t m.create_time)) [
  | inl later ↦
      rw (later, h m.create_time later, retain-in_range t since end ms h)
        (elim (Bool-cases (unwrap_or (option_map (λ e. leb_ℤ m.create_time e) end) true)) [
          | inl inside ↦ rw (inside, later) refl
          | inr outside ↦ rw outside refl
        ])
  | inr earlier ↦
      rw (earlier, retain-in_range t since end ms h)
        (elim (Bool-cases (in_range since end m)) [
          | inl inside ↦ rw (inside, earlier) refl
          | inr outside ↦ rw outside refl
        ])
]

last-last_time :
    (m : MessageRecord) (ms : List MessageRecord)
    → option_map (λ (x : MessageRecord). x.create_time) (last? (m ∷ ms))
      ≡ some (last_time m.create_time ms)
last-last_time m [] = refl
last-last_time m (x ∷ ms) = last-last_time x ms

-- What a page, the time of its last message, and what is left behind it have to do with each other.
abbrev Cut : ℤ → List MessageRecord × List MessageRecord → Type 0
Cut t split = After t split.1 × UpTo t split.0

first-page :
    (limit : ℕ) (m : MessageRecord) (ms : List MessageRecord)
    → InTime (m ∷ ms)
    → (t : ℤ) × (option_map
          (λ (x : MessageRecord). x.create_time)
          (last? (take_seconds limit 0 none (m ∷ ms)).0)
        ≡ some t)
      × Cut t (take_seconds limit 0 none (m ∷ ms))
      × (leb_ℤ m.create_time t ≡ true)
unfolding take_seconds
first-page limit m ms (q, s) =
    let split = take_seconds-split limit 1 m.create_time ms q s in
    (
      last_time m.create_time (take_seconds limit 1 (some m.create_time) ms).0,
      last-last_time m (take_seconds limit 1 (some m.create_time) ms).0,
      (split.0, (split.2, split.1)),
      split.2,
    )

-- The rows of a request with a later lower bound.
ascending-later :
    (t : ℤ) (since end : Option ℤ) (conv : List MessageRecord)
    → ((u : ℤ) → ltb_ℤ t u ≡ true → unwrap_or (option_map (λ s. ltb_ℤ s u) since) true ≡ true)
    → ascending (some t) end conv ≡ retain (after_time t) (ascending since end conv)
unfolding ascending
ascending-later t since end conv h = rw (retain-in_range t since end conv h) (
    sym (
      retain-sort_by oldest_first oldest_first_total oldest_first_trans (after_time t)
        (retain (in_range since end) conv)))

ascending-in_range :
    (since end : Option ℤ) (conv : List MessageRecord)
    → All (λ m. in_range since end m ≡ true) (ascending since end conv)
unfolding ascending
ascending-in_range since end conv =
    All-sort_by oldest_first _ _ (All-retained (in_range since end) conv)

lt_trans : (s m t u : ℤ) → ltb_ℤ s m ≡ true → leb_ℤ m t ≡ true → ltb_ℤ t u ≡ true → ltb_ℤ s u ≡ true
lt_trans s m t u h k l = ground arith

-- A first row lies in the range of its request.
ascending-after :
    (since end : Option ℤ) (conv : List MessageRecord) (m : MessageRecord) (ms : List MessageRecord)
    (t : ℤ)
    → ascending since end conv ≡ m ∷ ms
    → leb_ℤ m.create_time t ≡ true
    → (u : ℤ) → ltb_ℤ t u ≡ true
    → unwrap_or (option_map (λ s. ltb_ℤ s u) since) true ≡ true
ascending-after none end conv m ms t e h u k = refl
ascending-after (some s) end conv m ms t e h u k =
    let first = (rw e at (ascending-in_range (some s) end conv)).0 in
    lt_trans s m.create_time t u (and-eq-true _ _ first).0 h k

nonempty-false : (ms : List MessageRecord) → is_nonempty ms ≡ false → ms ≡ []
nonempty-false [] h = refl
nonempty-false (m ∷ ms) h = absurd cc

take_seconds-nil : (limit : ℕ) → take_seconds limit 0 none [] ≡ ([], [])
unfolding take_seconds
take_seconds-nil limit = refl

resume :
    (since end : Option ℤ) (now : ℤ) (limit : ℕ) (conv rows : List MessageRecord)
    → ascending since end conv ≡ rows
    → (ascending since end conv
        ≡ (pull_page since end now limit 0 conv).messages
          ++ (if (pull_page since end now limit 0 conv).sync.has_more
              then ascending (some (pull_page since end now limit 0 conv).sync.next_since) end conv
              else []))
      × (((pull_page since end now limit 0 conv).sync.has_more ≡ false)
          ⊎ (limit ≤ length (pull_page since end now limit 0 conv).messages))
unfolding pull_page
resume since end now limit conv [] e = rw (e, take_seconds-nil limit) (refl, inl refl)
resume since end now limit conv (m ∷ ms) e =
    let page = first-page limit m ms (rw e at (ascending-InTime since end conv)) in
    let whole = take_seconds-append limit 0 none (m ∷ ms) in
    let later =
      ascending-later page.0 since end conv (ascending-after since end conv m ms page.0 e page.3) in
    let kept =
      later
      ∙ ap (retain (after_time page.0)) (e ∙ sym whole)
      ∙ retain-split page.0 _ _ page.2.1 page.2.0 in
    elim (Bool-cases (is_nonempty (take_seconds limit 0 none (m ∷ ms)).1)) [
      | inl more ↦
          let full = take_seconds-limit limit 0 none (m ∷ ms) more in
          rw (e, more, page.1, kept) (sym whole, inr (omega arith))
      | inr done ↦
          rw (e, done)
            (
              sym whole ∙ ap (◌++◌ (take_seconds limit 0 none (m ∷ ms)).0) (nonempty-false _ done),
              inl refl,
            )
    ]

-- The messages of a request without an offset, in order, are those of its page, followed by those of
-- the next request, which names the page's `nextSince`, as long as the page says that there is
-- more; a page of which there is more holds at least as many messages as were asked for.
pub pull_page-resume :
    (since end : Option ℤ) (now : ℤ) (limit : ℕ) (conv : List MessageRecord)
    → (ascending since end conv
        ≡ (pull_page since end now limit 0 conv).messages
          ++ (if (pull_page since end now limit 0 conv).sync.has_more
              then ascending (some (pull_page since end now limit 0 conv).sync.next_since) end conv
              else []))
      × (((pull_page since end now limit 0 conv).sync.has_more ≡ false)
          ⊎ (limit ≤ length (pull_page since end now limit 0 conv).messages))
pull_page-resume since end now limit conv =
    resume since end now limit conv (ascending since end conv) refl
