-- ===== src/Sync/History/Order.antt =====
-- The ids of the replay buffer are consecutive up to the last one given, and what is replayed is
-- a part of them, with rising ids.
use weflow_server.Base.{
  ℕ, suc, ◌+◌, ◌^◌, ◌≤◌, ◌<◌, ◌≡◌, Bool, refl, sym, ◌∙◌, List, [], ◌∷◌, ◌++◌, map, arith, ltb,
  length, retain, Bool-cases, inl, inr,
}
use weflow_server.Sync.History.{
  HistoryItem, HistoryBuf, max_items, trim_front, append, clear, id_and_event, empty_history,
  next_id,
}

next_id-below : (n : ℕ) → n + 1 < 2 ^ 64 → next_id n ≡ suc n
next_id-below n room = omega arith

module _ {ℓ} {E : Type ℓ} where
  -- The pairs carry the ids `first + 1`, …, `last`, in this order.
  abbrev pub Runs : ℕ → List (ℕ × E) → ℕ → Type 0
  Runs first [] last = first ≡ last
  Runs first (p ∷ ps) last = (p.0 ≡ suc first) × Runs (suc first) ps last

  abbrev pub pairs : List (HistoryItem E) → List (ℕ × E)
  pairs = map id_and_event

  pub record IsValid (h : HistoryBuf E) : Type 0 where
    pub first : ℕ
    pub consecutive : Runs first (pairs h.items) h.last_id
    pub bounded : length h.items ≤ max_items
    pub in_u64 : h.last_id < 2 ^ 64

  pub Runs-append :
      (first mid last : ℕ) (ps qs : List (ℕ × E))
      → Runs first ps mid
      → Runs mid qs last
      → Runs first (ps ++ qs) last
  Runs-append first mid last [] qs h k = rw h k
  Runs-append first mid last (p ∷ ps) qs (e, h) k = (e, Runs-append (suc first) mid last ps qs h k)

  pairs-append : (xs ys : List (HistoryItem E)) → pairs (xs ++ ys) ≡ pairs xs ++ pairs ys
  pairs-append [] ys = refl
  pairs-append (x ∷ xs) ys = rw (pairs-append xs ys)

  -- Dropping from the front leaves a run that ends where it did.
  trim_front-Runs :
      (most first last : ℕ) (xs : List (HistoryItem E))
      → Runs first (pairs xs) last
      → (n : ℕ) × Runs n (pairs (trim_front most xs)) last × (length (trim_front most xs) ≤ most)
  unfolding trim_front
  trim_front-Runs most first last [] h = (first, h, omega arith)
  trim_front-Runs most first last (x ∷ xs) h = elim (Bool-cases (ltb most (length (x ∷ xs)))) [
    | inl over ↦ rw over (trim_front-Runs most (suc first) last xs h.1)
    | inr fits ↦ rw fits (first, h, ground arith)
  ]

  pub empty_history-IsValid : IsValid empty_history
  empty_history-IsValid = record {
    first = 0;
    consecutive = refl;
    bounded = omega arith;
    in_u64 = omega arith;
  }

  appended-Runs :
      (n now : ℕ) (event : E) (first last : ℕ) (xs : List (HistoryItem E))
      → n ≡ suc last
      → Runs first (pairs xs) last
      → Runs first (pairs (xs ++ record { id = n; at = now; event = event } ∷ [])) n
  appended-Runs n now event first last xs e h =
      rw (pairs-append xs (record { id = n; at = now; event = event } ∷ []))
        (Runs-append first last n (pairs xs) ((n, event) ∷ []) h (e, sym e))

  -- An append gives the id behind the last one, and keeps the ids consecutive and the buffer within
  -- its bound; a clear keeps the counter.
  pub append-IsValid :
      (now : ℕ) (event : E) (h : HistoryBuf E)
      → IsValid h
      → h.last_id + 1 < 2 ^ 64
      → IsValid (append now event h).0
        × ((append now event h).1 ≡ h.last_id + 1)
        × IsValid (clear h)
        × ((clear h).last_id ≡ h.last_id)
  unfolding append clear
  append-IsValid now event h v room =
      let e = next_id-below h.last_id room in
      let trimmed =
        trim_front-Runs max_items v.first (next_id h.last_id) _
          (appended-Runs (next_id h.last_id) now event v.first h.last_id h.items e v.consecutive) in
      (
        record {
          first = trimmed.0;
          consecutive = trimmed.1;
          bounded = trimmed.2;
          in_u64 = omega arith;
        },
        e ∙ omega arith,
        record { first = h.last_id; consecutive = refl; bounded = omega arith; in_u64 = v.in_u64 },
        refl,
      )

  -- The ids rise from above the first number, up to the last one at most.
  abbrev pub Rising : ℕ → List (ℕ × E) → ℕ → Type 0
  Rising first [] last = first ≤ last
  Rising first (p ∷ ps) last = (first < p.0) × Rising p.0 ps last

  Rising-later :
      (first mid last : ℕ) (ps : List (ℕ × E))
      → first ≤ mid
      → Rising mid ps last
      → Rising first ps last
  Rising-later first mid last [] le h = omega arith
  Rising-later first mid last (p ∷ ps) le h = (omega arith, h.1)

  pub Rising-append :
      (first mid last : ℕ) (ps qs : List (ℕ × E))
      → Rising first ps mid
      → Rising mid qs last
      → Rising first (ps ++ qs) last
  Rising-append first mid last [] qs h k = Rising-later first mid last qs h k
  Rising-append first mid last (p ∷ ps) qs h k = (h.0, Rising-append p.0 mid last ps qs h.1 k)

  -- Leaving items out of a run leaves the ids rising.
  pub retained-Rising :
      (keep : HistoryItem E → Bool) (first last : ℕ) (xs : List (HistoryItem E))
      → Runs first (pairs xs) last
      → Rising first (pairs (retain keep xs)) last
  retained-Rising keep first last [] h = omega arith
  retained-Rising keep first last (x ∷ xs) h =
      let rest = retained-Rising keep (suc first) last xs h.1 in
      elim (Bool-cases (keep x)) [
        | inl kept ↦ rw kept (omega arith, rw h.0 rest)
        | inr left ↦
            rw left
              (Rising-later first (suc first) last (pairs (retain keep xs)) (omega arith) rest)
      ]
