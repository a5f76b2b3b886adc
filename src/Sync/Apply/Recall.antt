-- ===== src/Sync/Apply/Recall.antt =====
-- What `find_original` returns for a recall, and the event of a recall.
use mathlib.Core.Option.{some-injective}
use weflow_server.Base.{
  ◌≡◌, sym, ◌⊎◌, inl, inr, Bool, true, false, not, ◌&&◌, List, [], ◌∷◌, ◌++◌, none, some, or_else,
  Bool-cases, Option-cases, find, any, reverse, and-eq-true, not-eq-true,
}
use weflow_server.Base.Int.{leb_ℤ, eqb_ℤ}
use weflow_server.Base.Text.{Text, text_eq}
use weflow_server.Base.Decimal.{print_ℤ}
use weflow_server.Base.Map.{lookup}
use weflow_server.Parser.{RevokeInfo}
use weflow_server.Store.{Store, MessageRecord}
use weflow_server.Sync.Apply.{
  find_original, nearest, is_named, named_ids, later_by, placeholder, conv_of,
}

-- The rows of a list, wherever they stand.
abbrev pub Among : MessageRecord → List MessageRecord → Type 0
Among m [] = ⊥
Among m (x ∷ xs) = (m ≡ x) ⊎ Among m xs

Among-split :
    (m : MessageRecord) (xs ys : List MessageRecord) → Among m (xs ++ ys) → Among m xs ⊎ Among m ys
Among-split m [] ys h = inr h
Among-split m (x ∷ xs) ys (inl e) = inl (inl e)
Among-split m (x ∷ xs) ys (inr h) = elim (Among-split m xs ys h) [
  | inl k ↦ inl (inr k)
  | inr k ↦ inr k
]

Among-append :
    (m : MessageRecord) (xs ys : List MessageRecord) → Among m xs ⊎ Among m ys → Among m (xs ++ ys)
Among-append m [] ys (inl h) = elim h [ ]
Among-append m [] ys (inr h) = h
Among-append m (x ∷ xs) ys (inl (inl e)) = inl e
Among-append m (x ∷ xs) ys (inl (inr h)) = inr (Among-append m xs ys (inl h))
Among-append m (x ∷ xs) ys (inr h) = inr (Among-append m xs ys (inr h))

Among-of-reverse : (m : MessageRecord) (xs : List MessageRecord) → Among m xs → Among m (reverse xs)
Among-of-reverse m [] h = h
Among-of-reverse m (x ∷ xs) (inl e) = Among-append m (reverse xs) (x ∷ []) (inr (inl e))
Among-of-reverse m (x ∷ xs) (inr h) =
    Among-append m (reverse xs) (x ∷ []) (inl (Among-of-reverse m xs h))

Among-reverse : (m : MessageRecord) (xs : List MessageRecord) → Among m (reverse xs) → Among m xs
Among-reverse m [] h = elim h [ ]
Among-reverse m (x ∷ xs) h = elim (Among-split m (reverse xs) (x ∷ []) h) [
  | inl k ↦ inr (Among-reverse m xs k)
  | inr (inl e) ↦ inl e
  | inr (inr n) ↦ elim n [ ]
]

-- The row carries one of the ids that the recall names.
abbrev pub Named : RevokeInfo → MessageRecord → MessageRecord → Type 0
Named info recall m =
    (eqb_ℤ m.local_id recall.local_id ≡ false)
    × (any (text_eq (print_ℤ m.server_id)) (named_ids info) ≡ true)

-- The row is an incoming one, from before the recall and at most 300 seconds older.
abbrev pub Near : MessageRecord → MessageRecord → Type 0
Near recall m =
    (leb_ℤ recall.local_id m.local_id ≡ false)
    × (later_by 300 recall.create_time m.create_time ≡ false)
    × (m.is_send ≡ false)
    × (text_eq m.parsed.display placeholder ≡ false)

find-some :
    (p : MessageRecord → Bool) (xs : List MessageRecord) (m : MessageRecord)
    → find p xs ≡ some m
    → Among m xs × (p m ≡ true)
find-some p [] m h = absurd cc
find-some p (x ∷ xs) m h = elim (Bool-cases (p x)) [
  | inl hit ↦ let e : x ≡ m = some-injective x m (rw hit at h) in (inl (sym e), rw (← e) hit)
  | inr miss ↦ let rest = find-some p xs m (rw miss at h) in (inr rest.0, rest.1)
]

find-none :
    (p : MessageRecord → Bool) (xs : List MessageRecord)
    → find p xs ≡ none
    → (m : MessageRecord) → Among m xs
    → p m ≡ false
find-none p [] h m among = elim among [ ]
find-none p (x ∷ xs) h m among = elim (Bool-cases (p x)) [
  | inl hit ↦ absurd (let e = rw hit at h in cc)
  | inr miss ↦ elim among [ inl e ↦ rw e miss | inr later ↦ find-none p xs (rw miss at h) m later ]
]

nearest-some :
    (recall : MessageRecord) (xs : List MessageRecord) (m : MessageRecord)
    → nearest recall xs ≡ some m
    → Among m xs × Near recall m
unfolding nearest
nearest-some recall [] m h = absurd cc
nearest-some recall (x ∷ xs) m h = elim (Bool-cases (leb_ℤ recall.local_id x.local_id)) [
  | inl later ↦ let rest = nearest-some recall xs m (rw later at h) in (inr rest.0, rest.1)
  | inr earlier ↦ elim (Bool-cases (later_by 300 recall.create_time x.create_time)) [
    | inl old ↦ absurd (let e = rw (earlier, old) at h in cc)
    | inr young ↦ elim (Bool-cases (not x.is_send && not (text_eq x.parsed.display placeholder))) [
      | inl fits ↦
          let e : x ≡ m = some-injective x m (rw (earlier, young, fits) at h) in
          let both = and-eq-true _ _ fits in
          (
            inl (sym e),
            rw (← e) (earlier, young, not-eq-true x.is_send both.0, not-eq-true _ both.1),
          )
      | inr miss ↦
          let rest = nearest-some recall xs m (rw (earlier, young, miss) at h) in
          (inr rest.0, rest.1)
    ]
  ]
]

-- The original of a recall that is found.
abbrev pub Original : List MessageRecord → RevokeInfo → MessageRecord → MessageRecord → Type 0
Original conv info recall m =
    Among m conv
    × (Named info recall m
        ⊎ (((x : MessageRecord) → Among x conv → is_named (named_ids info) recall x ≡ false)
            × Near recall m))

search-Original :
    (conv : List MessageRecord) (info : RevokeInfo) (recall m : MessageRecord)
    → or_else
        (find (is_named (named_ids info) recall) (reverse conv))
        (nearest recall (reverse conv))
      ≡ some m
    → Original conv info recall m
unfolding is_named
search-Original conv info recall m h =
    elim (Option-cases (find (is_named (named_ids info) recall) (reverse conv))) [
      | inl e ↦
          let found = nearest-some recall (reverse conv) m (rw e at h) in
          (
            Among-reverse m conv found.0,
            inr (
              λ x among. find-none _ (reverse conv) e x (Among-of-reverse x conv among),
              found.1,
            ),
          )
      | inr (x, e) ↦
          let same : x ≡ m = some-injective x m (rw e at h) in
          let found = find-some _ (reverse conv) x e in
          let both = and-eq-true _ _ found.1 in
          rw (← same) (Among-reverse x conv found.0, inl (not-eq-true _ both.0, both.1))
    ]

-- What is found for a recall is a row of its conversation: another row with an id that the recall
-- names, or, only where the conversation has no such row, an incoming row from before the recall,
-- at most 300 seconds older and with a known text.
pub find_original-Original :
    (s : Store) (session : Text) (recall m : MessageRecord) (info : RevokeInfo)
    → recall.parsed.revoke ≡ some info
    → find_original s session recall ≡ some m
    → Original (conv_of session s) info recall m
unfolding find_original is_named nearest
find_original-Original s session recall m info named h =
    elim (Option-cases (lookup session s.convs)) [
      | inl e ↦ absurd (let g = rw (named, e) at h in cc)
      | inr (conv, e) ↦ rw e (search-Original conv info recall m (rw (named, e) at h))
    ]
