-- ===== src/Server/Messages/Pages.antt =====
-- A client that follows `next_offset` gets every selected message once, newest first.
use mathlib.Core.List.{Perm}
use weflow_server.Base.{
  ℕ, zero, suc, ◌+◌, ◌≤◌, ◌≡◌, refl, ap, ◌∙◌, inl, inr, Bool, true, false, not, List, [], ◌∷◌, ◌++◌,
  map, Option, option_map, ◌>>=◌, ◌<◌, none, some, arith, if◌then◌else◌, ltb, length, take, drop,
  retain, length-take, length-drop, take-append-drop, take_of_length-le, drop-drop, Bool-cases,
  not-eq-true,
}
use weflow_server.Base.Sort
use weflow_server.Base.Sort.{sort_by, sort_by-Perm, sort_by-Sorted}
use weflow_server.Store.{Store, conversation_known}
use weflow_server.Sync.Drain.{watermark_of}
use weflow_server.Sync.Drain.Order.{before_asymm}
use weflow_server.Sync.Drain.Total.{before_weak}
use weflow_server.Server.Messages.{
  MessageQuery, TextOps, MessagePage, Row, enumerate_from, in_window, has_keyword, newest_first,
  conversation, selected, index_of, page_slice,
}

-- The requests of a client: the first one, and those for the page behind as long as there is one.
-- `none` where the requests that it may send are used up with pages left, or a request fails.
abbrev pub walk : TextOps → Store → ℕ → MessageQuery → Option (List ℕ)
walk ops s zero q = none
walk ops s (suc n) q = page_slice ops s q >>= λ page.
    if page.has_more
    then option_map (◌++◌ page.indices) (walk ops s n (record q { offset = page.next_offset }))
    else some page.indices

length-map : (rows : List Row) → length (map index_of rows) ≡ length rows
length-map [] = refl
length-map (r ∷ rows) = ap suc (length-map rows)

map-append : (xs ys : List Row) → map index_of (xs ++ ys) ≡ map index_of xs ++ map index_of ys
map-append [] ys = refl
map-append (x ∷ xs) ys = ap (◌∷◌ (index_of x)) (map-append xs ys)

-- The page of a query whose conversation is known.
abbrev page_at : ℕ → ℕ → List Row → MessagePage
page_at limit offset rows = record {
  indices = map index_of (take limit (drop offset rows));
  has_more = ltb (offset + length (take limit (drop offset rows))) (length rows);
  next_offset = offset + length (take limit (drop offset rows));
}

page_slice-known :
    (ops : TextOps) (s : Store) (q : MessageQuery)
    → conversation_known s q.talker ≡ true
    → page_slice ops s q ≡ some (page_at q.limit q.offset (selected ops s q))
unfolding page_slice
page_slice-known ops s q known =
    rw (known, length-map (take q.limit (drop q.offset (selected ops s q)))) refl

selected-offset :
    (ops : TextOps) (s : Store) (q : MessageQuery) (offset : ℕ)
    → selected ops s (record q { offset = offset }) ≡ selected ops s q
unfolding selected
selected-offset ops s q offset = refl

walk-selected :
    (ops : TextOps) (s : Store) (n : ℕ) (q : MessageQuery)
    → conversation_known s q.talker ≡ true
    → 1 ≤ q.limit
    → length (drop q.offset (selected ops s q)) < n
    → walk ops s n q ≡ some (map index_of (drop q.offset (selected ops s q)))
walk-selected ops s zero q known one fits = absurd (omega arith)
walk-selected ops s (suc n) q known one fits =
    let rows : List Row = selected ops s q in
    let left : List Row = drop q.offset rows in
    let here = length-take q.limit left in
    let rest = length-drop q.offset rows in
    let behind = drop-drop q.offset q.limit rows in
    rw (walk, page_slice-known ops s q known)
      (elim (Bool-cases (page_at q.limit q.offset rows).has_more) [
        | inl more ↦
            let full : length (take q.limit left) ≡ q.limit = ground arith in
            let next : MessageQuery = record q { offset = q.offset + q.limit } in
            let fewer : length (drop next.offset (selected ops s next)) < n =
              rw (selected-offset ops s q next.offset, ← behind)
                (let e = length-drop q.limit left in omega arith) in
            rw (more, full, walk-selected ops s n next known one fewer)
              (ap some (
                rw
                  (
                    selected-offset ops s q next.offset,
                    ← behind,
                    ← map-append (take q.limit left) (drop q.limit left),
                    take-append-drop q.limit left,
                  )
                  refl))
        | inr done ↦
            let all : length left ≤ q.limit = ground arith in
            rw done
              (ap (λ (r : List Row). some (map index_of r)) (take_of_length-le q.limit left all))
      ])

-- A client that starts at offset zero and asks again with each page's `next_offset` while there is
-- more comes to an end, after at most one request more than there are messages, and has then been
-- given, page after page, every selected message of a known conversation exactly once and in the
-- order of the selection, whatever its page size from one on.
pub walk-pages :
    (ops : TextOps) (s : Store) (q : MessageQuery)
    → conversation_known s q.talker ≡ true
    → 1 ≤ q.limit
    → walk ops s (suc (length (selected ops s q))) (record q { offset = 0 })
      ≡ some (map index_of (selected ops s q))
walk-pages ops s q known one =
    walk-selected ops s (suc (length (selected ops s q))) (record q { offset = 0 }) known one
      (rw (selected-offset ops s q 0) (omega arith))
    ∙ rw (selected-offset ops s q 0) refl

-- An order that is total, from one that is strict.
not-eq-false : (b : Bool) → not b ≡ false → b ≡ true
not-eq-false b h = ground arith

newest_first_trans :
    (x y z : Row) → newest_first x y ≡ true → newest_first y z ≡ true → newest_first x z ≡ true
newest_first_trans (i, a) (j, b) (k, c) h g =
    rw
      (before_weak (watermark_of a) (watermark_of b) (watermark_of c) (not-eq-true _ h)
        (not-eq-true _ g))
      refl

newest_first_total : (x y : Row) → newest_first x y ≡ false → newest_first y x ≡ true
newest_first_total (i, a) (j, b) h =
    rw (before_asymm (watermark_of a) (watermark_of b) (not-eq-false _ h)) refl

-- What the selection holds and how it is ordered.
abbrev pub filtered : TextOps → Store → MessageQuery → List Row
filtered ops s q =
    retain (has_keyword ops q) (retain (in_window q) (enumerate_from 0 (conversation s q.talker)))

-- The selection holds the messages of the window and keyword, each once, the newest first.
pub selected-Sorted :
    (ops : TextOps) (s : Store) (q : MessageQuery)
    → Sort.Sorted newest_first (selected ops s q) × Perm (selected ops s q) (filtered ops s q)
unfolding selected
selected-Sorted ops s q = (
  sort_by-Sorted newest_first newest_first_total newest_first_trans (filtered ops s q),
  sort_by-Perm newest_first (filtered ops s q),
)
