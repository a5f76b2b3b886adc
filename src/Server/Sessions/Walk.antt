-- ===== src/Server/Sessions/Walk.antt =====
-- src/server/handlers/sessions.rs: a client that follows the cursors gets every session once.
use mathlib.Core.List.{Perm}
use weflow_server.Base.{
  ℕ, zero, suc, ◌+◌, ◌≤◌, ◌<◌, ◌^◌, ◌≡◌, refl, ap, ◌∙◌, inl, inr, true, List, [], ◌∷◌, ◌++◌, map,
  Option, option_map, none, some, arith, ltb, length, take, drop, length-take, length-drop,
  take-append-drop, take_of_length-le, drop-drop, retain, Bool-cases,
}
use weflow_server.Base.Text.{Text, codes, text_ops}
use weflow_server.Base.Decimal.{print_ℕ, parse_u64-print_ℕ}
use weflow_server.Base.Map.{values, insert, lookup-insert}
use weflow_server.Base.Sort.{sort_by-Perm}
use weflow_server.Store.{Store, Session}
use weflow_server.Server.Params.{Params, parse_limit}
use weflow_server.Server.Params.Merge.{parse_limit-bounds}
use weflow_server.Server.Sessions.{
  Lower, keyword_of, names_keyword, session_before, listed, session_offset, session_limit,
  SessionChatlab, session_chatlab, respond_chatlab,
}

-- The parameters of the next request.
abbrev pub at_cursor : Text → Params → Params
at_cursor c params = insert (codes "cursor") c params

abbrev asked_on :
    List SessionChatlab
    → (Text → Option (List SessionChatlab))
    → Option Text
    → Option (List SessionChatlab)
asked_on here later none = some here
asked_on here later (some c) = option_map (◌++◌ here) (later c)

-- The answers that a client gets that asks on while it is given a cursor; `none` where the requests
-- that it may send are used up and a cursor is left.
abbrev pub follow : Lower → Store → ℕ → Params → Option (List SessionChatlab)
follow lower s zero params = none
follow lower s (suc n) params =
    let answer = respond_chatlab lower s params in
    asked_on answer.sessions (λ c. follow lower s n (at_cursor c params)) answer.page.next_cursor

-- A cursor changes nothing but the offset.
listed-at_cursor :
    (lower : Lower) (s : Store) (c : Text) (params : Params)
    → listed lower s (at_cursor c params) ≡ listed lower s params
unfolding listed text_ops
listed-at_cursor lower s c params =
    rw (lookup-insert (codes "cursor") (codes "keyword") c params) refl

limit-at_cursor :
    (c : Text) (params : Params) → session_limit (at_cursor c params) ≡ session_limit params
unfolding parse_limit text_ops
limit-at_cursor c params = rw (lookup-insert (codes "cursor") (codes "limit") c params) refl

offset-at_cursor :
    (n : ℕ) (params : Params) → n < 2 ^ 64 → session_offset true (at_cursor (print_ℕ n) params) ≡ n
unfolding session_offset text_ops
offset-at_cursor n params h =
    rw (lookup-insert (codes "cursor") (codes "cursor") (print_ℕ n) params, parse_u64-print_ℕ n h)
      refl

map-append :
    (f : Session → SessionChatlab) (xs ys : List Session) → map f (xs ++ ys) ≡ map f xs ++ map f ys
map-append f [] ys = refl
map-append f (x ∷ xs) ys = ap (◌∷◌ (f x)) (map-append f xs ys)

follow-left :
    (lower : Lower) (s : Store) (n : ℕ) (params : Params)
    → length (listed lower s params) < 2 ^ 64
    → length (drop (session_offset true params) (listed lower s params)) < n
    → follow lower s n params
      ≡ some (map (session_chatlab s) (drop (session_offset true params) (listed lower s params)))
unfolding respond_chatlab
follow-left lower s zero params small fits = absurd (omega arith)
follow-left lower s (suc n) params small fits =
    let rows = listed lower s params in
    let offset = session_offset true params in
    let limit = session_limit params in
    let left : List Session = drop offset rows in
    let here = length-take limit left in
    let rest = length-drop offset rows in
    let behind = drop-drop offset limit rows in
    let one = parse_limit-bounds params (codes "limit") 100 10000 (omega arith) in
    elim (Bool-cases (ltb (offset + length (take limit left)) (length rows))) [
      | inl more ↦
          let full : length (take limit left) ≡ limit = ground arith in
          let next = at_cursor (print_ℕ (offset + limit)) params in
          let same = listed-at_cursor lower s (print_ℕ (offset + limit)) params in
          let there : session_offset true next ≡ offset + limit =
            offset-at_cursor (offset + limit) params (ground arith) in
          let fewer : length (drop (session_offset true next) (listed lower s next)) < n =
            rw (there, same, ← behind) (let e = length-drop limit left in omega arith) in
          let small_next : length (listed lower s next) < 2 ^ 64 = rw same small in
          rw (more, full, follow-left lower s n next small_next fewer)
            (ap some (
              rw
                (
                  there,
                  same,
                  ← behind,
                  ← map-append (session_chatlab s) (take limit left) (drop limit left),
                  take-append-drop limit left,
                )
                refl))
      | inr done ↦
          let all_here : length left ≤ limit = ground arith in
          rw done (
            ap (λ (r : List Session). some (map (session_chatlab s) r))
              (take_of_length-le limit left all_here))
    ]

-- A client that starts at the first session and asks again with each answer's `nextCursor`, as it is
-- printed, until there is none, comes to an end after at most one request more than there are
-- sessions. It is then given every session that has the keyword exactly once, in the order of the
-- list and whatever the limit it asks for.
pub follow-listed :
    (lower : Lower) (s : Store) (params : Params)
    → length (listed lower s params) < 2 ^ 64
    → session_offset true params ≡ 0
    → (follow lower s (suc (length (listed lower s params))) params
        ≡ some (map (session_chatlab s) (listed lower s params)))
      × Perm
          (listed lower s params)
          (retain (names_keyword lower s (keyword_of lower params)) (values s.sessions))
unfolding listed
follow-listed lower s params small start =
    let rows = listed lower s params in
    (
      follow-left lower s (suc (length rows)) params small (rw start (omega arith)) ∙ rw start refl,
      sort_by-Perm session_before _,
    )
