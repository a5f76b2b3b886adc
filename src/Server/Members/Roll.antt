-- ===== src/Server/Members/Roll.antt =====
-- src/server/handlers/group_members.rs: who is listed, and with how many messages.
use weflow_server.Base.{
  ℕ, suc, ◌+◌, Bool, true, not, ◌&&◌, ◌||◌, ◌≡◌, refl, ap, ◌∙◌, List, [], ◌∷◌, ◌++◌, if◌then◌else◌,
  unwrap_or, map, any, All, ltb, arith, Bool-cases, inl, inr,
}
use weflow_server.Base.Text.{Text, text_eq, text_eq_iff}
use weflow_server.Base.Map.{Map, lookup, insert, contains_key, lookup-insert}
use weflow_server.Base.Sort.{any-sort_by, All-sort_by}
use weflow_server.Store.{Store, MessageRecord, filled}
use weflow_server.Server.Members.{
  GroupMember, count_message, count_speakers, keys, silent, member_of, member_before, members_of,
}

-- How many messages of a list a sender wrote.
abbrev pub said : Text → List MessageRecord → ℕ
said w [] = 0
said w (m ∷ ms) = (if text_eq m.sender_username w then 1 else 0) + said w ms

abbrev pub counted : Text → Map ℕ → ℕ
counted w counts = unwrap_or (lookup w counts) 0

abbrev bump : Text → Map ℕ → Map ℕ
bump t counts = insert t (suc (counted t counts)) counts

counted-bump :
    (w t : Text) (counts : Map ℕ)
    → counted w (bump t counts) ≡ counted w counts + (if text_eq t w then 1 else 0)
counted-bump w t counts = elim (Bool-cases (text_eq t w)) [
  | inr other ↦ rw (lookup-insert t w (suc (counted t counts)) counts, other) (ground arith)
  | inl same ↦
      rw (lookup-insert t w (suc (counted t counts)) counts, same, (text_eq_iff t w).0 same)
        (ground arith)
]

contains-bump :
    (w t : Text) (counts : Map ℕ)
    → contains_key w (bump t counts) ≡ (contains_key w counts || text_eq t w)
contains-bump w t counts = rw (lookup-insert t w (suc (counted t counts)) counts) (ground arith)

filled-same : (t w : Text) → text_eq t w ≡ true → filled t ≡ filled w
filled-same t w h = ap filled ((text_eq_iff t w).0 h)

-- A message without a sender counts for nobody.
counted-count_message :
    (w : Text) (m : MessageRecord) (counts : Map ℕ)
    → counted w (count_message m counts)
      ≡ counted w counts + (if filled w && text_eq m.sender_username w then 1 else 0)
counted-count_message w m counts =
    let t = m.sender_username in
    let b = counted-bump w t counts in
    let e = filled-same t w in
    elim (Bool-cases (filled t)) [
      | inl f ↦ rw f (ground (arith, e))
      | inr f ↦ rw f (ground (arith, e))
    ]

contains-count_message :
    (w : Text) (m : MessageRecord) (counts : Map ℕ)
    → contains_key w (count_message m counts)
      ≡ (contains_key w counts || (filled w && text_eq m.sender_username w))
contains-count_message w m counts =
    let t = m.sender_username in
    let b = contains-bump w t counts in
    let e = filled-same t w in
    elim (Bool-cases (filled t)) [
      | inl f ↦ rw f (ground (arith, e))
      | inr f ↦ rw f (ground (arith, e))
    ]

counted-count_speakers :
    (w : Text) (ms : List MessageRecord) (counts : Map ℕ)
    → counted w (count_speakers ms counts) ≡ counted w counts + (if filled w then said w ms else 0)
unfolding count_speakers
counted-count_speakers w [] counts = ground arith
counted-count_speakers w (m ∷ ms) counts =
    counted-count_speakers w ms (count_message m counts)
    ∙ rw (counted-count_message w m counts) (ground arith)

contains-count_speakers :
    (w : Text) (ms : List MessageRecord) (counts : Map ℕ)
    → contains_key w (count_speakers ms counts)
      ≡ (contains_key w counts || (filled w && ltb 0 (said w ms)))
unfolding count_speakers
contains-count_speakers w [] counts = ground arith
contains-count_speakers w (m ∷ ms) counts =
    contains-count_speakers w ms (count_message m counts)
    ∙ rw (contains-count_message w m counts) (ground arith)

abbrev pub is_id : Text → Text → Bool
is_id w id = text_eq id w

any-keys : (w : Text) (counts : Map ℕ) → any (is_id w) (keys counts) ≡ contains_key w counts
unfolding lookup
any-keys w [] = refl
any-keys w ((k, n) ∷ counts) = ground (arith, any-keys w counts)

any-silent :
    (w : Text) (counts : Map ℕ) (roster : List Text)
    → any (is_id w) (silent counts roster)
      ≡ (filled w && not (contains_key w counts) && any (is_id w) roster)
unfolding silent
any-silent w counts [] = ground arith
any-silent w counts (id ∷ roster) = elim (Bool-cases (text_eq id w)) [
  | inl same ↦
      let e = (text_eq_iff id w).0 same in
      rw e (ground (arith, any-silent w counts roster, text_eq_iff w w))
  | inr other ↦ ground (arith, any-silent w counts roster)
]

any-append : (p : Text → Bool) (xs ys : List Text) → any p (xs ++ ys) ≡ (any p xs || any p ys)
any-append p [] ys = refl
any-append p (x ∷ xs) ys = ground (arith, any-append p xs ys)

any-members :
    (s : Store) (room : Text) (with_counts : Bool) (counts : Map ℕ) (w : Text) (ids : List Text)
    → any (λ (m : GroupMember). is_id w m.wxid) (map (member_of s room with_counts counts) ids)
      ≡ any (is_id w) ids
unfolding member_of
any-members s room with_counts counts w [] = refl
any-members s room with_counts counts w (id ∷ ids) =
    ap (λ b. is_id w id || b) (any-members s room with_counts counts w ids)

abbrev conv_of : Store → Text → List MessageRecord
conv_of s room = unwrap_or (lookup room s.convs) []

abbrev roster_of : Store → Text → List Text
roster_of s room = unwrap_or (lookup room s.chatroom_roster) []

any-listed :
    (w : Text) (conv : List MessageRecord) (roster : List Text)
    → (any (is_id w) (keys (count_speakers conv []))
        || any (is_id w) (silent (count_speakers conv []) roster))
      ≡ (filled w && (ltb 0 (said w conv) || any (is_id w) roster))
unfolding lookup
any-listed w conv roster =
    let counts = count_speakers conv [] in
    rw (any-keys w counts, any-silent w counts roster, contains-count_speakers w conv [])
      (ground arith)

-- The number that a member is listed with.
abbrev pub Counted : Bool → List MessageRecord → GroupMember → Type 0
Counted with_counts conv m =
    m.message_count ≡ (if with_counts && filled m.wxid then said m.wxid conv else 0)

member_of-Counted :
    (s : Store) (room : Text) (with_counts : Bool) (conv : List MessageRecord) (w : Text)
    → Counted with_counts conv (member_of s room with_counts (count_speakers conv []) w)
unfolding member_of lookup
member_of-Counted s room with_counts conv w = ground (arith, counted-count_speakers w conv [])

All-Counted :
    (s : Store) (room : Text) (with_counts : Bool) (conv : List MessageRecord) (ids : List Text)
    → All
        (Counted with_counts conv)
        (map (member_of s room with_counts (count_speakers conv [])) ids)
All-Counted s room with_counts conv [] = tt
All-Counted s room with_counts conv (w ∷ ids) =
    (member_of-Counted s room with_counts conv w, All-Counted s room with_counts conv ids)

-- A name is listed when it is not empty and has written a message of the group or is on its roster:
-- those who are silent and those who have left are both there. Each member has the number of the
-- messages that it wrote, or 0 where the counts are not asked for.
pub members_of-Counted :
    (s : Store) (room : Text) (with_counts : Bool) (w : Text)
    → (any (λ (m : GroupMember). is_id w m.wxid) (members_of s room with_counts)
        ≡ (filled w && (ltb 0 (said w (conv_of s room)) || any (is_id w) (roster_of s room))))
      × All (Counted with_counts (conv_of s room)) (members_of s room with_counts)
unfolding members_of
members_of-Counted s room with_counts w =
    let counts = count_speakers (conv_of s room) [] in
    let ids = keys counts ++ silent counts (roster_of s room) in
    let listed = map (member_of s room with_counts counts) ids in
    (
      any-sort_by member_before (λ (m : GroupMember). is_id w m.wxid) listed
          ∙ any-members s room with_counts counts w ids
          ∙ any-append (is_id w) (keys counts) (silent counts (roster_of s room))
          ∙ any-listed w (conv_of s room) (roster_of s room),
      All-sort_by member_before (Counted with_counts (conv_of s room)) listed
          (All-Counted s room with_counts (conv_of s room) ids),
    )
