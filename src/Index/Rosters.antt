-- ===== src/Index/Rosters.antt =====
-- Who stands in the rosters: the members that the rows name, each once.
use weflow_server.Base.{
  ◌≡◌, refl, ap, ◌∙◌, Bool, true, false, ◌&&◌, ◌||◌, List, [], ◌∷◌, ◌++◌, arith, inl, inr,
  if◌then◌else◌, unwrap_or, option_map, Bool-cases, Option-cases, any,
}
use weflow_server.Base.Text.{Text, text_eq, text_eq_iff}
use weflow_server.Base.Map.{Map, lookup, lookup-insert}
use weflow_server.Index.{Row, UidMap}
use weflow_server.Index.Rooms.{add_member, add_members, member_in}

abbrev pub roster_of : Text → Map (List Text) → List Text
roster_of room m = unwrap_or (lookup room m) []

abbrev pub in_roster : Text → Text → Map (List Text) → Bool
in_roster room member m = any (text_eq member) (roster_of room m)

-- A row that names this member of this room.
abbrev pub names : UidMap → Text → Text → Row → Bool
names name2id room member row =
    unwrap_or
      (option_map (λ (p : Text × Text). text_eq p.0 room && text_eq member p.1)
        (member_in name2id row))
      false

abbrev pub IsOnce : List Text → Type 0
IsOnce [] = Unit
IsOnce (u ∷ us) = (any (text_eq u) us ≡ false) × IsOnce us

any-snoc :
    (u v : Text) (us : List Text)
    → any (text_eq u) (us ++ v ∷ []) ≡ (any (text_eq u) us || text_eq u v)
any-snoc u v [] = ground arith
any-snoc u v (w ∷ us) = ground (arith, any-snoc u v us)

or-false : (b : Bool) → b ≡ (b || false)
or-false b = ground arith

entered : Text → List Text → List Text
entered u roster = if any (text_eq u) roster then roster else roster ++ u ∷ []

any-entered :
    (u member : Text) (roster : List Text)
    → any (text_eq member) (entered u roster) ≡ (any (text_eq member) roster || text_eq member u)
unfolding entered
any-entered u member roster = elim (Bool-cases (any (text_eq u) roster)) [
  | inl old ↦ rw old (elim (Bool-cases (text_eq member u)) [
    | inl same ↦
        let e : any (text_eq member) roster ≡ true =
          ap (λ v. any (text_eq v) roster) ((text_eq_iff member u).0 same) ∙ old in
        rw e refl
    | inr other ↦ rw other (or-false (any (text_eq member) roster))
  ])
  | inr new ↦ rw new (any-snoc member u roster)
]

IsOnce-snoc :
    (u : Text) (us : List Text) → any (text_eq u) us ≡ false → IsOnce us → IsOnce (us ++ u ∷ [])
IsOnce-snoc u [] h k = (refl, tt)
IsOnce-snoc u (v ∷ us) h k = (
  any-snoc v u us ∙ ground (arith, text_eq_iff u v, text_eq_iff v u, k.0),
  IsOnce-snoc u us (ground arith) k.1,
)

IsOnce-entered : (u : Text) (us : List Text) → IsOnce us → IsOnce (entered u us)
unfolding entered
IsOnce-entered u us k = elim (Bool-cases (any (text_eq u) us)) [
  | inl old ↦ rw old k
  | inr new ↦ rw new (IsOnce-snoc u us new k)
]

roster_of-add_member :
    (r u room : Text) (m : Map (List Text))
    → roster_of room (add_member r u m)
      ≡ (if text_eq r room then entered u (roster_of r m) else roster_of room m)
unfolding add_member entered
roster_of-add_member r u room m = elim (Bool-cases (text_eq r room)) [
  | inl here ↦ rw (lookup-insert r room, here) refl
  | inr there ↦ rw (lookup-insert r room, there) refl
]

in_roster-add_member :
    (r u room member : Text) (m : Map (List Text))
    → in_roster room member (add_member r u m)
      ≡ (in_roster room member m || (text_eq r room && text_eq member u))
in_roster-add_member r u room member m =
    ap (any (text_eq member)) (roster_of-add_member r u room m)
    ∙ elim (Bool-cases (text_eq r room)) [
      | inl here ↦
          let e = (text_eq_iff r room).0 here in
          rw (here, e) (any-entered u member (roster_of room m))
      | inr there ↦ rw there (or-false (in_roster room member m))
    ]

-- Each roster holds a member once.
abbrev pub AreOnce : Map (List Text) → Type 0
AreOnce m = (room : Text) → IsOnce (roster_of room m)

AreOnce-add_member : (r u : Text) (m : Map (List Text)) → AreOnce m → AreOnce (add_member r u m)
AreOnce-add_member r u m h room = elim (Bool-cases (text_eq r room)) [
  | inl here ↦ rw (roster_of-add_member r u room m, here) (IsOnce-entered u (roster_of r m) (h r))
  | inr there ↦ rw (roster_of-add_member r u room m, there) (h room)
]

or_assoc : (a b c : Bool) → ((a || b) || c) ≡ (a || (b || c))
or_assoc a b c = ground arith

-- After the rows of the member table, each member stands in the roster of a room once, if that held
-- before; and a member stands in it exactly if it did before or a row names it, by the numbers of
-- the same database.
pub add_members-rosters :
    (name2id : UidMap) (rows : List Row) (m : Map (List Text))
    → AreOnce m
    → AreOnce (add_members name2id rows m)
      × ((room member : Text)
          → in_roster room member (add_members name2id rows m)
            ≡ (in_roster room member m || any (names name2id room member) rows))
unfolding add_members
add_members-rosters name2id [] m h = (h, λ room member. or-false (in_roster room member m))
add_members-rosters name2id (row ∷ rows) m h = elim (Option-cases (member_in name2id row)) [
  | inl unnamed ↦
      let ih = add_members-rosters name2id rows m h in
      (rw (unnamed, option_map) ih.0, λ room member. rw (unnamed, option_map) (ih.1 room member))
  | inr (p, named) ↦
      let next = add_member p.0 p.1 m in
      let ih = add_members-rosters name2id rows next (AreOnce-add_member p.0 p.1 m h) in
      (
        rw (named, option_map) ih.0,
        λ room member.
            rw (named, option_map)
              (ih.1 room member
                ∙ ap (λ b. b || any (names name2id room member) rows)
                    (in_roster-add_member p.0 p.1 room member m)
                ∙ or_assoc (in_roster room member m) (text_eq p.0 room && text_eq member p.1)
                    (any (names name2id room member) rows)),
      )
]
