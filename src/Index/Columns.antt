-- ===== src/Index/Columns.antt =====
-- A row is read by the columns' names, wherever the query puts them: `MsgCols::probe` and
-- `MsgCols::extract` of src/store/index.rs.
use weflow_server.Base.{
  ◌≡◌, refl, ap, ◌∙◌, true, ◌&&◌, List, [], ◌∷◌, ◌++◌, Option, none, some, arith, inl, inr,
  if◌then◌else◌, unwrap_or, option_map, is_some, keep_if, Bool-cases, Option-cases, get_elem?, any,
  All, map,
}
use weflow_server.Base.Int.{ℤ, pos}
use weflow_server.Base.Bytes.{Bytes}
use weflow_server.Base.Text.{Text, is_empty, text_eq, text_eq_iff, text_eq_refl, trim}
use weflow_server.Parser.Content.{Decoders}
use weflow_server.Index.{
  Cell, integer, text, blob, Connection, get_opt_str, get_i64, get_opt_blob, get_opt_bytes, MsgCols,
  select_once, probe_columns, probe, pick, local_names, position, pos_of, OwnedMsgRow, UidMap,
  lookup_uid, filled, i64_at, named_sender, extract,
}

-- The query asks for the column.
abbrev Has : List Text → Option Text → Type 0
Has selected none = Unit
Has selected (some c) = any (λ s. text_eq s c) selected ≡ true

any-snoc :
    (c d : Text) (chosen : List Text)
    → any (λ s. text_eq s c) chosen ≡ true
    → any (λ s. text_eq s c) (chosen ++ d ∷ []) ≡ true
any-snoc c d (s ∷ chosen) h = ground (arith, any-snoc c d chosen)
any-snoc c d [] h = absurd cc

any-last : (c : Text) (chosen : List Text) → any (λ s. text_eq s c) (chosen ++ c ∷ []) ≡ true
any-last c [] = rw (text_eq_refl c) refl
any-last c (s ∷ chosen) = ground (arith, any-last c chosen)

any-chosen :
    (c : Text) (chosen : List Text)
    → any (λ s. text_eq s c) (if any (λ s. text_eq s c) chosen then chosen else chosen ++ c ∷ [])
      ≡ true
any-chosen c chosen = elim (Bool-cases (any (λ s. text_eq s c) chosen)) [
  | inl old ↦ rw (old, old) refl
  | inr new ↦ rw new (any-last c chosen)
]

select_once-keeps :
    (c : Text) (more : List (Option Text)) (chosen : List Text)
    → any (λ s. text_eq s c) chosen ≡ true
    → any (λ s. text_eq s c) (select_once chosen more) ≡ true
unfolding select_once
select_once-keeps c [] chosen h = h
select_once-keeps c (none ∷ more) chosen h = select_once-keeps c more chosen h
select_once-keeps c (some d ∷ more) chosen h = elim (Bool-cases (any (λ s. text_eq s d) chosen)) [
  | inl old ↦ rw old (select_once-keeps c more chosen h)
  | inr new ↦ rw new (select_once-keeps c more (chosen ++ d ∷ []) (any-snoc c d chosen h))
]

select_once-Has :
    (more : List (Option Text)) (chosen : List Text) → All (Has (select_once chosen more)) more
unfolding select_once
select_once-Has [] chosen = tt
select_once-Has (none ∷ more) chosen = (tt, select_once-Has more chosen)
select_once-Has (some d ∷ more) chosen =
    let next = if any (λ s. text_eq s d) chosen then chosen else chosen ++ d ∷ [] in
    (select_once-keeps d more next (any-chosen d chosen), select_once-Has more next)

module _ (f : Text → Cell) where
  get_elem?-position :
      (c : Text) (selected : List Text)
      → any (λ s. text_eq s c) selected ≡ true
      → get_elem? (map f selected) (position c selected) ≡ some (f c)
  unfolding position
  get_elem?-position c [] h = absurd cc
  get_elem?-position c (s ∷ selected) h = elim (Bool-cases (text_eq s c)) [
    | inl here ↦ rw here (ap (λ n. some (f n)) ((text_eq_iff s c).0 here))
    | inr there ↦ rw there (get_elem?-position c selected (rw there at h))
  ]

-- The value itself, read as each of the types.
abbrev pub int_of : Option Cell → ℤ
int_of c = elim c [ some (integer z) ↦ z | _ ↦ pos 0 ]

abbrev pub text_of : Decoders → Option Cell → Option Text
text_of d c = elim c [ some (text b) ↦ option_map trim (d.from_utf8 b) | _ ↦ none ]

abbrev pub blob_of : Option Cell → Option Bytes
blob_of c = elim c [ some (blob b) ↦ some b | _ ↦ none ]

abbrev pub bytes_of : Option Cell → Option Bytes
bytes_of c = elim c [ some (text b) ↦ some b | some (blob b) ↦ some b | _ ↦ none ]

module _ (f : Text → Cell) (m : MsgCols) where
  i64_at-cell :
      (column : Option Text)
      → Has m.selected column
      → i64_at m (map f m.selected) column ≡ int_of (option_map f column)
  unfolding get_i64
  i64_at-cell none h = refl
  i64_at-cell (some c) h = ap int_of (get_elem?-position f c m.selected h)

  text_at-cell :
      (d : Decoders) (column : Option Text)
      → Has m.selected column
      → (if is_some column
          then unwrap_or (keep_if filled (get_opt_str d (map f m.selected) (pos_of m column))) []
          else [])
        ≡ unwrap_or (keep_if filled (text_of d (option_map f column))) []
  unfolding get_opt_str
  text_at-cell d none h = refl
  text_at-cell d (some c) h =
      ap (λ o. unwrap_or (keep_if filled (text_of d o)) []) (get_elem?-position f c m.selected h)

  blob_at-cell :
      (column : Option Text)
      → Has m.selected column
      → (if is_some column then get_opt_blob (map f m.selected) (pos_of m column) else none)
        ≡ blob_of (option_map f column)
  unfolding get_opt_blob
  blob_at-cell none h = refl
  blob_at-cell (some c) h = ap blob_of (get_elem?-position f c m.selected h)

  bytes_at-cell :
      (column : Option Text)
      → Has m.selected column
      → (if is_some column then get_opt_bytes (map f m.selected) (pos_of m column) else none)
        ≡ bytes_of (option_map f column)
  unfolding get_opt_bytes
  bytes_at-cell none h = refl
  bytes_at-cell (some c) h = ap bytes_of (get_elem?-position f c m.selected h)

-- The row by the names of its columns: a number that is missing or no integer is zero, and an empty
-- sender is looked up by its number.
abbrev sender_by_name : Decoders → (Text → Cell) → MsgCols → UidMap → Text
sender_by_name d f m name2id =
    let name = unwrap_or (keep_if filled (text_of d (option_map f m.sender))) [] in
    if is_empty name && is_some m.real
    then unwrap_or (lookup_uid (int_of (option_map f m.real)) name2id) []
    else name

abbrev pub row_by_name : Decoders → (Text → Cell) → MsgCols → UidMap → OwnedMsgRow
row_by_name d f m name2id = record {
  local_id = int_of (some (f m.local));
  server_id = int_of (option_map f m.server);
  local_type = int_of (option_map f m.kind);
  create_time = int_of (option_map f m.time);
  sort_seq = int_of (option_map f m.seq);
  sender_username = sender_by_name d f m name2id;
  content = bytes_of (option_map f m.content);
  compress = blob_of (option_map f m.compress);
}

abbrev optional : MsgCols → List (Option Text)
optional m = m.server ∷ m.kind ∷ m.time ∷ m.seq ∷ m.sender ∷ m.real ∷ m.content ∷ m.compress ∷ []

module _ (d : Decoders) (f : Text → Cell) (m : MsgCols) (name2id : UidMap) where
  number_at-cell :
      (column : Option Text) (n : Text)
      → Has m.selected column
      → (if is_empty n && is_some column
          then unwrap_or (lookup_uid (get_i64 (map f m.selected) (pos_of m column)) name2id) []
          else n)
        ≡ (if is_empty n && is_some column
            then unwrap_or (lookup_uid (int_of (option_map f column)) name2id) []
            else n)
  unfolding get_i64
  number_at-cell none [] h = refl
  number_at-cell none (c ∷ n) h = refl
  number_at-cell (some c) n h =
      ap (λ o. if is_empty n && true then unwrap_or (lookup_uid (int_of o) name2id) [] else n)
        (get_elem?-position f c m.selected h)

  named_sender-cell :
      Has m.selected m.sender
      → Has m.selected m.real
      → named_sender d m (map f m.selected) name2id ≡ sender_by_name d f m name2id
  named_sender-cell s r =
      number_at-cell m.real
        (if is_some m.sender
          then unwrap_or (keep_if filled (get_opt_str d (map f m.selected) (pos_of m m.sender))) []
          else [])
        r
      ∙ ap
          (λ n.
            if is_empty n && is_some m.real
            then unwrap_or (lookup_uid (int_of (option_map f m.real)) name2id) []
            else n)
          (text_at-cell f m d m.sender s)

  extract-cells :
      get_elem? (map f m.selected) 0 ≡ some (f m.local)
      → All (Has m.selected) (optional m)
      → extract d m (map f m.selected) name2id ≡ row_by_name d f m name2id
  unfolding extract get_i64
  extract-cells first h =
      let (server, (kind, (time, (seq, (sender, (real, (content, (compress, end)))))))) = h in
      λ i. record {
        local_id = int_of (first i);
        server_id = i64_at-cell f m m.server server i;
        local_type = i64_at-cell f m m.kind kind i;
        create_time = i64_at-cell f m m.time time i;
        sort_seq = i64_at-cell f m m.seq seq i;
        sender_username = named_sender-cell sender real i;
        content = bytes_at-cell f m m.content content i;
        compress = blob_at-cell f m m.compress compress i;
      }

select_once-first :
    (f : Text → Cell) (c : Text) (more : List (Option Text)) (chosen : List Text)
    → get_elem? (map f (select_once (c ∷ chosen) more)) 0 ≡ some (f c)
unfolding select_once
select_once-first f c [] chosen = refl
select_once-first f c (none ∷ more) chosen = select_once-first f c more chosen
select_once-first f c (some e ∷ more) chosen =
    elim (Bool-cases (any (λ s. text_eq s e) (c ∷ chosen))) [
      | inl old ↦ rw old (select_once-first f c more chosen)
      | inr new ↦ rw new (select_once-first f c more (chosen ++ e ∷ []))
    ]

first_asked :
    (f : Text → Cell) (cols : List Text) (local : Text)
    → get_elem? (map f (probe_columns cols local).selected) 0
      ≡ some (f (probe_columns cols local).local)
unfolding probe_columns
first_asked f cols local = select_once-first f local _ []

optional-Asked :
    (cols : List Text) (local : Text)
    → All (Has (probe_columns cols local).selected) (optional (probe_columns cols local))
unfolding probe_columns
optional-Asked cols local = select_once-Has (optional (probe_columns cols local)) (local ∷ [])

probed :
    (conn : Connection) (table : Text) (m : MsgCols)
    → probe conn table ≡ some m
    → (local : Text) × (m ≡ probe_columns (conn.table_columns table) local)
unfolding probe
probed conn table m h = elim (Option-cases (pick (conn.table_columns table) local_names)) [
  | inl absent ↦ absurd (let g = rw absent at h in cc)
  | inr (local, e) ↦ (local, let g = rw e at h in cc)
]

extract-probed :
    (d : Decoders) (f : Text → Cell) (cols : List Text) (local : Text) (name2id : UidMap)
    → extract d (probe_columns cols local) (map f (probe_columns cols local).selected) name2id
      ≡ row_by_name d f (probe_columns cols local) name2id
extract-probed d f cols local name2id =
    extract-cells d f (probe_columns cols local) name2id (first_asked f cols local)
      (optional-Asked cols local)

-- A row of the query of a table's columns, whatever they are called and in whatever order they are
-- asked for: each field of the message is the value of the column found for it.
pub extract-probe :
    (d : Decoders) (conn : Connection) (table : Text) (f : Text → Cell) (m : MsgCols)
    (name2id : UidMap)
    → probe conn table ≡ some m
    → extract d m (map f m.selected) name2id ≡ row_by_name d f m name2id
extract-probe d conn table f m name2id h =
    let (local, e) = probed conn table m h in
    rw e (extract-probed d f (conn.table_columns table) local name2id)
