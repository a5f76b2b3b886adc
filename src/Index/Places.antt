-- ===== src/Index/Places.antt =====
-- The optional columns of the sessions and of the contacts are read where the query puts them.
use weflow_server.Base.{
  ℕ, zero, suc, ◌≡◌, refl, ap, List, [], ◌∷◌, Option, none, some, if◌then◌else◌, unwrap_or,
  option_map, is_some, keep_if, get_elem?, take, length, map,
}
use weflow_server.Base.Int.{ℤ}
use weflow_server.Base.Text.{Text}
use weflow_server.Parser.Content.{Decoders}
use weflow_server.Store.{Session, Contact}
use weflow_server.Index.{Cell, get_opt_str, get_i64, filled}
use weflow_server.Index.Columns.{int_of, text_of}
use weflow_server.Index.Sections.{
  present, place, str_at, int_at, has_at, session_kind, session_of, contact_kind, contact_of,
}

-- The optional column with a number, if it is there.
abbrev pub column : List (Option Text) → ℕ → Option Text
column columns n = unwrap_or (get_elem? columns n) none

module _ (f : Text → Cell) where
  present-place :
      (columns : List (Option Text)) (n : ℕ) (c : Text)
      → get_elem? columns n ≡ some (some c)
      → get_elem? (map f (present columns)) (length (present (take n columns))) ≡ some (f c)
  present-place [] n c h = absurd cc
  present-place (none ∷ columns) zero c h = absurd cc
  present-place (some e ∷ columns) zero c h = ap (λ o. some (f (unwrap_or (unwrap_or o none) e))) h
  present-place (none ∷ columns) (suc n) c h = present-place columns n c h
  present-place (some e ∷ columns) (suc n) c h = present-place columns n c h

  place-cell :
      (u : Text) (columns : List (Option Text)) (n : ℕ) (c : Text)
      → get_elem? columns n ≡ some (some c)
      → get_elem? (map f (u ∷ present columns)) (place columns n) ≡ some (f c)
  unfolding place
  place-cell u columns n c h = present-place columns n c h

  int_at-column :
      (u : Text) (columns : List (Option Text)) (n : ℕ) (o : Option (Option Text))
      → get_elem? columns n ≡ o
      → int_at (map f (u ∷ present columns)) columns n ≡ int_of (option_map f (unwrap_or o none))
  unfolding get_i64
  int_at-column u columns n none h = rw (h, int_at) refl
  int_at-column u columns n (some none) h = rw (h, int_at) refl
  int_at-column u columns n (some (some c)) h =
      rw (h, int_at) (ap int_of (place-cell u columns n c h))

  str_at-column :
      (d : Decoders) (u : Text) (columns : List (Option Text)) (n : ℕ) (o : Option (Option Text))
      → get_elem? columns n ≡ o
      → str_at d (map f (u ∷ present columns)) columns n
        ≡ text_of d (option_map f (unwrap_or o none))
  unfolding get_opt_str
  str_at-column d u columns n none h = rw (h, str_at) refl
  str_at-column d u columns n (some none) h = rw (h, str_at) refl
  str_at-column d u columns n (some (some c)) h =
      rw (h, str_at) (ap (text_of d) (place-cell u columns n c h))

abbrev int_by_name : (Text → Cell) → List (Option Text) → ℕ → ℤ
int_by_name f columns n = int_of (option_map f (column columns n))

abbrev str_by_name : Decoders → (Text → Cell) → List (Option Text) → ℕ → Option Text
str_by_name d f columns n = text_of d (option_map f (column columns n))

-- A session and a contact by the names of their columns, in the order in which these are looked for.
abbrev pub session_by_name : Decoders → (Text → Cell) → List (Option Text) → Text → Session
session_by_name d f columns username = record {
  username = username;
  display_name = unwrap_or (str_by_name d f columns 0) [];
  kind = session_kind (int_by_name f columns 5) username;
  last_timestamp = int_by_name f columns 1;
  last_msg_type = if is_some (column columns 3) then some (int_by_name f columns 3) else none;
  summary = str_by_name d f columns 2;
  unread_count = int_by_name f columns 4;
  message_count = 0;
}

abbrev pub contact_by_name : Decoders → (Text → Cell) → List (Option Text) → Text → Contact
contact_by_name d f columns username = record {
  username = username;
  remark = keep_if filled (str_by_name d f columns 0);
  nickname = keep_if filled (str_by_name d f columns 1);
  alias = keep_if filled (str_by_name d f columns 2);
  avatar_url = keep_if filled (str_by_name d f columns 3);
  kind = contact_kind (int_by_name f columns 4) username;
}

has_at-column :
    (columns : List (Option Text)) (n : ℕ) → has_at columns n ≡ is_some (column columns n)
has_at-column [] n = refl
has_at-column (c ∷ columns) zero = refl
has_at-column (c ∷ columns) (suc n) = has_at-column columns n

-- A row of the user name and of those optional columns that the table has, in their order: each
-- field of the session, and of the contact, is the value of its own column, and of none if the
-- table lacks it.
pub session_of-columns :
    (d : Decoders) (f : Text → Cell) (u : Text) (columns : List (Option Text)) (username : Text)
    → (session_of d columns (map f (u ∷ present columns)) username
        ≡ session_by_name d f columns username)
      × (contact_of d columns (map f (u ∷ present columns)) username
          ≡ contact_by_name d f columns username)
session_of-columns d f u columns username =
    let int = λ (n : ℕ). int_at-column f u columns n (get_elem? columns n) refl in
    let str = λ (n : ℕ). str_at-column f d u columns n (get_elem? columns n) refl in
    (
      λ i. record {
        username = username;
        display_name = unwrap_or (str 0 i) [];
        kind = session_kind (int 5 i) username;
        last_timestamp = int 1 i;
        last_msg_type = if has_at-column columns 3 i then some (int 3 i) else none;
        summary = str 2 i;
        unread_count = int 4 i;
        message_count = 0;
      },
      λ i. record {
        username = username;
        remark = keep_if filled (str 0 i);
        nickname = keep_if filled (str 1 i);
        alias = keep_if filled (str 2 i);
        avatar_url = keep_if filled (str 3 i);
        kind = contact_kind (int 4 i) username;
      },
    )
