-- ===== src/Db.antt =====
-- src/db/scan.rs: the kinds of the source databases, told from their paths, and the names of the
-- account directories. The directory walk itself is input and output.
pub mod Live
pub mod Cipher
use weflow_server.Base.{
  ℕ, ◌-◌, Bool, ◌&&◌, ◌||◌, List, if◌then◌else◌, ltb, ◌==◌, all, drop, take, get_elem?, Option,
  none, some, length, map,
}
use weflow_server.Base.Text.{
  Text, codes, text_eq, starts_with, contains, is_ascii_digit, to_ascii_lower,
}

pub data DbKind : Type 0 where
  session message contact contact_fts media sns other : DbKind

-- The absolute path and that of the log are the caller's: `rel` names both.
pub record DbFile : Type 0 where
  pub rel : Text
  pub kind : DbKind

unfoldable pub classify_rel : Text → DbKind
classify_rel rel =
    let lower : Text = map to_ascii_lower rel in
    if text_eq lower (codes "migrate") || starts_with (codes "migrate/") lower
    then other
    else if starts_with (codes "session") lower || contains (codes "session.db") lower
    then session
    else if starts_with (codes "message") lower || contains (codes "msg") lower
    then message
    else if contains (codes "contact_fts") lower
    then contact_fts
    else if starts_with (codes "contact") lower
    then contact
    else if starts_with (codes "media") lower
    then media
    else if starts_with (codes "sns") lower
    then sns
    else other
