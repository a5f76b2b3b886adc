-- ===== src/Store/Names.antt =====
-- The display names of src/store/mod.rs.
use weflow_server.Base.{◌≡◌, false, none, some, arith, if◌then◌else◌}
use weflow_server.Base.Text.{Text, is_empty}
use weflow_server.Store.{
  Contact, contact_name, Store, session_display, session_display_opt, sender_display, group_card,
}

-- The name of a contact is empty only where the user name is.
pub contact_name-filled :
    (c : Contact) → is_empty c.username ≡ false → is_empty (contact_name c) ≡ false
unfolding contact_name
contact_name-filled c h = ground arith

-- A session that has a user name is never shown with an empty name.
pub session_display-filled :
    (s : Store) (username : Text)
    → is_empty username ≡ false
    → is_empty (session_display s username) ≡ false
unfolding session_display session_display_opt
session_display-filled s username h = ground arith

-- A card that is not empty is what is shown of a sender in a room; with no card, a sender is shown
-- in a room as outside of any.
pub sender_display-card :
    (s : Store) (room sender fallback : Text)
    → sender_display s (some room) sender fallback ≡ (
        if is_empty (group_card s (some room) sender)
        then sender_display s none sender fallback
        else group_card s (some room) sender)
unfolding sender_display group_card
sender_display-card s room sender fallback = ground arith
