-- ===== src/Outbox/Enqueue/Cursors.antt =====
-- upsertReadCursor of internal/storage/sqlite/read_cursors.go: one position for each device and
-- conversation, which moves forward in time only.
use om_tui.Common.{
  Bool, true, not, ◌&&◌, Option, none, some, List, [], ◌∷◌, ◌++◌, String, Result, ok, err,
  constraint_violation, ◌==◌, leb, if◌then◌else◌, str_eq, any, map,
}
use om_tui.Outbox.Types.{ReadCursor, Database}

unfoldable pub is_cursor_of : String → String → ReadCursor → Bool
is_cursor_of device conversation c =
    str_eq c.device_id device && str_eq c.conversation_id conversation

-- `DO UPDATE SET … WHERE excluded.last_read_at_ms >= read_cursors.last_read_at_ms`.
unfoldable pub advance : ReadCursor → ReadCursor → ReadCursor
advance new old =
    if leb old.last_read_at_ms new.last_read_at_ms
    then record old {
      last_read_message_id = new.last_read_message_id;
      last_read_at_ms = new.last_read_at_ms;
      updated_at_ms = new.updated_at_ms;
    }
    else old

position_allowed : ReadCursor → Database → Bool
position_allowed c db = elim c.last_read_message_id [
  | none ↦ true
  | some id ↦
      not (c.last_read_at_ms == 0)
      && any (λ m. str_eq m.conversation_id c.conversation_id && str_eq m.message_id id) db.messages
]

cursor_allowed : ReadCursor → Database → Bool
unfolding position_allowed
cursor_allowed c db =
    not (c.updated_at_ms == 0)
    && any (λ d. str_eq d.account_id c.account_id && str_eq d.device_id c.device_id) db.devices
    && any (λ x. str_eq x.account_id c.account_id && str_eq x.conversation_id c.conversation_id)
        db.conversations
    && position_allowed c db

unfoldable pub upsert_rows : ReadCursor → List ReadCursor → List ReadCursor
upsert_rows c rows =
    if any (is_cursor_of c.device_id c.conversation_id) rows
    then map (λ r. if is_cursor_of c.device_id c.conversation_id r then advance c r else r) rows
    else rows ++ record c { source_updated_at_ms = none } ∷ []

unfoldable pub upsert_read_cursor : Option ReadCursor → Database → Result Database
unfolding cursor_allowed
upsert_read_cursor none db = ok db
upsert_read_cursor (some c) db =
    if cursor_allowed c db
    then ok (record db { read_cursors = upsert_rows c db.read_cursors })
    else err constraint_violation
