-- ===== src/Outbox/Queries/Schedule.antt =====
-- EarliestDue and nextPollDelay: the worker sleeps no longer than until a row may be due.
use om_tui.Common.{
  ℕ, ◌-◌, ◌+◌, ◌*◌, ◌≤◌, ◌≡◌, Bool, true, false, Option, none, some, List, [], ◌∷◌, any, opt_leb,
  ltb, if◌then◌else◌, arith,
}
use om_tui.Outbox.Types.{OutboxItem, Database, is_pending, unix_milli}
use om_tui.Outbox.Leasing.{due, due_key}
use om_tui.Outbox.Queries.{earliest_key, earliest_due, least}

-- Whether some row is due at a time in milliseconds.
abbrev pub has_due : ℕ → List OutboxItem → Bool
has_due ms rows = any (due ms) rows

due_key-le :
    (ms : ℕ) (r : OutboxItem) → due ms r ≡ true → (is_pending r.state ≡ true) × (due_key r ≤ ms)
unfolding due due_key
due_key-le ms r h = (ground arith, ground arith)

earliest_key-leb :
    (ms : ℕ) (rows : List OutboxItem)
    → has_due ms rows ≡ true
    → opt_leb (earliest_key rows) ms ≡ true
unfolding earliest_key least
earliest_key-leb ms [] h = cc
earliest_key-leb ms (r ∷ rows) h = ground (arith, due_key-le ms r, earliest_key-leb ms rows)

-- nextPollDelay, in nanoseconds; `fault` is a failed read. A row that is due already gives no delay of
-- its own, where the source has a negative one, and both are raised to the poll delay.
unfoldable pub next_poll_delay : ℕ → ℕ → Bool → ℕ → Option ℕ → ℕ
next_poll_delay poll max fault now none = max
next_poll_delay poll max fault now (some earliest) =
    if fault
    then max
    else if ltb (earliest * 1000000 - now) poll
    then poll
    else if ltb max (earliest * 1000000 - now)
    then max
    else earliest * 1000000 - now

bounded :
    (poll max now : ℕ) (earliest : Option ℕ)
    → poll ≤ max
    → (poll ≤ next_poll_delay poll max false now earliest)
      × (next_poll_delay poll max false now earliest ≤ max)
unfolding next_poll_delay
bounded poll max now none l = (l, omega arith)
bounded poll max now (some e) l = (ground arith, ground arith)

woken :
    (poll max now t : ℕ) (earliest : Option ℕ)
    → opt_leb earliest (unix_milli t) ≡ true
    → now + poll ≤ t
    → now + next_poll_delay poll max false now earliest ≤ t
unfolding next_poll_delay
woken poll max now t none h l = cc
woken poll max now t (some e) h l = ground arith

-- Where EarliestDue is read without a fault, the delay before the next poll lies between the poll delay
-- and the greatest one, and the worker does not sleep past a time when a stored row is due: if some row
-- is due at a time t, not before the shortest sleep is over, the sleep has ended by t.
pub next_poll_delay-wakes :
    (poll max now t : ℕ) (db : Database)
    → poll ≤ max
    → now + poll ≤ t
    → has_due (unix_milli t) db.outbox ≡ true
    → (poll ≤ next_poll_delay poll max false now (earliest_due db))
      × (next_poll_delay poll max false now (earliest_due db) ≤ max)
      × (now + next_poll_delay poll max false now (earliest_due db) ≤ t)
unfolding earliest_due
next_poll_delay-wakes poll max now t db l after h =
    let (a, b) = bounded poll max now (earliest_key db.outbox) l in
    (
      a,
      b,
      woken poll max now t (earliest_key db.outbox) (earliest_key-leb (unix_milli t) db.outbox h)
          after,
    )
