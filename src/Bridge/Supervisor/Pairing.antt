-- ===== src/Bridge/Supervisor/Pairing.antt =====
-- Pairing: its admission, the events of the Pairer, expiry, and the result. The sink that hands the Pairer's
-- events to the caller is left out, but for the flag that closes it.
use om_tui.Common.{
  ℕ, ◌+◌, Bool, true, false, not, ◌&&◌, Option, String, ltb, leb, ◌==◌, coalesce, if◌then◌else◌,
}
use om_tui.Bridge.Types.{
  FailureClass, rate_limited, reauth_required, upgrade_required, misconfigured, unsupported, unset,
  OpError,
}
use om_tui.Bridge.Supervisor.State.{
  State, no_timer, pair_timer, Cause, Reply, done, refused, pairer_unavailable, pairing_in_progress,
  pairing_not_allowed, pairing_rate_limited, LinkedDevice, Loop, Config, Inputs, PairEventKind, qr,
  code, blocked, other,
}
use om_tui.Bridge.Supervisor.Failures.{classify_failure}
use om_tui.Bridge.Supervisor.Generations.{publish, enter}
use om_tui.Bridge.Supervisor.Probing.{is_clean}

abbrev pub is_pairing : State → Bool
is_pairing State.pairing = true
is_pairing _ = false

abbrev pub is_unpaired_state : State → Bool
is_unpaired_state State.unpaired = true
is_unpaired_state _ = false

abbrev pub clear_error : Loop → Loop
clear_error l = record l {
  snapshot = record l.snapshot { retry_at = 0; error_class = unset; error_fingerprint = "" };
}

unfoldable pub begin_pairing : Config → Inputs → Loop → Loop × Reply
begin_pairing c i l =
    if not c.pairs
    then (l, refused pairer_unavailable)
    else if l.pair_active
    then (l, refused pairing_in_progress)
    else if not (is_unpaired_state l.snapshot.state)
    then (l, refused pairing_not_allowed)
    else if not (l.snapshot.retry_at == 0) && ltb i.check l.snapshot.retry_at
    then (l, refused pairing_rate_limited)
    else (
      publish (
          enter State.pairing (
            clear_error (record l {
              timer = no_timer;
              pair_epoch = l.pair_epoch + 1;
              pair_active = true;
              pair_expired = false;
              pair_expires_at = 0;
              pair_sink_open = true;
            }))),
      done,
    )

unfoldable pub expire_pairing : Loop → Loop
expire_pairing l =
    if l.pair_active && is_pairing l.snapshot.state
    then publish (
        enter State.unpaired (
          clear_error (record l { timer = no_timer; pair_expired = true; pair_sink_open = false })))
    else l

-- The Pairer reports that the account is rate limited until a time.
abbrev pub block_pairing : ℕ → String → Loop → Loop
block_pairing expires_at message l = publish (record l {
  timer = no_timer;
  pair_expired = true;
  pair_expires_at = 0;
  pair_sink_open = false;
  snapshot = record l.snapshot {
    state = State.unpaired;
    retry_at = expires_at;
    error_class = rate_limited;
    error_fingerprint = message;
  };
})

-- A code that is valid until a time; 0 for none.
abbrev pub offer_code : Inputs → ℕ → Loop → Loop
offer_code i expires_at l =
    if expires_at == 0
    then l
    else if leb expires_at i.check
    then expire_pairing (record l { pair_expires_at = expires_at })
    else record l { pair_expires_at = expires_at; timer = pair_timer expires_at }

abbrev pub pair_event_of : Inputs → PairEventKind → ℕ → String → Loop → Loop
pair_event_of i blocked expires_at message l = block_pairing expires_at message l
pair_event_of i qr expires_at message l = offer_code i expires_at l
pair_event_of i code expires_at message l = offer_code i expires_at l
pair_event_of i other expires_at message l = l

-- `message` is the event's, trimmed.
unfoldable pub handle_pair_event : Inputs → ℕ → PairEventKind → ℕ → String → Loop → Loop
handle_pair_event i epoch kind expires_at message l =
    if l.pair_active && epoch == l.pair_epoch && is_pairing l.snapshot.state
    then pair_event_of i kind expires_at message l
    else l

-- The state that a failed pairing leaves.
abbrev pub after_failed_pairing : FailureClass → State
after_failed_pairing reauth_required = State.blocked
after_failed_pairing upgrade_required = State.blocked
after_failed_pairing misconfigured = State.blocked
after_failed_pairing unsupported = State.blocked
after_failed_pairing _ = State.unpaired

abbrev pub pair_retry_at : FailureClass → Option ℕ → ℕ
pair_retry_at rate_limited retry_at = coalesce retry_at 0
pair_retry_at _ _ = 0

abbrev pub fail_pairing : OpError → Loop → Loop
fail_pairing failure l = publish (record l {
  last_failure = failure;
  snapshot = record l.snapshot {
    state = after_failed_pairing failure.class;
    error_class = failure.class;
    error_fingerprint = failure.fingerprint;
    retry_at = pair_retry_at failure.class failure.retry_at;
  };
})

abbrev pub close_pairing : Cause → LinkedDevice → Loop → Loop
close_pairing cause device l =
    if l.pair_expired
    then if is_pairing l.snapshot.state then publish (enter State.unpaired l) else l
    else if is_clean cause
    then publish (enter State.stopped (clear_error (record l { request = device })))
    else fail_pairing (classify_failure cause "pair" "pair_failed") l

unfoldable pub expire_if_due : Inputs → Loop → Loop
expire_if_due i l =
    if not (l.pair_expires_at == 0) && leb l.pair_expires_at i.check then expire_pairing l else l

abbrev pub leave_pairer : Loop → Loop
leave_pairer l = record l { pair_active = false; pair_sink_open = false; timer = no_timer }

unfoldable pub handle_pair_result : Inputs → ℕ → Cause → LinkedDevice → Loop → Loop
handle_pair_result i epoch cause device l =
    if l.pair_active && epoch == l.pair_epoch
    then close_pairing cause device (leave_pairer (expire_if_due i l))
    else l
