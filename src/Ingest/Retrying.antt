-- ===== src/Ingest/Retrying.antt =====
-- internal/ingest/quarantine.go: retryTransient and classifyApplyError.
use om_tui.Common.{
  ℕ, zero, suc, ◌+◌, ◌≤◌, ◌<◌, ◌≡◌, ◌⊎◌, inl, inr, refl, Bool, true, false, ◌&&◌, not,
  if◌then◌else◌, Bool-cases, subst, sym, arith,
}

-- What retryTransient tells apart in an error: none, a quarantine error, a stale replay, a busy or locked
-- database, and any other.
pub data Fault : Type 0 where
  no_fault deterministic stale_replay busy other_fault : Fault

pub data Retried : Type 0 where
  returned : Fault → Retried
  -- The context's error, from waitForRetry.
  wait_canceled : Retried
  -- transientExhaustedError.
  exhausted : Retried

abbrev pub is_busy : Fault → Bool
is_busy busy = true
is_busy _ = false

-- An error of applyEvents before it is classified.
pub data ApplyFault : Type 0 where
  applied projection_conflict database_busy another : ApplyFault

unfoldable pub classify_apply_error : ApplyFault → Fault
classify_apply_error applied = no_fault
classify_apply_error projection_conflict = stale_replay
classify_apply_error database_busy = busy
classify_apply_error another = deterministic

-- So many waits in a row, from this one on, are not canceled.
abbrev pub all_waited : ℕ → (ℕ → Bool) → ℕ → Bool
all_waited zero stopped attempt = true
all_waited (suc n) stopped attempt = not (stopped attempt) && all_waited n stopped (attempt + 1)

module _ {ℓ} {S : Type ℓ} where
  -- The loop of retryTransient with the retries that are left. `stopped` tells of each wait, counted
  -- from 0, whether the context is done by its end.
  unfoldable pub retry_loop : ℕ → (S → S × Fault) → (ℕ → Bool) → ℕ → S → S × Retried
  retry_loop zero operation stopped attempt s =
      let (s', fault) = operation s in (s', if is_busy fault then exhausted else returned fault)
  retry_loop (suc left) operation stopped attempt s =
      let (s', fault) = operation s in
      let rest = retry_loop left operation stopped (attempt + 1) s' in
      if is_busy fault
      then if stopped attempt then (s', wait_canceled) else rest
      else (s', returned fault)

  -- maxTransientRetries is 3.
  unfoldable pub retry_transient : (S → S × Fault) → (ℕ → Bool) → S → S × Retried
  retry_transient operation stopped s = retry_loop 3 operation stopped 0 s

  -- The state after so many calls of the operation.
  abbrev pub after : ℕ → (S → S × Fault) → S → S
  after zero operation s = s
  after (suc n) operation s = after n operation (operation s).0

  -- So many calls in a row find the database busy.
  abbrev pub all_busy : ℕ → (S → S × Fault) → S → Bool
  all_busy zero operation s = true
  all_busy (suc n) operation s = is_busy (operation s).1 && all_busy n operation (operation s).0

  abbrev pub last_fault : ℕ → (S → S × Fault) → S → Fault
  last_fault n operation s = (operation (after n operation s)).1

  -- How a run with so many retries before its last call ended: by that call's result, out of retries, or
  -- by the wait after it.
  abbrev pub Ended : ℕ → ℕ → (S → S × Fault) → (ℕ → Bool) → ℕ → S → S × Retried → Type ℓ
  Ended limit retries operation stopped attempt s r =
      (r.0 ≡ after (suc retries) operation s)
      × (all_busy retries operation s ≡ true)
      × (all_waited retries stopped attempt ≡ true)
      × (((r.1 ≡ returned (last_fault retries operation s))
            × (is_busy (last_fault retries operation s) ≡ false))
          ⊎ (((r.1 ≡ exhausted)
                × (retries ≡ limit)
                × (is_busy (last_fault retries operation s) ≡ true))
              ⊎ ((r.1 ≡ wait_canceled)
                  × (retries < limit)
                  × (is_busy (last_fault retries operation s) ≡ true)
                  × (stopped (attempt + retries) ≡ true))))

-- A busy call, and a wait that was not canceled, before a run that ended.
later-Ended {ℓ} :
    {S : Type ℓ} (limit retries : ℕ) (operation : S → S × Fault) (stopped : ℕ → Bool) (attempt : ℕ)
    (s : S) (r : S × Retried)
    → is_busy (operation s).1 ≡ true
    → stopped attempt ≡ false
    → Ended limit retries operation stopped (attempt + 1) (operation s).0 r
    → Ended (suc limit) (suc retries) operation stopped attempt s r
later-Ended limit retries operation stopped attempt s r b w (state, all, waited, inl e) =
    (state, ground arith, ground arith, inl e)
later-Ended limit retries operation stopped attempt s r b w (state, all, waited, inr (inl e)) =
    (state, ground arith, ground arith, inr (inl (e.0, omega (arith, e.1), e.2)))
later-Ended limit retries operation stopped attempt s r b w
      (state, all, waited, inr (inr (e, few, last, done))) =
    let at : attempt + 1 + retries ≡ attempt + suc retries = omega arith in
    (
      state,
      ground arith,
      ground arith,
      inr (inr (e, omega (arith, few), last, subst (λ k. stopped k ≡ true) at done)),
    )

busy-retry_loop {ℓ} :
    {S : Type ℓ} (left : ℕ) (operation : S → S × Fault) (stopped : ℕ → Bool) (attempt : ℕ) (s : S)
    → is_busy (operation s).1 ≡ true
    → stopped attempt ≡ false
    → retry_loop (suc left) operation stopped attempt s
      ≡ retry_loop left operation stopped (attempt + 1) (operation s).0
unfolding retry_loop
busy-retry_loop left operation stopped attempt s b g = rw (b, g) refl

-- A run of the loop ends after at most its retries, as the faults of its calls have it.
retry_loop-Ended {ℓ} :
    {S : Type ℓ} (left : ℕ) (operation : S → S × Fault) (stopped : ℕ → Bool) (attempt : ℕ) (s : S)
    → (retries : ℕ) × (retries ≤ left)
      × Ended left retries operation stopped attempt s (retry_loop left operation stopped attempt s)
unfolding retry_loop
retry_loop-Ended zero operation stopped attempt s = elim (Bool-cases (is_busy (operation s).1)) [
  | inl b ↦ (0, omega arith, (refl, refl, refl, inr (inl (rw b refl, refl, b))))
  | inr f ↦ (0, omega arith, (refl, refl, refl, inl (rw f refl, f)))
]
retry_loop-Ended (suc left) operation stopped attempt s =
    elim (Bool-cases (is_busy (operation s).1)) [
      | inr f ↦ (0, omega arith, (rw f refl, refl, refl, inl (rw f refl, f)))
      | inl b ↦ elim (Bool-cases (stopped attempt)) [
        | inl w ↦
            let at : attempt ≡ attempt + 0 = omega arith in
            (
              0,
              omega arith,
              (
                rw (b, w) refl,
                refl,
                refl,
                inr (inr (rw (b, w) refl, omega arith, b, subst (λ k. stopped k ≡ true) at w)),
              ),
            )
        | inr g ↦
            let (retries, within, ended) =
              retry_loop-Ended left operation stopped (attempt + 1) (operation s).0 in
            (
              suc retries,
              omega arith,
              subst (Ended (suc left) (suc retries) operation stopped attempt s)
                  (sym (busy-retry_loop left operation stopped attempt s b g))
                  (later-Ended left retries operation stopped attempt s
                    (retry_loop left operation stopped (attempt + 1) (operation s).0) b g ended),
            )
      ]
    ]

-- retryTransient calls its operation once and at most three times more, each time on the state that the
-- call before left, and only after a call that found the database busy and a wait that was not
-- canceled. It returns what the last call returned if that was not busy; it is exhausted only after four busy
-- calls; and it returns the context's error only where the last call was busy, retries were left, and
-- the wait after that call was canceled.
pub retry_transient-Ended {ℓ} :
    {S : Type ℓ} (operation : S → S × Fault) (stopped : ℕ → Bool) (s : S)
    → (retries : ℕ) × (retries ≤ 3)
      × Ended 3 retries operation stopped 0 s (retry_transient operation stopped s)
unfolding retry_transient
retry_transient-Ended operation stopped s = retry_loop-Ended 3 operation stopped 0 s
