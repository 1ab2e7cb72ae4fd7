-- ===== src/Outbox/Event/Retries.antt =====
-- The retry counter of an event and the status that it leads to (sdk/pkg/outbox/event.go).
use jxt_core.Base.{
  ℕ, zero, suc, ◌+◌, ◌<◌, pos, ltb_ℤ, int_incr_exact, max_int, String, ◌≡◌, refl, ◌∙◌, false, not,
  Option, if◌then◌else◌, arith,
}
use jxt_core.Outbox.Event.Defs.{
  failed, max_retry, OutboxEvent, can_retry, increment_retry, mark_as_failed, is_max_retry, Error,
}

-- `n + 1` failures, each recorded by `increment_retry` at some instant with some message.
pub increment_retries : (n : ℕ) → (ℕ → ℕ) → (ℕ → String) → OutboxEvent → OutboxEvent
increment_retries zero now message e = increment_retry (now zero) (message zero) e
increment_retries (suc n) now message e =
    increment_retry (now (suc n)) (message (suc n)) (increment_retries n now message e)

count-increment_retry :
    (r now : ℕ) (message : String) (e : OutboxEvent)
    → e.retry_count ≡ pos r
    → r < max_int
    → ((increment_retry now message e).retry_count ≡ pos (r + 1))
      × ((increment_retry now message e).max_retries ≡ e.max_retries)
      × ((increment_retry now message e).status
          ≡ (if ltb_ℤ (pos (r + 1)) e.max_retries then failed else max_retry))
unfolding increment_retry
count-increment_retry r now message e h b = rw h (rw (int_incr_exact r b) (refl, refl, refl))

-- For an event with retry count r, after n + 1 recorded failures (with no overflow) the count is
-- r + n + 1, the retry limit is the same, and the status is max_retry exactly when the count has
-- reached the limit, failed otherwise.
pub increment_retries_status :
    (n r : ℕ) (now : ℕ → ℕ) (message : ℕ → String) (e : OutboxEvent)
    → e.retry_count ≡ pos r
    → r + n < max_int
    → ((increment_retries n now message e).retry_count ≡ pos (r + n + 1))
      × ((increment_retries n now message e).max_retries ≡ e.max_retries)
      × ((increment_retries n now message e).status
          ≡ (if ltb_ℤ (pos (r + n + 1)) e.max_retries then failed else max_retry))
unfolding increment_retries
increment_retries_status zero r now message e h b =
    let same : r + 0 ≡ r = omega arith in
    rw same (count-increment_retry r (now 0) (message 0) e h (omega arith))
increment_retries_status (suc n) r now message e h b =
    let before = increment_retries_status n r now message e h (omega arith) in
    let step : r + suc n ≡ r + n + 1 = omega arith in
    let after =
      count-increment_retry (r + n + 1) (now (suc n)) (message (suc n))
        (increment_retries n now message e) before.0 (omega arith) in
    rw step (after.0, after.1 ∙ before.1, rw before.1 at after.2)

-- Each recorded failure of an event keeps the two ways to read "no retry is left" together: the
-- status is max_retry exactly when can_retry is false.
pub increment_retry-can_retry :
    (now : ℕ) (message : String) (e : OutboxEvent)
    → is_max_retry (increment_retry now message e) ≡ not (can_retry (increment_retry now message e))
unfolding increment_retry is_max_retry can_retry
increment_retry-can_retry now message e = ground arith

-- A failure recorded by mark_as_failed never leads to max_retry, even when no retry is left.
pub mark_as_failed-status :
    (now : ℕ) (err : Option Error) (e : OutboxEvent)
    → is_max_retry (mark_as_failed now err e) ≡ false
unfolding mark_as_failed is_max_retry
mark_as_failed-status now err e = refl
