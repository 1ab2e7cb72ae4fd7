-- ===== src/Tenant/Provider/Loop.antt =====
-- watchLoop of sdk/pkg/tenant/provider/provider.go: what it receives from the channel of the watch, one
-- message after the other.
use jxt_core.Base.{ℕ, ◌≤◌, ◌≡◌, refl, sym, ◌∙◌, String, List, [], ◌∷◌, ◌++◌, All, All-append, arith}
use jxt_core.Tenant.Provider.Data.{TenantData, Codec}
use jxt_core.Tenant.Provider.Watch.{
  Change, handle_watch_events, handle_watch_event, initial_backoff, max_backoff, calculate_backoff,
}

-- What the loop sees: the channel is closed, an answer with an error, an answer with events, the
-- end of the context. While the loop waits after `closed`, the next message is what it sees first.
pub data Message : Type 0 where
  closed : Message
  watch_error : Message
  answer : List (String × Change) → Message
  cancelled : Message

-- The wait before the next reconnection, the data, and the waits so far.
pub record Loop : Type 0 where
  pub backoff : ℕ
  pub data_now : TenantData
  pub waited : List ℕ

-- The state that watchLoop starts with.
abbrev pub started : TenantData → Loop
started d = record { backoff = initial_backoff; data_now = d; waited = [] }

-- The events of the answers before the end of the context.
abbrev pub received : List Message → List (String × Change)
received [] = []
received (closed ∷ ms) = received ms
received (watch_error ∷ ms) = received ms
received (answer evs ∷ ms) = evs ++ received ms
received (cancelled ∷ ms) = []

abbrev pub IsBackoff : ℕ → Type 0
IsBackoff w = (initial_backoff ≤ w) × (w ≤ max_backoff)

calculate_backoff-IsBackoff : (w : ℕ) → IsBackoff w → IsBackoff (calculate_backoff w)
unfolding calculate_backoff
calculate_backoff-IsBackoff w b = (ground (arith, b.0, b.1), ground (arith, b.0, b.1))

module _ (j : Codec) where
  unfoldable pub watch_loop : List Message → Loop → Loop
  unfolding handle_watch_events calculate_backoff
  watch_loop [] s = s
  watch_loop (closed ∷ ms) s =
      watch_loop ms
        (record s { backoff = calculate_backoff s.backoff; waited = s.waited ++ s.backoff ∷ [] })
  watch_loop (watch_error ∷ ms) s = watch_loop ms s
  watch_loop (answer evs ∷ ms) s =
      watch_loop ms
        (record s { backoff = initial_backoff; data_now = handle_watch_events j evs s.data_now })
  watch_loop (cancelled ∷ ms) s = s

  handle_watch_events-append :
      (xs ys : List (String × Change)) (d : TenantData)
      → handle_watch_events j (xs ++ ys) d ≡ handle_watch_events j ys (handle_watch_events j xs d)
  unfolding handle_watch_events
  handle_watch_events-append [] ys d = refl
  handle_watch_events-append ((key, ev) ∷ xs) ys d =
      handle_watch_events-append xs ys (handle_watch_event j key ev d)

  -- The data after the loop are what the events of all its answers make of the data before, in
  -- their order, whatever errors and closed channels come between them.
  pub watch_loop-handle_watch_events :
      (ms : List Message) (s : Loop)
      → (watch_loop ms s).data_now ≡ handle_watch_events j (received ms) s.data_now
  unfolding watch_loop handle_watch_events
  watch_loop-handle_watch_events [] s = refl
  watch_loop-handle_watch_events (closed ∷ ms) s = watch_loop-handle_watch_events ms _
  watch_loop-handle_watch_events (watch_error ∷ ms) s = watch_loop-handle_watch_events ms s
  watch_loop-handle_watch_events (answer evs ∷ ms) s =
      watch_loop-handle_watch_events ms _
      ∙ sym (handle_watch_events-append evs (received ms) s.data_now)
  watch_loop-handle_watch_events (cancelled ∷ ms) s = refl

  watch_loop_waits :
      (ms : List Message) (s : Loop)
      → IsBackoff s.backoff
      → All IsBackoff s.waited
      → All IsBackoff (watch_loop ms s).waited
  unfolding watch_loop
  watch_loop_waits [] s b h = h
  watch_loop_waits (closed ∷ ms) s b h =
      watch_loop_waits ms _ (calculate_backoff-IsBackoff s.backoff b)
        (All-append IsBackoff s.waited (s.backoff ∷ []) h (b, tt))
  watch_loop_waits (watch_error ∷ ms) s b h = watch_loop_waits ms s b h
  watch_loop_waits (answer evs ∷ ms) s b h = watch_loop_waits ms _ (ground arith, ground arith) h
  watch_loop_waits (cancelled ∷ ms) s b h = h

  -- Each wait of the loop before it connects again is between one second and thirty.
  pub watch_loop_waits_bounded :
      (ms : List Message) (d : TenantData) → All IsBackoff (watch_loop ms (started d)).waited
  watch_loop_waits_bounded ms d = watch_loop_waits ms (started d) (ground arith, ground arith) tt
