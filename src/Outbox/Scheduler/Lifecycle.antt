-- ===== src/Outbox/Scheduler/Lifecycle.antt =====
-- Start, Stop and the end of the polling loop (sdk/pkg/outbox/scheduler.go), as events on the
-- scheduler's flag and its two channels. Closing a channel twice panics.
use jxt_core.Base.{
  ℕ, suc, ◌+◌, ◌-◌, ◌≤◌, ◌≡◌, ◌≢◌, refl, Bool, true, false, not, ◌&&◌, ◌||◌, Option, none, some,
  List, [], ◌∷◌, if◌then◌else◌, arith, ltb,
}

-- `polls` counts the polling loops that run; `cancelled` says that the context given to Start has
-- ended.
pub record Life : Type 0 where
  pub running : Bool
  pub stop_closed : Bool
  pub done_closed : Bool
  pub cancelled : Bool
  pub polls : ℕ

abbrev pub new_life : Life
new_life = record {
  running = false;
  stop_closed = false;
  done_closed = false;
  cancelled = false;
  polls = 0;
}

pub data Event : Type 0 where
  start stop cancel poll_loop_ends : Event

-- A refused Start or Stop changes nothing; `none` is a panic.
unfoldable pub on_start : Life → Option Life
on_start l = if l.running then some l else some (record l { running = true; polls = suc l.polls })

unfoldable pub on_stop : Life → Option Life
on_stop l =
    if not l.running
    then some l
    else if l.stop_closed
    then none
    else some (record l { running = false; stop_closed = true })

-- A loop ends only if the stop channel is closed or its context has ended; it then closes the done
-- channel.
unfoldable pub on_poll_loop_ends : Life → Option Life
on_poll_loop_ends l =
    if ltb 0 l.polls && (l.stop_closed || l.cancelled)
    then (if l.done_closed
        then none
        else some (record l { polls = l.polls - 1; done_closed = true }))
    else some l

unfoldable pub life_step : Event → Life → Option Life
unfolding on_start on_stop on_poll_loop_ends
life_step start l = on_start l
life_step stop l = on_stop l
life_step cancel l = some (record l { cancelled = true })
life_step poll_loop_ends l = on_poll_loop_ends l

unfoldable pub live : List Event → Life → Option Life
live [] l = some l
live (e ∷ es) l = elim (life_step e l) [ none ↦ none | some l' ↦ live es l' ]

abbrev pub starts : List Event → ℕ
starts [] = 0
starts (start ∷ es) = suc (starts es)
starts (_ ∷ es) = starts es

-- With `k` calls of Start made so far.
record Inv (k : ℕ) (l : Life) : Type 0 where
  stopped : l.stop_closed ≡ true → (l.running ≡ false) × (1 ≤ k)
  ran : l.running ≡ true → 1 ≤ k
  loops : l.polls ≤ k
  done_loops : l.done_closed ≡ true → l.polls + 1 ≤ k

abbrev started : Event → ℕ
started start = 1
started _ = 0

abbrev Fine : ℕ → Option Life → Type 0
Fine k none = ⊥
Fine k (some l) = Inv k l

-- With at most one Start in all, an event is fine after `k` Starts.
step-Fine :
    (e : Event) (k : ℕ) (l : Life)
    → Inv k l
    → started e + k ≤ 1
    → Fine (started e + k) (life_step e l)
unfolding life_step
step-Fine start k l v b = ground arith
step-Fine stop k l v b = ground arith
step-Fine cancel k l v b = ground arith
step-Fine poll_loop_ends k l v b = ground arith

starts-cons : (e : Event) (es : List Event) → starts (e ∷ es) ≡ started e + starts es
starts-cons start es = omega arith
starts-cons stop es = omega arith
starts-cons cancel es = omega arith
starts-cons poll_loop_ends es = omega arith

live-ne-none : (es : List Event) (k : ℕ) (l : Life) → Inv k l → starts es + k ≤ 1 → live es l ≢ none
unfolding live
live-ne-none [] k l v b = λ h. cc
live-ne-none (e ∷ es) k l v b =
    go (life_step e l) (live-ne-none es (started e + k))
      (step-Fine e k l v (omega (arith, starts-cons e es)))
  where
    go :
        (o : Option Life)
        → ((l' : Life)
            → Inv (started e + k) l'
            → starts es + (started e + k) ≤ 1
            → live es l' ≢ none)
        → Fine (started e + k) o
        → ◌≢◌ {A = Option Life} (elim o [ none ↦ none | some l' ↦ live es l' ]) none
    go none ih f = absurd f
    go (some l') ih f = ih l' f (omega (arith, starts-cons e es))

-- Of a new scheduler on which Start is called at most once, neither channel is closed twice, so that no
-- such panic ends it, whatever the order of Start, Stops, cancellation and the end of the polling loop.
-- What the loops do at their ticks is not part of this.
pub started_once : (es : List Event) → starts es ≤ 1 → live es new_life ≢ none
started_once es b =
    live-ne-none es 0 new_life
      (record { stopped = λ h. cc; ran = λ h. cc; loops = omega arith; done_loops = λ h. cc })
      (omega arith)

-- A stopped scheduler cannot be used again: its Start succeeds (it runs, with one more polling loop), and
-- a Stop right after it closes the closed stop channel and panics.
pub restart_panics :
    (l : Life)
    → l.stop_closed ≡ true
    → l.running ≡ false
    → (l' : Life) × (live (start ∷ []) l ≡ some l')
      × (l'.running ≡ true)
      × (l'.polls ≡ suc l.polls)
      × (live (stop ∷ []) l' ≡ none)
unfolding live life_step
restart_panics l h r =
    (record l { running = true; polls = suc l.polls }, ground arith, refl, refl, ground arith)
