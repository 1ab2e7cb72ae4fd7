-- ===== src/EventBus/Pipeline/Inflight.antt =====
-- The map of messages in flight of sdk/pkg/eventbus/partition_pipeline.go, by offset, and
-- advanceFrontier on it. An offset is a number; Kafka's offsets stay far below the end of an int64.
use jxt_core.Base.{
  ℕ, zero, suc, ◌+◌, ◌≤◌, ◌<◌, ◌==◌, length, ◌≡◌, refl, Bool, true, false, not, ◌&&◌, Option, none,
  some, Option-cases, Bool-cases, inl, inr, List, [], ◌∷◌, if◌then◌else◌, arith,
}

pub record InflightEntry : Type 0 where
  pub is_envelope : Bool
  pub settled : Bool
  pub dlq_pending : Bool
  pub commitable : Bool

abbrev pub Inflight : Type 0
Inflight = List (ℕ × InflightEntry)

unfoldable pub find : ℕ → Inflight → Option InflightEntry
find k [] = none
find k ((j, e) ∷ l) = if j == k then some e else find k l

-- inflight[k] = e
unfoldable pub put : ℕ → InflightEntry → Inflight → Inflight
put k e [] = (k, e) ∷ []
put k e ((j, d) ∷ l) = if j == k then (k, e) ∷ l else (j, d) ∷ put k e l

-- delete(inflight, k)
unfoldable pub remove : ℕ → Inflight → Inflight
remove k [] = []
remove k ((j, d) ∷ l) = let rest = remove k l in if j == k then rest else (j, d) ∷ rest

pub find-put :
    (k j : ℕ) (e : InflightEntry) (l : Inflight)
    → find j (put k e l) ≡ (if k == j then some e else find j l)
unfolding find put
find-put k j e [] = ground arith
find-put k j e ((i, d) ∷ l) = ground (arith, find-put k j e l)

pub find-remove :
    (k j : ℕ) (l : Inflight) → find j (remove k l) ≡ (if k == j then none else find j l)
unfolding find remove
find-remove k j [] = ground arith
find-remove k j ((i, d) ∷ l) = ground (arith, find-remove k j l)

pub length-remove : (k : ℕ) (l : Inflight) → length (remove k l) ≤ length l
unfolding remove
length-remove k [] = omega arith
length-remove k ((i, d) ∷ l) = ground (arith, length-remove k l)

pub length-remove_found :
    (k : ℕ) (l : Inflight) (e : InflightEntry) → find k l ≡ some e → length (remove k l) < length l
unfolding find remove
length-remove_found k [] e h = cc
length-remove_found k ((i, d) ∷ l) e h =
    ground (arith, length-remove k l, length-remove_found k l e)

pub length-put_found :
    (k : ℕ) (e : InflightEntry) (l : Inflight) (x : InflightEntry)
    → find k l ≡ some x
    → length (put k e l) ≡ length l
unfolding find put
length-put_found k e [] x h = cc
length-put_found k e ((i, d) ∷ l) x h = ground (arith, length-put_found k e l x)

pub length-put : (k : ℕ) (e : InflightEntry) (l : Inflight) → length (put k e l) ≤ length l + 1
unfolding put
length-put k e [] = omega arith
length-put k e ((i, d) ∷ l) = ground (arith, length-put k e l)

-- The test of the loop: the entry at the frontier may be committed.
unfoldable pub ready : Option InflightEntry → Bool
ready none = false
ready (some e) = e.settled && not e.dlq_pending && e.commitable

-- What advanceFrontier leaves: the map, the frontier, and the last message passed.
pub record Advanced : Type 0 where
  pub inflight : Inflight
  pub frontier : ℕ
  pub last : Option ℕ

-- The loop, on fuel.
unfoldable pub advance_loop : ℕ → Advanced → Advanced
unfolding ready
advance_loop zero a = a
advance_loop (suc fuel) a =
    let rest = advance_loop fuel (record {
      inflight = remove a.frontier a.inflight;
      frontier = a.frontier + 1;
      last = some a.frontier;
    }) in
    if ready (find a.frontier a.inflight) then rest else a

-- Each round takes a message out of the map, so there are at most as many as messages.
unfoldable pub advance_frontier : Inflight → ℕ → Advanced
advance_frontier inflight frontier =
    advance_loop (length inflight)
      (record { inflight = inflight; frontier = frontier; last = none })

find-nil : (k : ℕ) (l : Inflight) → length l ≤ 0 → find k l ≡ none
unfolding find
find-nil k [] h = refl
find-nil k (x ∷ l) h = absurd (omega arith)

length-remove-ready :
    (k : ℕ) (l : Inflight) → ready (find k l) ≡ true → length (remove k l) < length l
unfolding ready
length-remove-ready k l h = elim (Option-cases (find k l)) [
  | inl missing ↦ absurd (ground arith)
  | inr (e, found) ↦ length-remove_found k l e found
]

advance_loop_stops :
    (fuel : ℕ) (a : Advanced)
    → length a.inflight ≤ fuel
    → ready (find (advance_loop fuel a).frontier (advance_loop fuel a).inflight) ≡ false
unfolding advance_loop
advance_loop_stops zero a h = unfold ready in rw (find-nil a.frontier a.inflight h)
advance_loop_stops (suc fuel) a h = elim (Bool-cases (ready (find a.frontier a.inflight))) [
  | inl go ↦
      rw go
        (advance_loop_stops fuel _ (omega (arith, length-remove-ready a.frontier a.inflight go)))
  | inr stop ↦ rw stop stop
]

-- The fuel suffices: the loop ends by its own test, at a frontier whose message is missing, not yet
-- settled, on its way to the DLQ, or not to be committed.
pub advance_frontier_stops :
    (l : Inflight) (f : ℕ)
    → ready (find (advance_frontier l f).frontier (advance_frontier l f).inflight) ≡ false
unfolding advance_frontier
advance_frontier_stops l f =
    advance_loop_stops (length l) (record { inflight = l; frontier = f; last = none }) (omega arith)
