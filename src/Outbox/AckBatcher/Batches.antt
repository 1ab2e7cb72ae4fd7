-- ===== src/Outbox/AckBatcher/Batches.antt =====
-- What the batches of sdk/pkg/outbox/ack_marker_batcher.go hold.
use jxt_core.Base.{
  ℤ, ◌≡◌, refl, sym, ap, ◌∙◌, String, Bool, true, false, List, [], ◌∷◌, ◌++◌, is_empty, arith, inl,
  inr, Bool-cases,
}
use jxt_core.Outbox.AckBatcher.Defs.{
  Batcher, new_batcher, add, close, flush, Signal, adds, closes, wakes, ticks, finishes, is_ready,
  handle, receive, run, accepted, joined,
}
use mathlib.Core.List.{append-nil, append_assoc}

-- Every id taken, in order: those in the batches, then those waiting.
abbrev taken : Batcher → List String
taken b = joined b.flushed ++ b.ids

joined-append : (ls : List (List String)) (l : List String) → joined (ls ++ l ∷ []) ≡ joined ls ++ l
joined-append [] l = append-nil l
joined-append (k ∷ ls) l =
    ap (λ x. k ++ x) (joined-append ls l) ∙ sym (append_assoc k (joined ls) l)

taken-flush : (ok : Bool) (b : Batcher) → taken (flush ok b) ≡ taken b
unfolding flush
taken-flush ok b = elim (Bool-cases (is_empty b.ids)) [
  | inl nothing ↦ simp (nothing, flush) refl
  | inr waiting ↦ simp (waiting, flush) (append-nil _ ∙ joined-append b.flushed b.ids)
]

closed-flush : (ok : Bool) (b : Batcher) → (flush ok b).closed ≡ b.closed
unfolding flush
closed-flush ok b = elim (Bool-cases (is_empty b.ids)) [
  | inl nothing ↦ simp (nothing, flush) refl
  | inr waiting ↦ simp (waiting, flush) refl
]

-- What the signals to come will add.
abbrev coming : Bool → List Signal → List String
coming true ss = []
coming false ss = accepted ss

coming-closes : (c : Bool) (ss : List Signal) → coming c (closes ∷ ss) ≡ []
unfolding accepted
coming-closes true ss = refl
coming-closes false ss = refl

taken-add :
    (id : String) (b : Batcher) (c : Bool)
    → b.closed ≡ c
    → (ss : List Signal)
    → taken (add id b) ++ coming (add id b).closed ss ≡ taken b ++ coming c (adds id ∷ ss)
unfolding add accepted
taken-add id b true is ss = simp (is, add) refl
taken-add id b false is ss =
    simp (is, add)
      (ap (λ l. l ++ accepted ss) (sym (append_assoc (joined b.flushed) b.ids (id ∷ [])))
        ∙ append_assoc (taken b) (id ∷ []) (accepted ss))

-- A signal of the loop adds no id.
Silent : Signal → Type 0
Silent s = (c : Bool) (ss : List Signal) → coming c (s ∷ ss) ≡ coming c ss

wakes-Silent : (ok : Bool) → Silent (wakes ok)
unfolding Silent accepted
wakes-Silent ok true ss = refl
wakes-Silent ok false ss = refl

ticks-Silent : (ok : Bool) → Silent (ticks ok)
unfolding Silent accepted
ticks-Silent ok true ss = refl
ticks-Silent ok false ss = refl

finishes-Silent : (ok : Bool) → Silent (finishes ok)
unfolding Silent accepted
finishes-Silent ok true ss = refl
finishes-Silent ok false ss = refl

taken-Silent :
    (s : Signal) (b : Batcher) (ss : List Signal)
    → Silent s
    → taken (handle s b) ≡ taken b
    → (handle s b).closed ≡ b.closed
    → taken (receive s b) ++ coming (receive s b).closed ss ≡ taken b ++ coming b.closed (s ∷ ss)
unfolding receive Silent
taken-Silent s b ss silent same still = elim (Bool-cases (is_ready s b)) [
  | inl go ↦ simp (go, receive, same, still, silent b.closed ss) refl
  | inr not_yet ↦ simp (not_yet, receive, silent b.closed ss) refl
]

taken-receive :
    (s : Signal) (b : Batcher) (ss : List Signal)
    → taken (receive s b) ++ coming (receive s b).closed ss ≡ taken b ++ coming b.closed (s ∷ ss)
unfolding receive handle is_ready close
taken-receive (adds id) b ss = taken-add id b b.closed refl ss
taken-receive closes b ss = ap (λ l. taken b ++ l) (sym (coming-closes b.closed ss))
taken-receive (wakes ok) b ss =
    taken-Silent (wakes ok) b ss (wakes-Silent ok) (taken-flush ok (record b { wake = false }))
      (closed-flush ok (record b { wake = false }))
taken-receive (ticks ok) b ss =
    taken-Silent (ticks ok) b ss (ticks-Silent ok) (taken-flush ok b) (closed-flush ok b)
taken-receive (finishes ok) b ss =
    taken-Silent (finishes ok) b ss (finishes-Silent ok) (taken-flush ok b) (closed-flush ok b)

taken-run : (ss : List Signal) (b : Batcher) → taken (run ss b) ≡ taken b ++ coming b.closed ss
unfolding run accepted
taken-run [] b = sym (coming-nil b.closed)
  where
    coming-nil : (c : Bool) → taken b ++ coming c [] ≡ taken b
    coming-nil true = append-nil (taken b)
    coming-nil false = append-nil (taken b)
taken-run (s ∷ ss) b = taken-run ss (receive s b) ∙ taken-receive s b ss

-- Once the loop has returned the buffer is empty and closed.
abbrev Ended : Batcher → Type 0
Ended b = b.exited ≡ true → (b.ids ≡ []) × (b.closed ≡ true)

Ended-flush : (ok : Bool) (b : Batcher) → Ended b → Ended (flush ok b)
unfolding flush
Ended-flush ok b h = elim (Bool-cases (is_empty b.ids)) [
  | inl nothing ↦ simp (nothing, flush) h
  | inr waiting ↦ simp (waiting, flush) (λ e. (refl, (h e).1))
]

ids-flush : (ok : Bool) (b : Batcher) → (flush ok b).ids ≡ []
unfolding flush
ids-flush ok b = elim (Bool-cases (is_empty b.ids)) [
  | inl nothing ↦ simp (nothing, flush) (empty b.ids nothing)
  | inr waiting ↦ simp (waiting, flush) refl
]
  where
    empty : (l : List String) → is_empty l ≡ true → l ≡ []
    empty [] h = refl
    empty (x ∷ l) h = absurd (ground arith)

Ended-handle : (s : Signal) (b : Batcher) → is_ready s b ≡ true → Ended b → Ended (handle s b)
unfolding handle is_ready add close
Ended-handle (adds id) b go h = elim (Bool-cases b.closed) [
  | inl shut ↦ simp (shut, add) (λ e. ((h e).0, refl))
  | inr still_open ↦ simp (still_open, add) (λ e. absurd (ground (arith, h e)))
]
Ended-handle closes b go h = λ e. ((h e).0, refl)
Ended-handle (wakes ok) b go h = Ended-flush ok _ h
Ended-handle (ticks ok) b go h = Ended-flush ok b h
Ended-handle (finishes ok) b go h = λ e. (ids-flush ok b, closed-flush ok b ∙ ground arith)

Ended-run : (ss : List Signal) (b : Batcher) → Ended b → Ended (run ss b)
unfolding run receive
Ended-run [] b h = h
Ended-run (s ∷ ss) b h = elim (Bool-cases (is_ready s b)) [
  | inl go ↦ simp (go, run, receive) (Ended-run ss (handle s b) (Ended-handle s b go h))
  | inr not_yet ↦ simp (not_yet, run, receive) (Ended-run ss b h)
]

-- Once the loop has returned after Close, the batches handed to the flush function hold, in order,
-- just the ids added before the first Close: none is lost or handed over twice, whatever the order of
-- wake-ups, ticks and answers.
pub joined-run :
    (max_size threshold : ℤ) (ss : List Signal)
    → (run ss (new_batcher max_size threshold)).exited ≡ true
    → joined (run ss (new_batcher max_size threshold)).flushed ≡ accepted ss
unfolding new_batcher
joined-run max_size threshold ss ended =
    let b = run ss (new_batcher max_size threshold) in
    let nothing =
      (Ended-run ss (new_batcher max_size threshold) (λ e. absurd (ground arith)) ended).0 in
    sym (append-nil (joined b.flushed))
    ∙ ap (λ l. joined b.flushed ++ l) (sym nothing)
    ∙ taken-run ss (new_batcher max_size threshold)
