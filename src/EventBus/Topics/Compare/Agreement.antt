-- ===== src/EventBus/Topics/Compare/Agreement.antt =====
-- When two configurations of a topic agree (sdk/pkg/eventbus/topic_config_manager.go).
use jxt_core.Base.{
  ℕ, ◌≤◌, leb, ℤ, pos, negsuc, zero, suc, ◌≤ℤ◌, ◌<ℤ◌, sub_ℕ, add_ℤ, add_int64, wrap_int, IsInt,
  max_int, String, not, str_eq, eq_iff, Bool, true, false, List, [], ◌∷◌, ◌++◌, ◌≡◌, ◌↔◌, refl,
  arith, Bool-cases, inl, inr,
}
use jxt_core.EventBus.Topics.Options.{TopicOptions}
use jxt_core.EventBus.Topics.Compare.Defs.{
  Value, text_value, TopicConfigMismatch, mismatch, differ, retentions_differ,
  compare_topic_options,
}

-- Both numbers are given (positive) only if they are equal.
abbrev pub Same : ℤ → ℤ → Type 0
Same e a = pos 0 <ℤ e → pos 0 <ℤ a → e ≡ a

-- At most a second apart, if both are given.
abbrev pub Close : ℤ → ℤ → Type 0
Close e a =
    pos 0 <ℤ e → pos 0 <ℤ a → (e ≤ℤ add_ℤ a (pos 1000000000)) × (a ≤ℤ add_ℤ e (pos 1000000000))

pub record Agrees (e a : TopicOptions) : Type 0 where
  pub same_mode : e.persistence_mode ≡ a.persistence_mode
  pub close_retention : Close e.retention_time a.retention_time
  pub same_size : Same e.max_size a.max_size
  pub same_messages : Same e.max_messages a.max_messages
  pub same_replicas : Same e.replicas a.replicas
  pub same_partitions : Same e.partitions a.partitions
  pub same_factor : Same e.replication_factor a.replication_factor

wrap_int-small : (a : ℤ) → IsInt a → wrap_int a ≡ a
unfolding wrap_int
wrap_int-small (pos n) h = ground (arith, h)
wrap_int-small (negsuc n) h = ground (arith, h)

sub_ℕ-IsInt : (x y : ℕ) → x ≤ max_int → y ≤ max_int → IsInt (sub_ℕ x y)
sub_ℕ-IsInt x y h k = elim (Bool-cases (leb y x)) [
  | inl e ↦ rw e (ground (arith, e, h))
  | inr e ↦ rw e (ground (arith, e, k))
]

retentions_iff : (e a : ℤ) → IsInt e → IsInt a → (retentions_differ e a ≡ false) ↔ Close e a
unfolding retentions_differ add_int64
retentions_iff (negsuc x) a h k = ground arith
retentions_iff (pos x) (negsuc y) h k = ground arith
retentions_iff (pos x) (pos zero) h k = ground arith
retentions_iff (pos x) (pos (suc y)) h k =
    rw (wrap_int-small (sub_ℕ x (suc y)) (sub_ℕ-IsInt x (suc y) h k)) (ground arith)

differ_iff : (e a : ℤ) → (differ e a ≡ false) ↔ Same e a
differ_iff (pos x) (pos y) = ground arith
differ_iff (pos x) (negsuc y) = ground arith
differ_iff (negsuc x) a = ground arith

module _ {A : Type 0} where
  nil_iff : (xs ys : List A) → (xs ++ ys ≡ []) ↔ ((xs ≡ []) × (ys ≡ []))
  nil_iff [] ys = (λ h. (refl, h), λ h. h.1)
  nil_iff (x ∷ xs) ys = (λ h. cc, λ h. cc)

mismatch_iff :
    (found : Bool) (topic name : String) (e a : Value) (fixable : Bool) (advice : String)
    → (mismatch found topic name e a fixable advice ≡ []) ↔ (found ≡ false)
mismatch_iff true topic name e a fixable advice = (λ h. cc, λ h. cc)
mismatch_iff false topic name e a fixable advice = (λ h. refl, λ h. refl)

Agrees-iff :
    (e a : TopicOptions)
    → IsInt e.retention_time
    → IsInt a.retention_time
    → ((not (str_eq e.persistence_mode a.persistence_mode) ≡ false)
        × (retentions_differ e.retention_time a.retention_time ≡ false)
        × (differ e.max_size a.max_size ≡ false)
        × (differ e.max_messages a.max_messages ≡ false)
        × (differ e.replicas a.replicas ≡ false)
        × (differ e.partitions a.partitions ≡ false)
        × (differ e.replication_factor a.replication_factor ≡ false))
      ↔ Agrees e a
Agrees-iff e a h k = (
  λ (mode, retention, size, messages, replicas, partitions, factor). record {
    same_mode = ground (arith, mode, eq_iff e.persistence_mode a.persistence_mode);
    close_retention = (retentions_iff _ _ h k).0 retention;
    same_size = (differ_iff _ _).0 size;
    same_messages = (differ_iff _ _).0 messages;
    same_replicas = (differ_iff _ _).0 replicas;
    same_partitions = (differ_iff _ _).0 partitions;
    same_factor = (differ_iff _ _).0 factor;
  },
  λ r. (
    ground (arith, r.same_mode, eq_iff e.persistence_mode a.persistence_mode),
    (retentions_iff _ _ h k).1 r.close_retention,
    (differ_iff _ _).1 r.same_size,
    (differ_iff _ _).1 r.same_messages,
    (differ_iff _ _).1 r.same_replicas,
    (differ_iff _ _).1 r.same_partitions,
    (differ_iff _ _).1 r.same_factor,
  ),
)

nil_all :
    (x₁ x₂ x₃ x₄ x₅ x₆ x₇ : List TopicConfigMismatch)
    → (x₁ ++ x₂ ++ x₃ ++ x₄ ++ x₅ ++ x₆ ++ x₇ ≡ [])
      ↔ ((x₁ ≡ []) × (x₂ ≡ []) × (x₃ ≡ []) × (x₄ ≡ []) × (x₅ ≡ []) × (x₆ ≡ []) × (x₇ ≡ []))
nil_all x₁ x₂ x₃ x₄ x₅ x₆ x₇ = ground (
  arith,
  nil_iff (x₁ ++ x₂ ++ x₃ ++ x₄ ++ x₅ ++ x₆) x₇,
  nil_iff (x₁ ++ x₂ ++ x₃ ++ x₄ ++ x₅) x₆,
  nil_iff (x₁ ++ x₂ ++ x₃ ++ x₄) x₅,
  nil_iff (x₁ ++ x₂ ++ x₃) x₄,
  nil_iff (x₁ ++ x₂) x₃,
  nil_iff x₁ x₂,
)

-- No mismatch is found exactly if the two configurations have the same mode, retention times at most
-- a second apart, and the same size, number of messages, copies and partitions, where a number that
-- one of them leaves open (not positive) fits any. The retention times are 64-bit integers.
pub compare_topic_options-Agrees :
    (topic : String) (e a : TopicOptions)
    → IsInt e.retention_time
    → IsInt a.retention_time
    → (compare_topic_options topic e a ≡ []) ↔ Agrees e a
unfolding compare_topic_options
compare_topic_options-Agrees topic e a h k = (
  λ found.
      let (m, t, s, n, r, p, f) = (nil_all _ _ _ _ _ _ _).0 found in
      (Agrees-iff e a h k).0 (
        (mismatch_iff _ _ _ _ _ _ _).0 m,
        (mismatch_iff _ _ _ _ _ _ _).0 t,
        (mismatch_iff _ _ _ _ _ _ _).0 s,
        (mismatch_iff _ _ _ _ _ _ _).0 n,
        (mismatch_iff _ _ _ _ _ _ _).0 r,
        (mismatch_iff _ _ _ _ _ _ _).0 p,
        (mismatch_iff _ _ _ _ _ _ _).0 f,
      ),
  λ agree.
      let (m, t, s, n, r, p, f) = (Agrees-iff e a h k).1 agree in
      (nil_all _ _ _ _ _ _ _).1 (
        (mismatch_iff _ _ _ _ _ _ _).1 m,
        (mismatch_iff _ _ _ _ _ _ _).1 t,
        (mismatch_iff _ _ _ _ _ _ _).1 s,
        (mismatch_iff _ _ _ _ _ _ _).1 n,
        (mismatch_iff _ _ _ _ _ _ _).1 r,
        (mismatch_iff _ _ _ _ _ _ _).1 p,
        (mismatch_iff _ _ _ _ _ _ _).1 f,
      ),
)

-- No mismatch is found only if the modes are the same.
pub compare_topic_options-mode :
    (topic : String) (e a : TopicOptions)
    → compare_topic_options topic e a ≡ []
    → e.persistence_mode ≡ a.persistence_mode
unfolding compare_topic_options
compare_topic_options-mode topic e a h =
    let (mode, _, _, _, _, _, _) = (nil_all _ _ _ _ _ _ _).0 h in
    let same =
      (mismatch_iff (not (str_eq e.persistence_mode a.persistence_mode)) topic "PersistenceMode"
          (text_value e.persistence_mode) (text_value a.persistence_mode) false
          "Persistence mode cannot be changed after creation. Consider creating a new topic.").0
        mode in
    ground (arith, same, eq_iff e.persistence_mode a.persistence_mode)
