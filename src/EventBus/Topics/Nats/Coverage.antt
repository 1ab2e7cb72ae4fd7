-- ===== src/EventBus/Topics/Nats/Coverage.antt =====
-- A topic that is ensured is covered by a subject of its stream, and stays so
-- (sdk/pkg/eventbus/nats.go).
use jxt_core.Base.{
  String, str_eq, eq_iff, true, ◌&&◌, Option, none, some, List, [], ◌∷◌, ◌++◌, ◌≡◌, ◌⊎◌, refl, sym,
  ◌∙◌, arith, Bool-cases, Option-cases, inl, inr, if◌then◌else◌, is_none,
}
use mathlib.Core.Path.{subst}
use jxt_core.EventBus.Topics.Nats.Subjects.{
  tokens, subject_matches, Covers, subject_matches-Covers, subject_matches_self,
}
use jxt_core.EventBus.Topics.Nats.Defs.{StreamConfig, found, JetStream, topic_exists, with_topic}

-- What the calls are documented to do, as far as the subjects of the streams are concerned: looking
-- and publishing changes nothing, and looking gives a stream of the name that was asked for; a stream
-- that was added or updated has the subjects that it was given, and the other streams keep theirs; a
-- stream that exists can only be added again with the same subjects; what fails changes nothing.
pub record IsJetStream (j : JetStream) : Type 0 where
  pub subjects_of : String → j.Store → Option (List String)
  pub info_reads : (n : String) (s : j.Store) → (j.stream_info n s).1 ≡ s
  pub info_found :
      (n : String) (s : j.Store) (c : StreamConfig)
      → (j.stream_info n s).0 ≡ found c
      → (c.name ≡ n) × (subjects_of n s ≡ some c.subjects)
  pub added :
      (n : String) (c : StreamConfig) (s : j.Store)
      → subjects_of n (j.add_stream c s).1 ≡ (
          if is_none (j.add_stream c s).0 && str_eq n c.name
          then some c.subjects
          else subjects_of n s)
  pub added_again :
      (c : StreamConfig) (s : j.Store) (ss : List String)
      → (j.add_stream c s).0 ≡ none
      → subjects_of c.name s ≡ some ss
      → ss ≡ c.subjects
  pub updated :
      (n : String) (c : StreamConfig) (s : j.Store)
      → subjects_of n (j.update_stream c s).1 ≡ (
          if is_none (j.update_stream c s).0 && str_eq n c.name
          then some c.subjects
          else subjects_of n s)
  pub publish_async_keeps :
      (n t : String) (m : j.Message) (s : j.Store)
      → subjects_of n (j.publish_async t m s).1 ≡ subjects_of n s
  pub publish_core_keeps :
      (n t : String) (m : j.Message) (s : j.Store)
      → subjects_of n (j.publish_core t m s).1 ≡ subjects_of n s

-- A subject of the list covers the topic.
abbrev pub CoveredBy : List String → String → Type 0
CoveredBy [] topic = ⊥
CoveredBy (s ∷ ss) topic = Covers (tokens s) (tokens topic) ⊎ CoveredBy ss topic

topic_exists-CoveredBy : (ss : List String) (t : String) → topic_exists ss t ≡ true → CoveredBy ss t
unfolding topic_exists
topic_exists-CoveredBy [] t h = cc
topic_exists-CoveredBy (s ∷ ss) t h = elim (Bool-cases (subject_matches s t)) [
  | inl e ↦ inl ((subject_matches-Covers s t).0 e)
  | inr other ↦ inr (topic_exists-CoveredBy ss t (ground (arith, h, other)))
]

pub covered_self : (t : String) → Covers (tokens t) (tokens t)
covered_self t = (subject_matches-Covers t t).0 (subject_matches_self t)

CoveredBy-append : (ss : List String) (t : String) → CoveredBy (ss ++ t ∷ []) t
CoveredBy-append [] t = inl (covered_self t)
CoveredBy-append (s ∷ ss) t = inr (CoveredBy-append ss t)

CoveredBy-append_more :
    (ss : List String) (t u : String) → CoveredBy ss u → CoveredBy (ss ++ t ∷ []) u
CoveredBy-append_more [] t u h = absurd h
CoveredBy-append_more (s ∷ ss) t u (inl h) = inl h
CoveredBy-append_more (s ∷ ss) t u (inr h) = inr (CoveredBy-append_more ss t u h)

module _ (j : JetStream) (laws : IsJetStream j) where
  -- The stream of the name exists, and one of its subjects covers the topic.
  abbrev pub Covered : String → String → j.Store → Type 0
  Covered name topic s =
      (ss : List String) × (laws.subjects_of name s ≡ some ss) × CoveredBy ss topic

  -- What was covered stays covered.
  abbrev pub Grows : j.Store → j.Store → Type 0
  Grows s s' = (name topic : String) → Covered name topic s → Covered name topic s'

  pub Grows-same :
      (s s' : j.Store) → ((n : String) → laws.subjects_of n s' ≡ laws.subjects_of n s) → Grows s s'
  Grows-same s s' same n t (ss, h, covered) = (ss, same n ∙ h, covered)

  pub add-Covered :
      (c : StreamConfig) (t : String) (s : j.Store)
      → (j.add_stream c s).0 ≡ none
      → CoveredBy c.subjects t
      → Covered c.name t (j.add_stream c s).1
  add-Covered c t s done covered =
      (c.subjects, laws.added c.name c s ∙ rw (done, (eq_iff c.name c.name).1 refl), covered)

  pub update-Covered :
      (c : StreamConfig) (t : String) (s : j.Store)
      → (j.update_stream c s).0 ≡ none
      → CoveredBy c.subjects t
      → Covered c.name t (j.update_stream c s).1
  update-Covered c t s done covered =
      (c.subjects, laws.updated c.name c s ∙ rw (done, (eq_iff c.name c.name).1 refl), covered)

  pub add-Grows : (c : StreamConfig) (s : j.Store) → Grows s (j.add_stream c s).1
  add-Grows c s n t (ss, h, covered) = elim (Option-cases (j.add_stream c s).0) [
    | inr (e, bad) ↦ (ss, laws.added n c s ∙ rw bad h, covered)
    | inl done ↦ elim (Bool-cases (str_eq n c.name)) [
      | inr other ↦ (ss, laws.added n c s ∙ rw (done, other) h, covered)
      | inl same ↦
          let there = subst (λ m. laws.subjects_of m s ≡ some ss) ((eq_iff n c.name).0 same) h in
          (
            c.subjects,
            laws.added n c s ∙ rw (done, same),
            subst (λ l. CoveredBy l t) (laws.added_again c s ss done there) covered,
          )
    ]
  ]

  pub update-Grows :
      (c : StreamConfig) (s : j.Store) (ss : List String)
      → laws.subjects_of c.name s ≡ some ss
      → ((t : String) → CoveredBy ss t → CoveredBy c.subjects t)
      → Grows s (j.update_stream c s).1
  update-Grows c s ss there more n t (ss', h, covered) =
      elim (Option-cases (j.update_stream c s).0) [
        | inr (e, bad) ↦ (ss', laws.updated n c s ∙ rw bad h, covered)
        | inl done ↦ elim (Bool-cases (str_eq n c.name)) [
          | inr other ↦ (ss', laws.updated n c s ∙ rw (done, other) h, covered)
          | inl same ↦
              let at = subst (λ m. laws.subjects_of m s ≡ some ss') ((eq_iff n c.name).0 same) h in
              (
                c.subjects,
                laws.updated n c s ∙ rw (done, same),
                more t (subst (λ l. CoveredBy l t) (cc (at, there)) covered),
              )
        ]
      ]

  -- The calls with what StreamInfo found.
  module _ (c : StreamConfig) (n : String) (s : j.Store) (h : (j.stream_info n s).0 ≡ found c) where
    found_there : laws.subjects_of c.name s ≡ some c.subjects
    found_there =
        let (named, there) = laws.info_found n s c h in
        subst (λ m. laws.subjects_of m s ≡ some c.subjects) (sym named) there

    pub found_exists : (t : String) → topic_exists c.subjects t ≡ true → Covered n t s
    found_exists t e =
        (c.subjects, (laws.info_found n s c h).1, topic_exists-CoveredBy c.subjects t e)

    pub with_topic-Grows : (t : String) → Grows s (j.update_stream (with_topic t c) s).1
    with_topic-Grows t =
        update-Grows (with_topic t c) s c.subjects found_there
          (λ u. CoveredBy-append_more c.subjects t u)

    pub with_topic-Covered :
        (t : String)
        → (j.update_stream (with_topic t c) s).0 ≡ none
        → Covered n t (j.update_stream (with_topic t c) s).1
    with_topic-Covered t done =
        subst (λ m. Covered m t (j.update_stream (with_topic t c) s).1) (laws.info_found n s c h).0
          (update-Covered (with_topic t c) t s done (CoveredBy-append c.subjects t))
