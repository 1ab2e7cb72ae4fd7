-- ===== src/EventBus/Topics/Nats/Subjects.antt =====
-- subjectMatches of sdk/pkg/eventbus/nats.go, and what it decides.
use jxt_core.Base.{
  String, str_eq, eq_iff, Bool, true, false, List, [], ◌∷◌, if◌then◌else◌, ◌≡◌, ◌↔◌, refl, arith,
  Bool-cases, inl, inr,
}
use mathlib.Core.Path.{subst}
use jxt_core.Tenant.Provider.Keys.{split_on}

-- strings.Split(s, ".")
abbrev pub tokens : String → List String
tokens s = split_on 46 s

-- The loop over the tokens.
unfoldable pub match_tokens : List String → List String → Bool
match_tokens [] [] = true
match_tokens [] (t ∷ ts) = false
match_tokens (p ∷ ps) [] = false
match_tokens (p ∷ ps) (t ∷ ts) =
    let rest = match_tokens ps ts in
    if str_eq p ">" then true else if str_eq p "*" then rest else if str_eq p t then rest else false

unfoldable pub subject_matches : String → String → Bool
unfolding match_tokens split_on
subject_matches pattern topic =
    if str_eq pattern topic then true else match_tokens (tokens pattern) (tokens topic)

-- The tokens of a subject cover those of a topic: * stands for one, > for one or more.
pub data Covers : List String → List String → Type 0 where
  done : Covers [] []
  all_left :
      (p : String) (ps : List String) (t : String) (ts : List String)
      → p ≡ ">"
      → Covers (p ∷ ps) (t ∷ ts)
  any :
      (p : String) (ps : List String) (t : String) (ts : List String)
      → p ≡ "*"
      → Covers ps ts
      → Covers (p ∷ ps) (t ∷ ts)
  same :
      (p : String) (ps : List String) (t : String) (ts : List String)
      → p ≡ t
      → Covers ps ts
      → Covers (p ∷ ps) (t ∷ ts)

Covers-refl : (ts : List String) → Covers ts ts
Covers-refl [] = done
Covers-refl (t ∷ ts) = same t ts t ts refl (Covers-refl ts)

match-Covers : (ps ts : List String) → match_tokens ps ts ≡ true → Covers ps ts
unfolding match_tokens
match-Covers [] [] h = done
match-Covers [] (t ∷ ts) h = cc
match-Covers (p ∷ ps) [] h = cc
match-Covers (p ∷ ps) (t ∷ ts) h = elim (Bool-cases (str_eq p ">")) [
  | inl e ↦ all_left p ps t ts ((eq_iff p ">").0 e)
  | inr not_all ↦ elim (Bool-cases (str_eq p "*")) [
    | inl e ↦
        any p ps t ts ((eq_iff p "*").0 e) (match-Covers ps ts (ground (arith, h, not_all, e)))
    | inr not_any ↦ elim (Bool-cases (str_eq p t)) [
      | inl e ↦
          same p ps t ts ((eq_iff p t).0 e)
            (match-Covers ps ts (ground (arith, h, not_all, not_any, e)))
      | inr other ↦ absurd (ground (arith, h, not_all, not_any, other))
    ]
  ]
]

Covers-match : (ps ts : List String) → Covers ps ts → match_tokens ps ts ≡ true
unfolding match_tokens
Covers-match ps ts done = refl
Covers-match ps ts (all_left p ps' t ts' e) = ground (arith, eq_iff p ">")
Covers-match ps ts (any p ps' t ts' e c) = ground (arith, eq_iff p "*", Covers-match ps' ts' c)
Covers-match ps ts (same p ps' t ts' e c) = ground (arith, eq_iff p t, Covers-match ps' ts' c)

-- subjectMatches answers true exactly if the tokens of the pattern cover those of the topic, * standing
-- for one token and > for one or more.
pub subject_matches-Covers :
    (pattern topic : String)
    → (subject_matches pattern topic ≡ true) ↔ Covers (tokens pattern) (tokens topic)
unfolding subject_matches
subject_matches-Covers pattern topic = elim (Bool-cases (str_eq pattern topic)) [
  | inl e ↦ rw e (
    λ _.
        subst (λ t. Covers (tokens pattern) (tokens t)) ((eq_iff pattern topic).0 e)
          (Covers-refl (tokens pattern)),
    λ _. refl,
  )
  | inr other ↦
      rw other
        (match-Covers (tokens pattern) (tokens topic), Covers-match (tokens pattern) (tokens topic))
]

pub subject_matches_self : (topic : String) → subject_matches topic topic ≡ true
unfolding subject_matches
subject_matches_self topic = rw ((eq_iff topic topic).1 refl) refl
