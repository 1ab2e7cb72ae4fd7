-- ===== src/Config/EventBusConfig/Rules.antt =====
-- How Validate of sdk/config/eventbus.go is modelled. A check is the condition under which an error is returned, and
-- its message; the first check that applies gives the error.
use jxt_core.Base.{
  ℤ, pos, ltb_ℤ, String, str_eq, Bool, true, false, not, ◌&&◌, ◌||◌, Option, none, some, List, [],
  ◌∷◌, if◌then◌else◌,
}
use jxt_core.Outbox.Event.{Error, errorf}

abbrev pub Checks : Type 0
Checks = List (Bool × List String)

unfoldable pub first_error : Checks → Option Error
first_error [] = none
first_error ((applies, message) ∷ cs) =
    let rest = first_error cs in if applies then some (errorf message) else rest

-- if b { … }
abbrev pub provided : Bool → Checks → Checks
provided true cs = cs
provided false cs = []

-- n <= 0, n < 0
abbrev pub positive : ℤ → List String → Bool × List String
positive n message = (not (ltb_ℤ (pos 0) n), message)

abbrev pub non_negative : ℤ → List String → Bool × List String
non_negative n message = (ltb_ℤ n (pos 0), message)

-- base > max && max > 0
abbrev pub below : ℤ → ℤ → List String → Bool × List String
below base max message = (ltb_ℤ max base && ltb_ℤ (pos 0) max, message)

abbrev pub is_one_of : String → List String → Bool
is_one_of s [] = false
is_one_of s (t ∷ ts) = str_eq s t || is_one_of s ts

-- A setting that is not empty and none of these.
abbrev pub supported : String → List String → List String → Bool × List String
supported s names message = (not (str_eq s "") && not (is_one_of s names), message)

abbrev pub nonempty_text : String → List String → Bool × List String
nonempty_text s message = (str_eq s "", message)
