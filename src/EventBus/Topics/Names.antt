-- ===== src/EventBus/Topics/Names.antt =====
-- ValidateTopicName of sdk/pkg/eventbus/type.go. A text is its code points; Go counts the bytes of
-- their UTF-8 encoding.
use Prim.Native.Char.{code}
use jxt_core.Base.{
  ℕ, ◌+◌, ◌==◌, ◌≤◌, ltb, pos, String, concat, show_int, Bool, false, not, ◌&&◌, ◌||◌, Option, none,
  some, ◌∷◌, [], if◌then◌else◌, ◌≡◌, ◌↔◌, ◌⊎◌, refl, arith, Bool-cases, inl, inr, is_none,
}
use jxt_core.Outbox.Event.{Error, foreign}

-- The bytes of a code point.
abbrev width : ℕ → ℕ
width r = if ltb r 128 then 1 else if ltb r 2048 then 2 else if ltb r 65536 then 3 else 4

-- len(topic)
unfoldable pub byte_len : String → ℕ
byte_len String.[] = 0
byte_len (String.◌∷◌ c s) = width (code c) + byte_len s

-- strings.Contains(topic, " ")
unfoldable pub contains_space : String → Bool
contains_space String.[] = false
contains_space (String.◌∷◌ c s) = code c == 32 || contains_space s

-- A *TopicNameValidationError, by its text.
unfoldable pub topic_name_validation_error : String → String → Error
topic_name_validation_error topic reason = record {
  kind = foreign 1000;
  text = concat ("invalid topic name '" ∷ topic ∷ "': " ∷ reason ∷ []);
}

-- The loop over the code points, from the byte `i` on: the reason of the first that is refused.
unfoldable pub refused_at : ℕ → String → Option String
refused_at i String.[] = none
refused_at i (String.◌∷◌ c s) =
    let rest = refused_at (i + width (code c)) s in
    if ltb 127 (code c)
    then some (
        concat (
          "topic name contains non-ASCII character '"
          ∷ String.◌∷◌ c String.[]
          ∷ "' at position "
          ∷ show_int (pos i)
          ∷ ". "
          ∷ "Kafka requires ASCII characters only (a-z, A-Z, 0-9, -, _, .). "
          ∷ "Chinese, Japanese, Korean and other Unicode characters are not allowed"
          ∷ []))
    else if ltb (code c) 32 && not (code c == 9)
    then some
        (concat ("topic name contains control character at position " ∷ show_int (pos i) ∷ []))
    else rest

unfoldable pub validate_topic_name : String → Option Error
unfolding byte_len contains_space refused_at topic_name_validation_error
validate_topic_name topic =
    if byte_len topic == 0
    then some (topic_name_validation_error topic "topic name cannot be empty")
    else if ltb 255 (byte_len topic)
    then some (
        topic_name_validation_error topic (
          concat (
            "topic name too long ("
            ∷ show_int (pos (byte_len topic))
            ∷ " characters, maximum 255)"
            ∷ [])))
    else if contains_space topic
    then some (topic_name_validation_error topic "topic name cannot contain spaces")
    else elim (refused_at 0 topic) [
      | none ↦ none
      | some reason ↦ some (topic_name_validation_error topic reason)
    ]

unfoldable pub is_valid_topic_name : String → Bool
is_valid_topic_name topic = is_none (validate_topic_name topic)

-- A tab, or one of the ASCII characters from ! to DEL.
abbrev pub IsNameCharacter : ℕ → Type 0
IsNameCharacter r = (r ≡ 9) ⊎ ((33 ≤ r) × (r ≤ 127))

abbrev pub IsPlain : String → Type 0
IsPlain String.[] = Unit {0}
IsPlain (String.◌∷◌ c s) = IsNameCharacter (code c) × IsPlain s

-- The number of characters.
abbrev pub size : String → ℕ
size String.[] = 0
size (String.◌∷◌ c s) = 1 + size s

IsNameCharacter-tests :
    (r : ℕ)
    → (r == 32) ≡ false
    → ltb 127 r ≡ false
    → (ltb r 32 && not (r == 9)) ≡ false
    → IsNameCharacter r
IsNameCharacter-tests r space ascii control = elim (Bool-cases (r == 9)) [
  | inl tab ↦ inl (ground (arith, tab))
  | inr other ↦ inr (ground (arith, other, space, ascii, control), ground (arith, ascii))
]

refused_at-IsPlain :
    (i : ℕ) (s : String) → refused_at i s ≡ none → contains_space s ≡ false → IsPlain s
unfolding refused_at contains_space
refused_at-IsPlain i String.[] h k = tt
refused_at-IsPlain i (String.◌∷◌ c s) h k = (
  IsNameCharacter-tests (code c) (ground (arith, k)) (ground (arith, h)) (ground (arith, h)),
  refused_at-IsPlain (i + width (code c)) s (ground (arith, h)) (ground (arith, k)),
)

IsPlain-refused_at : (i : ℕ) (s : String) → IsPlain s → refused_at i s ≡ none
unfolding refused_at
IsPlain-refused_at i String.[] h = refl
IsPlain-refused_at i (String.◌∷◌ c s) (here, h) =
    ground (arith, here, IsPlain-refused_at (i + width (code c)) s h)

IsPlain-contains_space : (s : String) → IsPlain s → contains_space s ≡ false
unfolding contains_space
IsPlain-contains_space String.[] h = refl
IsPlain-contains_space (String.◌∷◌ c s) (here, h) = ground (arith, here, IsPlain-contains_space s h)

byte_len-IsPlain : (s : String) → IsPlain s → byte_len s ≡ size s
unfolding byte_len
byte_len-IsPlain String.[] h = refl
byte_len-IsPlain (String.◌∷◌ c s) (here, h) = ground (arith, here, byte_len-IsPlain s h)

sound : (s : String) → validate_topic_name s ≡ none → (1 ≤ size s) × (size s ≤ 255) × IsPlain s
unfolding validate_topic_name
sound s h =
    let plain = refused_at-IsPlain 0 s (ground (arith, h)) (ground (arith, h)) in
    (
      ground (arith, h, byte_len-IsPlain s plain),
      ground (arith, h, byte_len-IsPlain s plain),
      plain,
    )

complete : (s : String) → (1 ≤ size s) × (size s ≤ 255) × IsPlain s → validate_topic_name s ≡ none
unfolding validate_topic_name
complete s (least, most, plain) =
    ground (
      arith,
      byte_len-IsPlain s plain,
      IsPlain-refused_at 0 s plain,
      IsPlain-contains_space s plain,
    )

-- ValidateTopicName accepts exactly the names of 1 to 255 characters that are tabs or ASCII
-- characters from ! to DEL.
pub validate_topic_name_iff :
    (s : String) → (validate_topic_name s ≡ none) ↔ ((1 ≤ size s) × (size s ≤ 255) × IsPlain s)
validate_topic_name_iff s = (sound s, complete s)
