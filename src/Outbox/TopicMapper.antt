-- ===== src/Outbox/TopicMapper.antt =====
-- sdk/pkg/outbox/topic_mapper.go. The interface TopicMapper is its one method, a function.
use jxt_core.Base.{
  String, str_eq, str_append, ◌≡◌, refl, true, false, not, Option, none, some, List, [], ◌∷◌, ◌++◌,
  if◌then◌else◌, All,
}

abbrev pub TopicMapper : Type 0
TopicMapper = String → String

pub record MapBasedTopicMapper : Type 0 where
  pub mapping : List (String × String)
  pub default_topic : String

-- mapping[aggregateType]
unfoldable pub lookup : String → List (String × String) → Option String
lookup k [] = none
lookup k ((j, t) ∷ m) = if str_eq j k then some t else lookup k m

unfoldable pub map_based_get_topic : MapBasedTopicMapper → TopicMapper
map_based_get_topic m aggregate_type = elim (lookup aggregate_type m.mapping) [
  | some topic ↦ topic
  | none ↦
      if not (str_eq m.default_topic "")
      then m.default_topic
      else str_append aggregate_type "-events"
]

pub record PrefixTopicMapper : Type 0 where
  pub prefix : String
  pub suffix : String
  pub separator : String

-- parts = append(parts, s), unless s is empty
unfoldable pub part : String → List String
part s = if not (str_eq s "") then s ∷ [] else []

unfoldable pub parts : PrefixTopicMapper → String → List String
unfolding part
parts p aggregate_type = part p.prefix ++ aggregate_type ∷ part p.suffix

-- The loop over the parts, from an index i > 0.
unfoldable pub join_from : String → String → List String → String
join_from separator result [] = result
join_from separator result (p ∷ ps) =
    let before = if not (str_eq separator "") then str_append result separator else result in
    join_from separator (str_append before p) ps

unfoldable pub join_parts : String → List String → String
unfolding join_from
join_parts separator [] = ""
join_parts separator (p ∷ ps) = join_from separator (str_append "" p) ps

unfoldable pub prefix_get_topic : PrefixTopicMapper → TopicMapper
unfolding parts join_parts
prefix_get_topic p aggregate_type = join_parts p.separator (parts p aggregate_type)

unfoldable pub static_get_topic : String → TopicMapper
static_get_topic topic aggregate_type = topic

unfoldable pub chain_get_topic : List TopicMapper → TopicMapper
chain_get_topic [] aggregate_type = ""
chain_get_topic (mapper ∷ mappers) aggregate_type =
    let topic = mapper aggregate_type in
    if not (str_eq topic "") then topic else chain_get_topic mappers aggregate_type

unfoldable pub default_topic_mapper : TopicMapper
default_topic_mapper aggregate_type = str_append aggregate_type "-events"

-- The mapper has no topic for the aggregate type.
abbrev pub Declines : String → TopicMapper → Type 0
Declines t mapper = str_eq (mapper t) "" ≡ true

-- A chain answers as the first of its mappers that has a topic for the aggregate type: those before
-- it are passed over, and those after it do not matter.
pub chain_get_topic-first :
    (before after : List TopicMapper) (mapper : TopicMapper) (t : String)
    → All (Declines t) before
    → str_eq (mapper t) "" ≡ false
    → chain_get_topic (before ++ mapper ∷ after) t ≡ mapper t
unfolding chain_get_topic
chain_get_topic-first [] after mapper t h has = rw has refl
chain_get_topic-first (m ∷ before) after mapper t h has =
    rw (h.0) (chain_get_topic-first before after mapper t h.1 has)

pub chain_get_topic-Declines :
    (mappers : List TopicMapper) (t : String)
    → All (Declines t) mappers
    → chain_get_topic mappers t ≡ ""
unfolding chain_get_topic
chain_get_topic-Declines [] t h = refl
chain_get_topic-Declines (m ∷ mappers) t h = rw (h.0) (chain_get_topic-Declines mappers t h.1)
