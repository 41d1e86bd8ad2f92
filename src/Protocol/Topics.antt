-- ===== src/Protocol/Topics.antt =====
-- packages/esp-claw-protocol/src/topics.ts: building and parsing MQTT topics. The thrown errors
-- are the constructors of `TopicError`.
pub mod Joins
pub mod RoundTrip
pub mod Tests
use senior_io_t_platform_arc.Prelude.{
  ◌-◌, not, ◌&&◌, ◌||◌, Option, none, some, List, [], ◌∷◌, ◌++◌, ltb, ◌==◌, if◌then◌else◌, length,
  is_nil, get_elem?, take, filter, Text, units, trim, split, join, Result, ok, err, ◌>>=◌,
}

pub data Leaf : Type 0 where
  status command response : Leaf

-- The leaf as it stands in a topic.
unfoldable pub leaf_text : Leaf → Text
leaf_text status = units "status"
leaf_text command = units "command"
leaf_text response = units "response"

pub data TopicError : Type 0 where
  base_topic_required device_id_required : TopicError

-- `value.replace(/\/+$/, "")`.
pub trim_trailing_slashes : Text → Text
trim_trailing_slashes [] = []
trim_trailing_slashes (c ∷ s) =
    let rest = trim_trailing_slashes s in if (c == b'/') && is_nil rest then [] else c ∷ rest

unfoldable pub build_topic : Text → Text → Leaf → Result TopicError Text
unfolding trim_trailing_slashes leaf_text
build_topic base_topic device_id leaf =
    if is_nil base_topic || is_nil (trim base_topic)
    then err base_topic_required
    else (if is_nil device_id || is_nil (trim device_id)
        then err device_id_required
        else ok (trim_trailing_slashes base_topic ++ (b'/' ∷ device_id ++ (b'/' ∷ leaf_text leaf))))

pub record DeviceTopics : Type 0 where
  pub status : Text
  pub command : Text
  pub response : Text

pub device_topics : Text → Text → Result TopicError DeviceTopics
device_topics base_topic device_id = do
  s ← build_topic base_topic device_id status
  c ← build_topic base_topic device_id command
  r ← build_topic base_topic device_id response
  ok (record { status = s; command = c; response = r })

pub record ParsedTopic : Type 0 where
  pub base_topic : Text
  pub device_id : Text
  pub leaf : Text

-- The levels of a topic, empty ones dropped.
unfoldable pub levels : Text → List Text
levels topic = filter (λ p. not (is_nil p)) (split b'/' topic)

-- The last test of `parseTopic`, on the three texts that it cut out.
accept : Text → Text → Text → Option ParsedTopic
accept base_topic device_id leaf =
    if is_nil base_topic || is_nil device_id || is_nil leaf
    then none
    else some (record { base_topic = base_topic; device_id = device_id; leaf = leaf })

-- Indexing out of range gives no text, which the last test refuses.
abbrev text_or_empty : Option Text → Text
text_or_empty none = []
text_or_empty (some s) = s

parse_levels : List Text → Option ParsedTopic
unfolding accept
parse_levels parts =
    if ltb (length parts) 3
    then none
    else accept (join b'/' (take (length parts - 2) parts))
        (text_or_empty (get_elem? parts (length parts - 2)))
        (text_or_empty (get_elem? parts (length parts - 1)))

unfoldable pub parse_topic : Text → Option ParsedTopic
unfolding levels parse_levels
parse_topic topic = parse_levels (levels topic)

pub single_segment_wildcard_filter_for_leaf : Leaf → Text
unfolding leaf_text
single_segment_wildcard_filter_for_leaf leaf = units "+/+/" ++ leaf_text leaf
