-- ===== src/Protocol/Envelopes.antt =====
-- packages/esp-claw-protocol/src/envelope.ts: the schemas of the messages, read as the tests that they
-- make of a parsed document; unknown properties are dropped.
use senior_io_t_platform_arc.Prelude.{
  Bool, List, Option, none, some, Text, units, if◌then◌else◌, is_nil,
}
use senior_io_t_platform_arc.Prelude.Dict.{get}
use senior_io_t_platform_arc.Prelude.Json.{Json, bool, str, obj, entries}

pub record ResponseEnvelope : Type 0 where
  pub id : Text
  pub capability : Option Text
  pub is_ok : Bool
  pub result : Option Text

-- `z.string().optional()`: the outer option is the failure of the test.
optional_text : {N : Type 0} → Option (Json N) → Option (Option Text)
optional_text none = some none
optional_text (some (str s)) = some (some s)
optional_text (some _) = none

-- `z.boolean()`.
boolean : {N : Type 0} → Option (Json N) → Option Bool
boolean (some (bool b)) = some b
boolean _ = none

-- `z.string().min(1)`.
nonempty_text : {N : Type 0} → Option (Json N) → Option Text
nonempty_text (some (str s)) = if is_nil s then none else some s
nonempty_text _ = none

infixl 5 ◌>>=◌
abbrev ◌>>=◌ : {A B : Type 0} → Option A → (A → Option B) → Option B
none >>= f = none
some a >>= f = f a

pub parse_status_envelope : {N : Type 0} → Json N → Option Bool
unfolding boolean
parse_status_envelope (obj ps) = boolean (get (units "online") (entries ps))
parse_status_envelope _ = none

response_of : {N : Type 0} → List (Text × Json N) → Option ResponseEnvelope
unfolding nonempty_text optional_text boolean
response_of fields = do
  id ← nonempty_text (get (units "id") fields)
  capability ← optional_text (get (units "capability") fields)
  is_ok ← boolean (get (units "ok") fields)
  result ← optional_text (get (units "result") fields)
  some (record { id = id; capability = capability; is_ok = is_ok; result = result })

unfoldable pub parse_response_envelope : {N : Type 0} → Json N → Option ResponseEnvelope
unfolding response_of
parse_response_envelope (obj ps) = response_of (entries ps)
parse_response_envelope _ = none
