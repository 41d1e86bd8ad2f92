-- ===== src/Mqtt.antt =====
-- apps/backend/src/mqtt/mqtt.service.ts, with apps/backend/src/esp-claw/topic.service.ts: the commands in
-- flight and the observed presence. A promise that `sendCommand` returned is settled by an entry of
-- `settled`; a timer that fires is the action `expires`. The broker's client only takes messages:
-- they go to `sent`. `JSON.parse` is a parameter.
pub mod Settlements
pub mod Tests
use senior_io_t_platform_arc.Prelude.{
  ℕ, Bool, false, List, [], ◌∷◌, ◌++◌, if◌then◌else◌, is_nil, Option, none, some, or_else, is_some,
  Text, units, text_eq, Result, ok, err,
}
use senior_io_t_platform_arc.Prelude.Dict.{Dict, get, set, delete}
use senior_io_t_platform_arc.Prelude.Json.{Json, Props, end}
use senior_io_t_platform_arc.Protocol.Topics.{
  command, TopicError, build_topic, parse_topic, ParsedTopic,
}
use senior_io_t_platform_arc.Protocol.Envelopes.{
  ResponseEnvelope, parse_status_envelope, parse_response_envelope,
}

pub record DevicePresence : Type 0 where
  pub device_id : Text
  pub online : Bool
  pub last_seen_at : ℕ

pub record PendingCommand : Type 0 where
  pub device_id : Text
  pub timeout_ms : ℕ

pub data SendError : Type 0 where
  not_connected already_in_flight : SendError
  bad_topic : TopicError → SendError

-- How a promise was settled.
pub data Settlement : Type 0 where
  responded : ResponseEnvelope → Settlement
  timed_out : PendingCommand → Settlement
  not_sent : SendError → Settlement

pub record CommandEnvelope (N : Type 0) : Type 0 where
  pub id : Text
  pub name : Text
  pub input : Props N

pub record Message (N : Type 0) : Type 0 where
  pub topic : Text
  pub body : CommandEnvelope N
  pub qos : ℕ

-- A `device.presence.reported` event.
pub record Observation : Type 0 where
  pub device_id : Text
  pub base_topic : Text
  pub online : Bool

pub record MqttState (N : Type 0) : Type 0 where
  pub has_client : Bool
  pub default_base_topic : Text
  pub presence : Dict DevicePresence
  pub pending : Dict PendingCommand
  pub settled : List (Text × Settlement)
  pub sent : List (Message N)
  pub observed : List Observation

pub record SendOptions : Type 0 where
  pub base_topic : Option Text
  pub timeout_ms : Option ℕ
  pub id : Option Text

module _ {N : Type 0} where
  -- `TopicService.build`: a base topic that is not given is the configured one.
  build_command_topic : Option Text → Text → MqttState N → Result TopicError Text
  build_command_topic base device_id s =
      if is_nil (or_else base [])
      then build_topic s.default_base_topic device_id command
      else build_topic (or_else base []) device_id command

  publish : Message N → MqttState N → Result SendError (MqttState N)
  publish message s =
      if s.has_client then ok (record s { sent = s.sent ++ message ∷ [] }) else err not_connected

  -- The promise of a command that is put in flight: if publishing throws, it is rejected.
  put_in_flight : Text → PendingCommand → Message N → MqttState N → Result SendError (MqttState N)
  unfolding publish
  put_in_flight id entry message s =
      elim (publish message (record s { pending = set id entry s.pending })) [
        | ok after ↦ ok after
        | err e ↦ err e
      ]

  -- The new state once the command is in flight, or the error of the promise; a failed call leaves
  -- the state as it was.
  pub send_command :
      Text
      → Text
      → Text
      → Option (Props N)
      → SendOptions
      → MqttState N
      → Result SendError (MqttState N)
  unfolding build_command_topic put_in_flight
  send_command fresh device_id name input options s =
      let id = or_else options.id fresh in
      let entry : PendingCommand = record {
        device_id = device_id;
        timeout_ms = or_else options.timeout_ms 15000;
      } in
      let body : CommandEnvelope N = record { id = id; name = name; input = or_else input end } in
      let addressed : Result SendError (MqttState N) =
        elim (build_command_topic options.base_topic device_id s) [
          | ok topic ↦ put_in_flight id entry (record { topic = topic; body = body; qos = 1 }) s
          | err e ↦ err (bad_topic e)
        ] in
      if s.has_client
      then (if is_some (get id s.pending) then err already_in_flight else addressed)
      else err not_connected

  settle : Text → Settlement → MqttState N → MqttState N
  settle id how s = record s {
    pending = delete id s.pending;
    settled = s.settled ++ (id, how) ∷ [];
  }

  handle_response : Option ResponseEnvelope → MqttState N → MqttState N
  unfolding settle
  handle_response none s = s
  handle_response (some response) s =
      if is_some (get response.id s.pending) then settle response.id (responded response) s else s

  handle_status : ℕ → ParsedTopic → Option Bool → MqttState N → MqttState N
  handle_status now topic none s = s
  handle_status now topic (some online) s = record s {
    presence =
        set topic.device_id
          (record { device_id = topic.device_id; online = online; last_seen_at = now }) s.presence;
    observed =
        s.observed
        ++ record { device_id = topic.device_id; base_topic = topic.base_topic; online = online }
          ∷ [];
  }

  dispatch_message : ℕ → ParsedTopic → Option (Json N) → MqttState N → MqttState N
  unfolding handle_status handle_response
  dispatch_message now topic none s = s
  dispatch_message now topic (some json) s =
      if text_eq topic.leaf (units "status")
      then handle_status now topic (parse_status_envelope json) s
      else (if text_eq topic.leaf (units "response")
          then handle_response (parse_response_envelope json) s
          else s)

  pub handle_message : (Text → Option (Json N)) → ℕ → Text → Text → MqttState N → MqttState N
  unfolding dispatch_message
  handle_message parse_json now topic payload s = elim (parse_topic topic) [
    | none ↦ s
    | some parsed ↦ dispatch_message now parsed (parse_json payload) s
  ]

  expire_entry : Text → Option PendingCommand → MqttState N → MqttState N
  unfolding settle
  expire_entry id none s = s
  expire_entry id (some entry) s = settle id (timed_out entry) s

  -- The timer of a command. It is cleared when the command is settled before.
  pub expire : Text → MqttState N → MqttState N
  unfolding expire_entry
  expire id s = expire_entry id (get id s.pending) s

  -- `onModuleDestroy`: the promises in flight are dropped.
  pub destroy : MqttState N → MqttState N
  destroy s = record s { pending = []; has_client = false }

  pub get_presence : Text → MqttState N → Option DevicePresence
  get_presence device_id s = get device_id s.presence
