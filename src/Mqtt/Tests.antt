-- ===== src/Mqtt/Tests.antt =====
-- Inputs for apps/backend/src/mqtt/mqtt.service.ts.
use senior_io_t_platform_arc.Prelude.{
  ℕ, ◌≡◌, refl, true, List, [], ◌∷◌, Option, none, some, Text, units, text_eq, trim, join, ok,
}
use senior_io_t_platform_arc.Prelude.Dict.{get, set}
use senior_io_t_platform_arc.Prelude.Json.{Json, str, bool, obj, end, prop}
use senior_io_t_platform_arc.Protocol.Topics.{build_topic}
use senior_io_t_platform_arc.Mqtt.{MqttState, SendOptions, send_command}
use senior_io_t_platform_arc.Mqtt.Settlements.{Arrival, message, timer, receive, load, settled_once}

abbrev connected : MqttState ℕ
connected = record {
  has_client = true;
  default_base_topic = units "espclaw";
  presence = [];
  pending = [];
  settled = [];
  sent = [];
  observed = [];
}

abbrev defaults : SendOptions
defaults = record { base_topic = none; timeout_ms = none; id = none }

-- A parser that knows one document, the answer to the command "c1".
abbrev answers : Text → Option (Json ℕ)
answers _ = some (obj (prop (units "id") (str (units "c1")) (prop (units "ok") (bool true) end)))

abbrev arrivals : List Arrival
arrivals =
    message 5 (units "espclaw/pump/response") []
    ∷ message 6 (units "espclaw/pump/response") []
    ∷ timer (units "c1")
    ∷ []

abbrev in_flight : MqttState ℕ
in_flight = record connected {
  pending = (units "c1", record { device_id = units "pump"; timeout_ms = 15000 }) ∷ [];
  sent =
      record {
        topic = units "espclaw/pump/command";
        body = record { id = units "c1"; name = units "start"; input = end };
        qos = 1;
      }
      ∷ [];
}

sends :
    send_command (units "c1") (units "pump") (units "start") none defaults connected ≡ ok in_flight
unfolding send_command build_topic trim join text_eq get set
sends = refl

settled_once_example : load (units "c1") (receive answers arrivals in_flight) ≡ 1
settled_once_example =
    settled_once answers (units "c1") (units "pump") (units "start") none defaults connected
      in_flight arrivals sends
