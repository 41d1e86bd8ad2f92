-- ===== src/Mqtt/Settlements.antt =====
-- mqtt.service.ts: a command in flight is settled at most once.
use senior_io_t_platform_arc.Prelude.{
  count-append_one, ℕ, ◌+◌, ◌≡◌, refl, ◌∙◌, Bool, true, List, [], ◌∷◌, count, if◌then◌else◌, Option,
  none, some, or_else, is_some, Text, units, text_eq, text_eq_iff, text_eq_refl, ok, arith,
  Bool-cases, Option-cases, inl, inr, Result-cases,
}
use senior_io_t_platform_arc.Prelude.Dict.{get, get-set, get-delete}
use senior_io_t_platform_arc.Prelude.Json.{Json, Props, end}
use senior_io_t_platform_arc.Protocol.Topics.{ParsedTopic, parse_topic}
use senior_io_t_platform_arc.Protocol.Envelopes.{
  ResponseEnvelope, parse_status_envelope, parse_response_envelope,
}
use senior_io_t_platform_arc.Mqtt.{
  MqttState, SendOptions, Settlement, send_command, settle, handle_response, handle_status,
  PendingCommand, Message, dispatch_message, handle_message, expire, put_in_flight, publish,
  build_command_topic,
}

-- What comes in after a command was sent: messages, and timers that fire.
pub data Arrival : Type 0 where
  message : (now : ℕ) (topic payload : Text) → Arrival
  timer : Text → Arrival

module _ {N : Type 0} where
  -- How often a command id was settled, and whether it is in flight.
  abbrev pub settlements : Text → MqttState N → ℕ
  settlements id s = count (λ e. text_eq e.0 id) s.settled

  abbrev pub in_flight : Text → MqttState N → ℕ
  in_flight id s = if is_some (get id s.pending) then 1 else 0

  abbrev pub load : Text → MqttState N → ℕ
  load id s = settlements id s + in_flight id s

  -- Settling a command that is in flight moves it from the one count to the other.
  load-settle :
      (id chosen : Text) (how : Settlement) (s : MqttState N)
      → is_some (get chosen s.pending) ≡ true
      → load id (settle chosen how s) ≡ load id s
  unfolding settle
  load-settle id chosen how s h = ground (
    arith,
    count-append_one (λ (e : Text × Settlement). text_eq e.0 id) s.settled (chosen, how),
    get-delete chosen id s.pending,
    text_eq_iff chosen id,
  )

  load-handle_response :
      (id : Text) (response : Option ResponseEnvelope) (s : MqttState N)
      → load id (handle_response response s) ≡ load id s
  unfolding handle_response
  load-handle_response id none s = refl
  load-handle_response id (some r) s = elim (Bool-cases (is_some (get r.id s.pending))) [
    | inl waiting ↦ rw waiting (load-settle id r.id (Settlement.responded r) s waiting)
    | inr stray ↦ rw stray
  ]

  load-handle_status :
      (id : Text) (now : ℕ) (topic : ParsedTopic) (online : Option Bool) (s : MqttState N)
      → load id (handle_status now topic online s) ≡ load id s
  unfolding handle_status
  load-handle_status id now topic none s = refl
  load-handle_status id now topic (some online) s = refl

  load-dispatch_message :
      (id : Text) (now : ℕ) (topic : ParsedTopic) (json : Option (Json N)) (s : MqttState N)
      → load id (dispatch_message now topic json s) ≡ load id s
  unfolding dispatch_message
  load-dispatch_message id now topic none s = refl
  load-dispatch_message id now topic (some json) s =
      elim (Bool-cases (text_eq topic.leaf (units "status"))) [
        | inl e ↦ rw e (load-handle_status id now topic (parse_status_envelope json) s)
        | inr e ↦ rw e (elim (Bool-cases (text_eq topic.leaf (units "response"))) [
          | inl f ↦ rw f (load-handle_response id (parse_response_envelope json) s)
          | inr f ↦ rw f
        ])
      ]

  load-handle_message :
      (parse_json : Text → Option (Json N)) (id : Text) (now : ℕ) (topic payload : Text)
      (s : MqttState N)
      → load id (handle_message parse_json now topic payload s) ≡ load id s
  unfolding handle_message
  load-handle_message parse_json id now topic payload s = elim (Option-cases (parse_topic topic)) [
    | inl e ↦ rw (e, handle_message)
    | inr (parsed, e) ↦
        rw (e, handle_message) (load-dispatch_message id now parsed (parse_json payload) s)
  ]

  load-expire : (id chosen : Text) (s : MqttState N) → load id (expire chosen s) ≡ load id s
  unfolding expire
  load-expire id chosen s = elim (Option-cases (get chosen s.pending)) [
    | inl e ↦ rw (e, expire)
    | inr (entry, e) ↦ rw (e, expire) (load-settle id chosen (Settlement.timed_out entry) s (rw e))
  ]

  load-put_in_flight :
      (id : Text) (entry : PendingCommand) (body : Message N) (s after : MqttState N)
      → put_in_flight id entry body s ≡ ok after
      → load id after ≡ settlements id s + 1
  unfolding put_in_flight publish
  load-put_in_flight id entry body s after e =
      ground (arith, get-set id id entry s.pending, text_eq_refl id)

  load-send_command :
      (fresh device_id name : Text) (input : Option (Props N)) (options : SendOptions)
      (s after : MqttState N)
      → send_command fresh device_id name input options s ≡ ok after
      → load (or_else options.id fresh) after ≡ settlements (or_else options.id fresh) s + 1
  unfolding send_command
  load-send_command fresh device_id name input options s after e =
      elim (Result-cases (build_command_topic options.base_topic device_id s)) [
        | inr (bad, b) ↦ absurd (ground (arith, e, b))
        | inl (topic, b) ↦
            load-put_in_flight (or_else options.id fresh)
              (record { device_id = device_id; timeout_ms = or_else options.timeout_ms 15000 })
              (record {
                topic = topic;
                qos = 1;
                body = record {
                  id = or_else options.id fresh;
                  name = name;
                  input = or_else input end;
                };
              })
              s after (ground (arith, e, b))
      ]

  pub receive : (Text → Option (Json N)) → List Arrival → MqttState N → MqttState N
  receive parse_json [] s = s
  receive parse_json (message now topic payload ∷ more) s =
      receive parse_json more (handle_message parse_json now topic payload s)
  receive parse_json (timer id ∷ more) s = receive parse_json more (expire id s)

  load-receive :
      (parse_json : Text → Option (Json N)) (id : Text) (arrivals : List Arrival) (s : MqttState N)
      → load id (receive parse_json arrivals s) ≡ load id s
  unfolding receive
  load-receive parse_json id [] s = refl
  load-receive parse_json id (message now topic payload ∷ more) s =
      load-receive parse_json id more _ ∙ load-handle_message parse_json id now topic payload s
  load-receive parse_json id (timer chosen ∷ more) s =
      load-receive parse_json id more _ ∙ load-expire id chosen s

  -- A command that was sent is in flight until it is settled, and is settled once: whatever messages
  -- and timers follow, valid or not, in any order and repeated, its settlements are those of before
  -- the call, and one more exactly when it is no longer in flight.
  pub settled_once :
      (parse_json : Text → Option (Json N)) (fresh device_id name : Text) (input : Option (Props N))
      (options : SendOptions) (s after : MqttState N) (arrivals : List Arrival)
      → send_command fresh device_id name input options s ≡ ok after
      → load (or_else options.id fresh) (receive parse_json arrivals after)
        ≡ settlements (or_else options.id fresh) s + 1
  settled_once parse_json fresh device_id name input options s after arrivals e =
      load-receive parse_json (or_else options.id fresh) arrivals after
      ∙ load-send_command fresh device_id name input options s after e
