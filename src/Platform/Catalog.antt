-- ===== src/Platform/Catalog.antt =====
-- apps/backend/src/platform/events/event-types.ts: the event types and which of them are audited.
use senior_io_t_platform_arc.Prelude.{
  ◌≡◌, ◌≢◌, ◌↔◌, Bool, true, ◌||◌, Text, units, text_eq, starts_with, arith,
}

pub data EventType : Type 0 where
  device_presence_reported device_registered device_online device_offline : EventType
  device_command_created device_command_completed device_telemetry_updated : EventType
  device_state_changed security_user_created security_user_updated : EventType
  security_password_changed security_login_succeeded security_login_locked : EventType
  security_privileged_executed : EventType

unfoldable pub event_type_text : EventType → Text
event_type_text device_presence_reported = units "device.presence.reported"
event_type_text device_registered = units "device.registered"
event_type_text device_online = units "device.online"
event_type_text device_offline = units "device.offline"
event_type_text device_command_created = units "device.command.created"
event_type_text device_command_completed = units "device.command.completed"
event_type_text device_telemetry_updated = units "device.telemetry.updated"
event_type_text device_state_changed = units "device.state.changed"
event_type_text security_user_created = units "security.user.created"
event_type_text security_user_updated = units "security.user.updated"
event_type_text security_password_changed = units "security.password.changed"
event_type_text security_login_succeeded = units "security.login.succeeded"
event_type_text security_login_locked = units "security.login.locked"
event_type_text security_privileged_executed = units "security.privileged.executed"

unfoldable pub is_audited_event_type : Text → Bool
unfolding event_type_text text_eq starts_with
is_audited_event_type type =
    text_eq type (event_type_text device_registered)
    || text_eq type (event_type_text device_online)
    || text_eq type (event_type_text device_offline)
    || text_eq type (event_type_text device_command_created)
    || text_eq type (event_type_text device_command_completed)
    || text_eq type (event_type_text device_state_changed)
    || starts_with (units "device.ota.") type
    || starts_with (units "device.alert.") type
    || starts_with (units "agent.") type
    || starts_with (units "security.") type

-- Of the catalogued types exactly the raw presence observations and the telemetry are not audited.
is_audited_event_type_iff :
    (t : EventType)
    → (is_audited_event_type (event_type_text t) ≡ true)
      ↔ ((t ≢ device_presence_reported) × (t ≢ device_telemetry_updated))
unfolding is_audited_event_type
is_audited_event_type_iff device_presence_reported = ground arith
is_audited_event_type_iff _ = ground arith
