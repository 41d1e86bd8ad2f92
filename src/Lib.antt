-- ===== src/Lib.antt =====
-- The backend of a platform for microcontrollers that run an agent: a registry of devices, a
-- gateway to them over MQTT, a history of their commands, a twin of their state, accounts with
-- roles, and an event bus that joins these. Devices report presence and answer commands on topics
-- of a broker.
--
-- How the parts interact, and which file models which:
--
-- - Protocol: packages/esp-claw-protocol/src. Protocol/Topics is topics.ts (buildTopic,
--   parseTopic), Protocol/Envelopes the schemas of envelope.ts that the backend parses with,
--   Protocol/Capabilities the catalog and the status of capabilities.ts.
-- - Mqtt: apps/backend/src/mqtt/mqtt.service.ts with esp-claw/topic.service.ts. `send_command`
--   puts a command in flight, `handle_message` settles it on a response or turns a status into
--   presence and an event, `expire` is its timer. What a promise would be resolved or rejected
--   with is in `settled`.
-- - Platform: apps/backend/src/platform. Permissions is auth/permissions.ts, Context is
--   context/request-context.ts, Events and Catalog are events/domain-event.ts and
--   events/event-types.ts, Patterns and Bus are events/in-process-event-bus.ts: subscriptions,
--   one lane for each device, the attempts of a handler, the waiting at shutdown. Http is
--   http/api-exception.filter.ts and http/api-version.middleware.ts with
--   context/correlation.middleware.ts: what is set on an answer before the handler, and what is
--   answered when it throws.
-- - Config: apps/backend/src/config/env.validation.ts; its settings go to Identity (the bootstrap
--   token) and to Provisioning (the master key). Health:
--   apps/backend/src/health/health.controller.ts.
-- - Observability: apps/backend/src/observability: the metrics, which read the bus's totals, and
--   the logger.
-- - Identity: apps/backend/src/identity. Throttle is login-throttle.ts, with its specification in
--   Throttle/History; Users and Service are user.entity.ts and identity.service.ts, with the
--   administration of accounts in Service/Accounts; Guards is jwt-auth.guard.ts and
--   permissions.guard.ts, which every request passes one after the other.
-- - Devices: apps/backend/src/devices/devices.service.ts; it consumes the presence events of the
--   gateway. Devices/Capabilities is its `refreshCapabilities`, in two steps around the awaited
--   catalog.
-- - Commands: apps/backend/src/commands/commands.service.ts; `start` runs up to the gateway's
--   promise and `resolve_outcome` from there, so that other calls can come between.
--   Commands/Startup is the sweep.
-- - Twin: apps/backend/src/twin/twin.service.ts; Twin/Reports follows a poll's readings into it.
-- - Provisioning: apps/backend/src/provisioning/platform-exec.ts; Provisioning/Privileged is
--   platform-token.service.ts and privileged-commands.service.ts, with `begin_execute` up to the
--   gateway's promise and `finish_execute` from there.
-- - Audit: apps/backend/src/audit/event-log.service.ts; it consumes all events. Audit/Requests is
--   audit.controller.ts, which asks for its pages.
-- - Telemetry: apps/backend/src/telemetry/telemetry.service.ts: samples out of a capability's
--   result. Telemetry/Queries is its `findForDevice`, Telemetry/Poller
--   telemetry-poller.service.ts: `begin_poll` is a tick of the timer, `proceed` one pass of the
--   loops, `poll_one` one call of a device with the operations of Commands and Telemetry that it
--   runs.
-- - EspClaw: apps/backend/src/esp-claw/local-target.ts, the guard in front of a device's local
--   API, and EspClaw/LocalApi local-api-client.ts behind it.
-- - Prelude: texts as UTF-16 code units, lists, maps in insertion order, results, JSON values,
--   and the table of the object-relational mapper as a record of operations with the laws relied
--   on.
--
-- A method is a function from the state, the time and what the runtime generates (ids, salts) to
-- its result and the new state; errors are values. An awaited call of another service splits a
-- method in two where other calls can change the state that it goes on with. A pass of the
-- poller's loop is one step: what else runs comes before it or after it. A transaction of
-- identity.service.ts is one step, as its advisory lock admits one at a time. The event bus is
-- taken to be present where it is optional; the events that a service publishes are a list, in
-- order, without the envelope's metadata. The clock is read once for each call. Numbers of JSON
-- documents are a parameter, for nothing is computed with them.
--
-- Parameters, since their code is not in the repository: JSON.parse and JSON.stringify, the test
-- for finite numbers, the parser of URLs, Unicode lower case, bcrypt, SHA-256, keyed hashes, the
-- derivation of keys, the resolution of URLs and the fetching of them, the collation of the
-- database, the schema library's tests of URLs and numbers, the signing and verification of
-- session tokens, the database's tables. Services of Identity/Users and Table of Prelude/Table
-- name what is relied on.
--
-- No definition uses fuel but `drain`, which is given the number of its rounds; as many as the
-- weight of what is in flight are enough, where each event outweighs what its handlers publish.
-- Every other loop is a recursion on the list or the number that it runs over. Sizes are those of
-- the source: 10000 tracked keys for each map of the throttle, tokens of 768 bytes and 1024
-- characters, correlation ids of 128 characters, and the columns of the telemetry and the
-- capability tables. Times are natural numbers of milliseconds, of seconds in tokens.
--
-- Where a method awaits and the model does not: `login` and `get_active_user` are one step each,
-- so an account that changes between their read and their write is not seen; `reset_password` and
-- `change_own_password` are whole calls, and `apply_password` is their save of an account that
-- was read earlier. Of the database, the lengths of the columns that are not named here, the code
-- zero in the text of a query and the failures of a connection are left out: the registry takes
-- every device, and a cycle of the poller does not throw. A jsonb column keeps the order of keys
-- here. The key `__proto__` is like any other. A limit of a telemetry query is a whole number.
--
-- Not modelled: the broker's connection and its callbacks, the time limit of the wait at
-- shutdown, parse-body.ts, the other controllers, modules, migrations and the scripts, which are
-- wiring, input and output.
pub mod Audit
pub mod Commands
pub mod Config
pub mod Devices
pub mod EspClaw
pub mod Health
pub mod Identity
pub mod Mqtt
pub mod Observability
pub mod Platform
pub mod Prelude
pub mod Protocol
pub mod Provisioning
pub mod Telemetry
pub mod Twin
