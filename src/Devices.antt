-- ===== src/Devices.antt =====
-- apps/backend/src/devices/devices.service.ts and device.entity.ts: the registry of devices and their
-- capability groups. Published events go to the list `published`.
pub mod Capabilities
pub mod Presence
pub mod Tests
use senior_io_t_platform_arc.Prelude.{
  ℕ, Bool, true, false, not, ◌&&◌, List, [], ◌∷◌, ◌++◌, filter, sort_by, if◌then◌else◌, ltb, leb,
  count, Option, none, some, Text, text_eq,
}
use senior_io_t_platform_arc.Prelude.Table.{Table}
use senior_io_t_platform_arc.Platform.Events.{Payload, DomainEvent, registered, online_changed}
use senior_io_t_platform_arc.Platform.Catalog.{
  EventType, device_registered, device_online, device_offline,
}

pub record Device : Type 0 where
  pub id : Text
  pub device_name : Option Text
  pub base_topic : Text
  pub online : Bool
  pub last_seen_at : Option Text
  pub local_api_base_url : Option Text
  pub capabilities_refreshed_at : Option Text
  pub first_seen_at : ℕ

abbrev pub device_key : Device → Text
device_key d = d.id

pub record DeviceCapability : Type 0 where
  pub device_id : Text
  pub group_id : Text
  pub display_name : Text
  pub default_llm_visible : Bool
  pub first_seen_at : ℕ

-- A published event: its type, device, cause, correlation (if it is passed on) and payload.
pub record DeviceEvent (N : Type 0) : Type 0 where
  pub type : EventType
  pub device_id : Text
  pub causation_id : Option Text
  pub correlation_id : Option Text
  pub payload : Payload N

module _ (N : Type 0) (table : Table device_key) where
  pub record Registry : Type 0 where
    pub devices : table.Store
    pub capabilities : List DeviceCapability
    pub published : List (DeviceEvent N)

  pub find_all : Registry → List Device
  find_all s = sort_by (λ a b. leb a.first_seen_at b.first_seen_at) (table.rows s.devices)

  -- The database orders texts by its collation, a parameter.
  pub find_online : (Text → Text → Bool) → Registry → List Device
  find_online collate s =
      sort_by (λ a b. collate a.id b.id) (filter (λ (x : Device). x.online) (table.rows s.devices))

  pub list_capabilities : (Text → Text → Bool) → Text → Registry → List DeviceCapability
  list_capabilities collate id s =
      sort_by (λ a b. collate a.group_id b.group_id)
        (filter (λ c. text_eq c.device_id id) s.capabilities)

  pub has_capability_group : Text → Text → Registry → Bool
  has_capability_group device_id group_id s =
      ltb 0
        (count (λ c. text_eq c.device_id device_id && text_eq c.group_id group_id) s.capabilities)

  pub find_one : Text → Registry → Option Device
  find_one id s = table.find_one id s.devices

  abbrev pub new_device : ℕ → Text → Text → Device
  new_device now id base_topic = record {
    id = id;
    device_name = none;
    base_topic = base_topic;
    online = false;
    last_seen_at = none;
    local_api_base_url = none;
    capabilities_refreshed_at = none;
    first_seen_at = now;
  }

  pub find_or_create : ℕ → Text → Text → Registry → Device × Registry
  find_or_create now id base_topic s = elim (table.find_one id s.devices) [
    | some existing ↦ (existing, s)
    | none ↦ (
      new_device now id base_topic,
      record s {
        devices = table.save (new_device now id base_topic) s.devices;
        published =
            s.published
            ++ record {
              type = device_registered;
              device_id = id;
              causation_id = none;
              correlation_id = none;
              payload = registered base_topic;
            }
              ∷ [];
      },
    )
  ]

  abbrev was_online : Option Device → Bool
  was_online none = false
  was_online (some x) = x.online

  bool_eq : Bool → Bool → Bool
  bool_eq true b = b
  bool_eq false b = not b

  change_event : DomainEvent (Payload N) → Text → Bool → Bool → List (DeviceEvent N)
  unfolding bool_eq
  change_event event id previous online =
      if bool_eq previous online
      then []
      else record {
        type = if online then device_online else device_offline;
        device_id = id;
        causation_id = some event.event_id;
        correlation_id = some event.correlation_id;
        payload = online_changed previous;
      }
        ∷ []

  -- `handlePresenceReported`, for an event with a device: the observed base topic and state. The
  -- update writes two columns of the row that is there by then.
  observe : ℕ → DomainEvent (Payload N) → Text → Text → Bool → Registry → Registry
  unfolding find_or_create change_event
  observe now event id base_topic online s =
      let previous = was_online (table.find_one id s.devices) in
      let (row, found) = find_or_create now id base_topic s in
      record found {
        devices =
            table.save (record row { online = online; last_seen_at = some event.timestamp })
              found.devices;
        published = found.published ++ change_event event id previous online;
      }

  observe_device : ℕ → DomainEvent (Payload N) → Text → Bool → Option Text → Registry → Registry
  unfolding observe
  observe_device now event base_topic online none s = s
  observe_device now event base_topic online (some []) s = s
  observe_device now event base_topic online (some (c ∷ id)) s =
      observe now event (c ∷ id) base_topic online s

  pub handle_presence_reported : ℕ → DomainEvent (Payload N) → Text → Bool → Registry → Registry
  unfolding observe_device
  handle_presence_reported now event base_topic online s =
      observe_device now event base_topic online event.device_id s
