-- ===== src/Devices/Tests.antt =====
-- Inputs for apps/backend/src/devices/devices.service.ts.
use senior_io_t_platform_arc.Prelude.{
  ◌⊎◌, ok, err, ℕ, ◌≡◌, refl, List, Text, true, false, [], ◌∷◌, ◌++◌, none, some, units,
}
use senior_io_t_platform_arc.Prelude.Table.{list_table}
use senior_io_t_platform_arc.Platform.Events.{Payload, DomainEvent, presence_reported}
use senior_io_t_platform_arc.Protocol.Capabilities.{CapabilityGroup}
use senior_io_t_platform_arc.Devices.Capabilities.{finish_refresh, not_stored}
use senior_io_t_platform_arc.Devices.Capabilities.Stored.{Stored, IsStorable, finish_refresh-Stored}
use senior_io_t_platform_arc.Devices.{
  list_capabilities, DeviceCapability, Device, device_key, Registry, find_one,
  handle_presence_reported,
}
use senior_io_t_platform_arc.Devices.Presence.{announced, observed, handle_presence_reported_lem}

abbrev pump : Device
pump = record {
  id = units "pump";
  device_name = none;
  base_topic = units "espclaw";
  online = false;
  last_seen_at = none;
  local_api_base_url = none;
  capabilities_refreshed_at = none;
  first_seen_at = 1;
}

abbrev registry : Registry ℕ (list_table device_key)
registry = record { devices = pump ∷ []; capabilities = []; published = [] }

abbrev observation : DomainEvent (Payload ℕ)
observation = record {
  event_id = units "e";
  event_type = units "device.presence.reported";
  schema_version = 1;
  timestamp = units "2026-01-01T00:00:00.000Z";
  device_id = some (units "pump");
  organization_id = none;
  source = units "mqtt";
  correlation_id = units "c";
  causation_id = none;
  trace_id = none;
  span_id = none;
  sequence = none;
  idempotency_key = none;
  payload = presence_reported (units "espclaw") true;
}

handle_presence_reported_lem_example :
    let after =
      handle_presence_reported ℕ
        (list_table device_key)
        7
        observation
        (units "espclaw")
        true
        registry in
    (find_one ℕ (list_table device_key) (units "pump") after
      ≡ some (
          observed ℕ
            (list_table device_key)
            (units "pump")
            (units "espclaw")
            7
            true
            registry
            observation))
    × (after.published
        ≡ registry.published
          ++ announced ℕ observation
              (units "pump")
              (units "espclaw")
              (find_one ℕ (list_table device_key) (units "pump") registry)
              true)
    × (after.capabilities ≡ registry.capabilities)
handle_presence_reported_lem_example =
    handle_presence_reported_lem ℕ (list_table device_key) 7 observation b'p' (units "ump")
      (units "espclaw") true registry refl

abbrev group : Text → CapabilityGroup
group id = record { group_id = id; display_name = []; default_llm_visible = true }

abbrev capability : Text → Text → DeviceCapability
capability device id = record {
  device_id = device;
  group_id = id;
  display_name = [];
  default_llm_visible = false;
  first_seen_at = 2;
}

abbrev capabilities : List DeviceCapability
capabilities =
    capability (units "pump") (units "cap_old")
    ∷ capability (units "lamp") (units "cap_old")
    ∷ capability (units "pump") (units "cap_vpn")
    ∷ []

abbrev catalog : List CapabilityGroup
catalog = group (units "cap_vpn") ∷ group (units "cap_ota") ∷ []

abbrev stocked : Registry ℕ (list_table device_key)
stocked = record registry { capabilities = capabilities }

finish_refresh-Stored_example :
    let out =
      finish_refresh ℕ
        (list_table device_key)
        9
        (units "now")
        (λ s t. true)
        (units "pump")
        (units "http://10.0.0.7")
        catalog
        stocked in
    ((¬ IsStorable ℕ
        (list_table device_key)
        (units "pump")
        (units "http://10.0.0.7")
        catalog
        stocked.devices)
      × (out.0 ≡ err not_stored)
      × (out.1 ≡ stocked))
    ⊎ (IsStorable ℕ
          (list_table device_key)
          (units "pump")
          (units "http://10.0.0.7")
          catalog
          stocked.devices
        × (out.0
            ≡ ok (list_capabilities ℕ (list_table device_key) (λ s t. true) (units "pump") out.1))
        × Stored ℕ
            (list_table device_key)
            (units "now")
            (units "pump")
            (units "http://10.0.0.7")
            catalog
            stocked
            out.1)
finish_refresh-Stored_example =
    finish_refresh-Stored ℕ (list_table device_key) 9 (units "now") (λ s t. true) (units "pump")
      (units "http://10.0.0.7") catalog stocked
