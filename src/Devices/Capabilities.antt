-- ===== src/Devices/Capabilities.antt =====
-- apps/backend/src/devices/devices.service.ts, `refreshCapabilities`: a device's capability groups, read from
-- its local API and stored. It is two steps, `begin_refresh` up to the awaited catalog and
-- `finish_refresh`, the transaction and the reading back. The database refuses an upsert that names a key
-- twice, and texts that are too long for the columns of device-capability.entity.ts and device.entity.ts.
pub mod Refresh
pub mod Stored
use senior_io_t_platform_arc.Prelude.{
  ℕ, Bool, false, not, ◌&&◌, ◌||◌, List, [], ◌∷◌, filter, any, if◌then◌else◌, is_nil, Option, none,
  some, or_else, Text, text_eq, trim, fits, all, true, Result, ok, err,
}
use senior_io_t_platform_arc.Prelude.Json.{Json}
use senior_io_t_platform_arc.Prelude.Table.{Table}
use senior_io_t_platform_arc.Protocol.Capabilities.{
  CapabilityGroup, capability_group_ids, is_member,
}
use senior_io_t_platform_arc.EspClaw.{LocalTargetError, Url}
use senior_io_t_platform_arc.EspClaw.LocalApi.{
  Response, LocalApiError, validate_base_url, fetch_capabilities,
}
use senior_io_t_platform_arc.Devices.{
  Device, device_key, DeviceCapability, Registry, find_one, list_capabilities,
}

pub data RefreshError : Type 0 where
  device_not_found no_base_url not_stored : RefreshError
  invalid_device_url : LocalTargetError → RefreshError
  not_fetched : LocalApiError → RefreshError

-- Is this the row of the device and the group?
abbrev pub is_row : Text → Text → DeviceCapability → Bool
is_row device_id group_id c = text_eq c.device_id device_id && text_eq c.group_id group_id

-- An upserted group keeps the time at which its row was first stored.
upsert_one : ℕ → Text → CapabilityGroup → List DeviceCapability → List DeviceCapability
upsert_one now id g [] =
    record {
      device_id = id;
      group_id = g.group_id;
      display_name = g.display_name;
      default_llm_visible = g.default_llm_visible;
      first_seen_at = now;
    }
    ∷ []
upsert_one now id g (c ∷ cs) =
    if is_row id g.group_id c
    then record c { display_name = g.display_name; default_llm_visible = g.default_llm_visible }
      ∷ cs
    else c ∷ upsert_one now id g cs

upsert_all : ℕ → Text → List CapabilityGroup → List DeviceCapability → List DeviceCapability
unfolding upsert_one
upsert_all now id [] cs = cs
upsert_all now id (g ∷ gs) cs = upsert_all now id gs (upsert_one now id g cs)

pub has_repeats : List CapabilityGroup → Bool
has_repeats [] = false
has_repeats (g ∷ gs) = any (λ x. text_eq x.group_id g.group_id) gs || has_repeats gs

-- Do the columns of a row take a group?
pub group_fits : Text → CapabilityGroup → Bool
group_fits id g = fits 32 id && fits 64 g.group_id && fits 128 g.display_name

-- The rows after the transaction.
unfoldable pub replace_groups :
    ℕ → Text → List CapabilityGroup → List DeviceCapability → List DeviceCapability
unfolding upsert_all
replace_groups now id [] cs = filter (λ c. not (text_eq c.device_id id)) cs
replace_groups now id (g ∷ gs) cs =
    filter
      (λ c.
        not (text_eq c.device_id id && not (is_member c.group_id (capability_group_ids (g ∷ gs)))))
      (upsert_all now id (g ∷ gs) cs)

module _ (N : Type 0) (table : Table device_key) (lower : Text → Text)
    (parse_url : Text → Option Url) (resolve_url : Text → Url → Text)
    (fetch : Text → Option Response) (parse_json : Text → Option (Json N))
    (allowed_hosts : List Text) where
  fetched :
      Text
      → Result LocalApiError (List CapabilityGroup)
      → Result RefreshError (Text × List CapabilityGroup)
  fetched url (err e) = err (not_fetched e)
  fetched url (ok items) = ok (url, items)

  from_url :
      Result LocalTargetError Text → Result RefreshError (Text × List CapabilityGroup) × List Text
  unfolding fetched
  from_url (err e) = (err (invalid_device_url e), [])
  from_url (ok url) =
      let (items, requests) =
        fetch_capabilities lower parse_url resolve_url fetch parse_json allowed_hosts url in
      (fetched url items, requests)

  from_requested : Text → Result RefreshError (Text × List CapabilityGroup) × List Text
  unfolding from_url
  from_requested requested =
      if is_nil requested
      then (err no_base_url, [])
      else from_url
          (validate_base_url lower parse_url resolve_url fetch parse_json allowed_hosts requested)

  -- The URL and the catalog, or the error, and the requests made.
  pub begin_refresh :
      Text
      → Option Text
      → Registry N table
      → Result RefreshError (Text × List CapabilityGroup) × List Text
  unfolding from_requested
  begin_refresh id base_url s = elim (find_one N table id s) [
    | none ↦ (err device_not_found, [])
    | some device ↦ from_requested (trim (or_else base_url (or_else device.local_api_base_url [])))
  ]

module _ (N : Type 0) (table : Table device_key) where
  update_device : Text → (Device → Device) → table.Store → table.Store
  update_device id change devices = elim (table.find_one id devices) [
    | none ↦ devices
    | some device ↦ table.save (change device) devices
  ]

  -- The update reads the URL only where there is a row.
  url_fits : Text → Text → table.Store → Bool
  url_fits id url devices = elim (table.find_one id devices) [
    | none ↦ true
    | some device ↦ fits 255 url
  ]

  -- `date` is the time as the row stores it. A transaction that fails changes nothing.
  pub finish_refresh :
      ℕ
      → Text
      → (Text → Text → Bool)
      → Text
      → Text
      → List CapabilityGroup
      → Registry N table
      → Result RefreshError (List DeviceCapability) × Registry N table
  unfolding update_device has_repeats group_fits url_fits
  finish_refresh now date collate id url items s =
      let after = record s {
        capabilities = replace_groups now id items s.capabilities;
        devices =
            update_device id
              (λ device. record device {
                local_api_base_url = some url;
                capabilities_refreshed_at = some date;
              })
              s.devices;
      } in
      if not (has_repeats items) && all (group_fits id) items && url_fits id url s.devices
      then (ok (list_capabilities N table collate id after), after)
      else (err not_stored, s)
