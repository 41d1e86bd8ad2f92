-- ===== src/Devices/Presence.antt =====
-- devices.service.ts: what an observation does to the registry, and what it announces.
use senior_io_t_platform_arc.Prelude.{
  ℕ, ◌≡◌, sym, ap, ◌∙◌, Bool, true, false, List, [], ◌∷◌, ◌++◌, if◌then◌else◌, Option, none, some,
  or_else, Text, text_eq, text_eq_iff, text_eq_refl, arith, Option-cases, inl, inr,
  find_first-holds, Bool-cases,
}
use mathlib.Core.List.{append_assoc, append-nil}
use senior_io_t_platform_arc.Prelude.Table.{Table}
use senior_io_t_platform_arc.Platform.Events.{Payload, DomainEvent, registered, online_changed}
use senior_io_t_platform_arc.Platform.Catalog.{device_registered, device_online, device_offline}
use senior_io_t_platform_arc.Devices.{
  Device, device_key, DeviceEvent, Registry, find_or_create, new_device, change_event, observe,
  observe_device, handle_presence_reported, find_one,
}

-- The events that an observation gives rise to, from whether the device is known and was online.
abbrev pub announced :
    (N : Type 0)
    → DomainEvent (Payload N)
    → Text
    → Text
    → Option Device
    → Bool
    → List (DeviceEvent N)
announced N event id base_topic none true =
    record {
      type = device_registered;
      device_id = id;
      causation_id = none;
      correlation_id = none;
      payload = registered base_topic;
    }
    ∷ record {
      type = device_online;
      device_id = id;
      causation_id = some event.event_id;
      correlation_id = some event.correlation_id;
      payload = online_changed false;
    }
    ∷ []
announced N event id base_topic none false =
    record {
      type = device_registered;
      device_id = id;
      causation_id = none;
      correlation_id = none;
      payload = registered base_topic;
    }
    ∷ []
announced N event id base_topic (some row) online =
    if row.online
    then (if online
        then []
        else record {
          type = device_offline;
          device_id = id;
          causation_id = some event.event_id;
          correlation_id = some event.correlation_id;
          payload = online_changed true;
        }
          ∷ [])
    else (if online
        then record {
          type = device_online;
          device_id = id;
          causation_id = some event.event_id;
          correlation_id = some event.correlation_id;
          payload = online_changed false;
        }
          ∷ []
        else [])

module _ (N : Type 0) (table : Table device_key) where
  find_or_create-id :
      (now : ℕ) (id base_topic : Text) (s : Registry N table)
      → (find_or_create N table now id base_topic s).0.id ≡ id
  unfolding find_or_create
  find_or_create-id now id base_topic s = elim (Option-cases (table.find_one id s.devices)) [
    | inl e ↦ rw (e, find_or_create)
    | inr (row, e) ↦
        rw (e, find_or_create)
          ((text_eq_iff row.id id).0 (
            find_first-holds (λ r. text_eq r.id id) (table.rows s.devices) row
              (sym (table.find_one-rows id s.devices) ∙ e)))
  ]

  abbrev pub observed : Text → Text → ℕ → Bool → Registry N table → DomainEvent (Payload N) → Device
  observed id base_topic now online s event =
      record (or_else (table.find_one id s.devices) (new_device N table now id base_topic)) {
        online = online;
        last_seen_at = some event.timestamp;
      }

  observe-published :
      (now : ℕ) (event : DomainEvent (Payload N)) (id base_topic : Text) (online : Bool)
      (s : Registry N table)
      → (observe N table now event id base_topic online s).published
        ≡ s.published ++ announced N event id base_topic (table.find_one id s.devices) online
  unfolding observe
  observe-published now event id base_topic online s =
      elim (Option-cases (table.find_one id s.devices)) [
        | inl e ↦ elim (Bool-cases online) [
          | inl up ↦ rw (e, observe, find_or_create, up) (append_assoc s.published _ _)
          | inr down ↦ rw (e, observe, find_or_create, down) (append-nil _)
        ]
        | inr (row, e) ↦ rw (e, observe, find_or_create) (ap (◌++◌ s.published) (known row))
      ]
    where
      known :
          (row : Device)
          → change_event N table event id row.online online
            ≡ announced N event id base_topic (some row) online
      known row = ground arith

  observe-row :
      (now : ℕ) (event : DomainEvent (Payload N)) (id base_topic : Text) (online : Bool)
      (s : Registry N table)
      → table.find_one id (observe N table now event id base_topic online s).devices
        ≡ some (observed id base_topic now online s event)
  unfolding observe
  observe-row now event id base_topic online s = elim (Option-cases (table.find_one id s.devices)) [
    | inl e ↦ rw (e, observe, find_or_create) (rw (table.find_one-save, text_eq_refl id))
    | inr (row, e) ↦
        let same = (text_eq_iff row.id id).1 (
          (text_eq_iff row.id id).0 (
            find_first-holds (λ r. text_eq r.id id) (table.rows s.devices) row
              (sym (table.find_one-rows id s.devices) ∙ e))) in
        rw (e, observe, find_or_create) (rw (table.find_one-save, same))
  ]

  observe-capabilities :
      (now : ℕ) (event : DomainEvent (Payload N)) (id base_topic : Text) (online : Bool)
      (s : Registry N table)
      → (observe N table now event id base_topic online s).capabilities ≡ s.capabilities
  unfolding observe
  observe-capabilities now event id base_topic online s =
      elim (Option-cases (table.find_one id s.devices)) [
        | inl e ↦ rw (e, observe, find_or_create)
        | inr (row, e) ↦ rw (e, observe, find_or_create)
      ]

  -- An observation of a device makes its row online or offline as observed, with the event's time
  -- and otherwise as it was, or new with the observed base topic; it announces a new device, and a
  -- change of state from the row's, a new row counting as offline, and nothing else.
  pub handle_presence_reported_lem :
      (now : ℕ) (event : DomainEvent (Payload N)) (c : ℕ) (id base_topic : Text) (online : Bool)
      (s : Registry N table)
      → event.device_id ≡ some (c ∷ id)
      → let after = handle_presence_reported N table now event base_topic online s in
        (find_one N table (c ∷ id) after ≡ some (observed (c ∷ id) base_topic now online s event))
        × (after.published
            ≡ s.published
              ++ announced N event (c ∷ id) base_topic (find_one N table (c ∷ id) s) online)
        × (after.capabilities ≡ s.capabilities)
  unfolding handle_presence_reported find_one
  handle_presence_reported_lem now event c id base_topic online s e =
      let moved =
        ap (λ (o : Option Text). observe_device N table now event base_topic online o s) e in
      (
        ap (λ (r : Registry N table). table.find_one (c ∷ id) r.devices) moved
            ∙ observe-row now event (c ∷ id) base_topic online s,
        ap (λ (r : Registry N table). r.published) moved
            ∙ observe-published now event (c ∷ id) base_topic online s,
        ap (λ (r : Registry N table). r.capabilities) moved
            ∙ observe-capabilities now event (c ∷ id) base_topic online s,
      )
