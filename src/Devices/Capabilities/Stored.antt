-- ===== src/Devices/Capabilities/Stored.antt =====
-- devices.service.ts, `refreshCapabilities`: the registry once a device's catalog is there.
use mathlib.Core.Path.{subst}
use senior_io_t_platform_arc.Prelude.{
  ℕ, ◌≡◌, refl, sym, ap, ◌∙◌, ◌⊎◌, inl, inr, Bool, true, false, List, if◌then◌else◌, Option, none,
  some, Text, text_eq, text_eq_iff, ok, err, Bool-cases, Option-cases, find_first-holds, fits, all,
  All, [], ◌∷◌, not, ◌&&◌, ◌↔◌, arith,
}
use senior_io_t_platform_arc.Prelude.Table.{Table}
use senior_io_t_platform_arc.Protocol.Capabilities.{CapabilityGroup}
use senior_io_t_platform_arc.Devices.{Device, device_key, Registry, list_capabilities}
use senior_io_t_platform_arc.Devices.Capabilities.{
  not_stored, has_repeats, group_fits, url_fits, finish_refresh, update_device,
}
use senior_io_t_platform_arc.Devices.Capabilities.Refresh.{has_row, offers, has_row-replace_groups}

-- The device's row with the URL that was read and the time.
abbrev pub refreshed : Text → Text → Option Device → Option Device
refreshed url date none = none
refreshed url date (some device) =
    some (record device { local_api_base_url = some url; capabilities_refreshed_at = some date })

module _ (N : Type 0) (table : Table device_key) where
  find_one-update_device :
      (url date id d : Text) (devices : table.Store)
      → table.find_one d (
          update_device N table id
            (λ device. record device {
              local_api_base_url = some url;
              capabilities_refreshed_at = some date;
            })
            devices)
        ≡ (if text_eq id d
            then refreshed url date (table.find_one d devices)
            else table.find_one d devices)
  unfolding update_device
  find_one-update_device url date id d devices = elim (Option-cases (table.find_one id devices)) [
    | inl e ↦ elim (Bool-cases (text_eq id d)) [
      | inl t ↦
          let same : table.find_one d devices ≡ none =
            subst (λ k. table.find_one k devices ≡ none) ((text_eq_iff id d).0 t) e in
          rw (e, t, update_device) (same ∙ ap (refreshed url date) (sym same))
      | inr f ↦ rw (e, f, update_device) refl
    ]
    | inr (x, e) ↦
        let key : x.id ≡ id = (text_eq_iff x.id id).0 (
          find_first-holds (λ (r : Device). text_eq r.id id) (table.rows devices) x
            (sym (table.find_one-rows id devices) ∙ e)) in
        let row : Device = record x {
          local_api_base_url = some url;
          capabilities_refreshed_at = some date;
        } in
        elim (Bool-cases (text_eq id d)) [
          | inl t ↦
              let same : table.find_one d devices ≡ some x =
                subst (λ k. table.find_one k devices ≡ some x) ((text_eq_iff id d).0 t) e in
              rw (e, t, update_device)
                (table.find_one-save d row devices
                  ∙ rw (ap (λ k. text_eq k d) key ∙ t) (ap (refreshed url date) (sym same)))
          | inr f ↦
              rw (e, f, update_device)
                (table.find_one-save d row devices ∙ rw (ap (λ k. text_eq k d) key ∙ f) refl)
        ]
  ]

  pub record Stored (date id url : Text) (items : List CapabilityGroup)
      (before after : Registry N table) : Type 0 where
    pub groups :
        (d k : Text)
        → has_row d k after.capabilities
          ≡ (if text_eq id d then offers k items else has_row d k before.capabilities)
    pub devices :
        (d : Text)
        → table.find_one d after.devices ≡ (
            if text_eq id d
            then refreshed url date (table.find_one d before.devices)
            else table.find_one d before.devices)
    pub published : after.published ≡ before.published

  -- What the database takes: a catalog that names no group twice, whose ids have 64 characters at most and
  -- whose names 128, for a device id of 32; and a URL of 255, where the device has a row.
  abbrev pub IsStorable : Text → Text → List CapabilityGroup → table.Store → Type 0
  IsStorable id url items devices =
      (has_repeats items ≡ false)
      × All
          (λ g.
            (fits 32 id ≡ true) × (fits 64 g.group_id ≡ true) × (fits 128 g.display_name ≡ true))
          items
      × ((table.find_one id devices ≡ none) ⊎ (fits 255 url ≡ true))

  all-group_fits :
      (id : Text) (items : List CapabilityGroup)
      → (all (group_fits id) items ≡ true)
        ↔ All
            (λ g.
              (fits 32 id ≡ true) × (fits 64 g.group_id ≡ true) × (fits 128 g.display_name ≡ true))
            items
  unfolding group_fits
  all-group_fits id [] = (λ e. tt, λ a. refl)
  all-group_fits id (g ∷ items) = (
    λ e. (ground arith, (all-group_fits id items).0 (ground arith)),
    λ a. ground (arith, (all-group_fits id items).1 a.1),
  )

  url_fits_iff :
      (id url : Text) (devices : table.Store)
      → (url_fits N table id url devices ≡ true)
        ↔ ((table.find_one id devices ≡ none) ⊎ (fits 255 url ≡ true))
  unfolding url_fits
  url_fits_iff id url devices = elim (Option-cases (table.find_one id devices)) [
    | inl e ↦ rw (e, url_fits) (λ _. inl refl, λ _. refl)
    | inr (x, e) ↦ rw (e, url_fits) (λ f. inr f, λ o. ground arith)
  ]

  IsStorable-iff :
      (id url : Text) (items : List CapabilityGroup) (devices : table.Store)
      → ((not (has_repeats items) && all (group_fits id) items && url_fits N table id url devices)
          ≡ true)
        ↔ IsStorable id url items devices
  IsStorable-iff id url items devices =
      let (fit, fits_all) = all-group_fits id items in
      let (read, row) = url_fits_iff id url devices in
      (
        λ e. (ground arith, fit (ground arith), read (ground arith)),
        λ a. ground (arith, fits_all a.1, row a.2),
      )

  -- Storing a catalog either fails, if it names a group twice or a text is too long for its column, and
  -- changes nothing; or the device has exactly the groups of its catalog and its row the URL and the
  -- time, all other devices are as before, nothing is announced, and the device's rows are returned.
  pub finish_refresh-Stored :
      (now : ℕ) (date : Text) (collate : Text → Text → Bool) (id url : Text)
      (items : List CapabilityGroup) (s : Registry N table)
      → (let out = finish_refresh N table now date collate id url items s in
          ((¬ IsStorable id url items s.devices) × (out.0 ≡ err not_stored) × (out.1 ≡ s))
          ⊎ (IsStorable id url items s.devices
              × (out.0 ≡ ok (list_capabilities N table collate id out.1))
              × Stored date id url items s out.1))
  unfolding finish_refresh
  finish_refresh-Stored now date collate id url items s =
      let (to, from) = IsStorable-iff id url items s.devices in
      elim (Bool-cases (
        not (has_repeats items)
        && all (group_fits id) items
        && url_fits N table id url s.devices)) [
          | inl e ↦ inr (
            to e,
            rw e refl,
            rw e (record {
              groups = λ d k. has_row-replace_groups now id items s.capabilities d k;
              devices = λ d. find_one-update_device url date id d s.devices;
              published = refl;
            }),
          )
          | inr e ↦ inl (λ a. absurd (cc (from a)), rw e refl, rw e refl)
        ]
