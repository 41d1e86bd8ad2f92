-- ===== src/Twin/Merges.antt =====
-- twin.service.ts: what a client reads back after each write.
use senior_io_t_platform_arc.Prelude.{
  ◌+◌, ◌≡◌, refl, sym, ap, ◌∙◌, Bool, true, not, List, [], ◌∷◌, All, if◌then◌else◌, Option, some,
  or_else, Text, text_eq, text_eq_iff, arith, any, ◌&&◌, false, Option-cases, inl, inr, ◌↔◌,
  find_first-holds,
}
use senior_io_t_platform_arc.Prelude.Dict.{Dict, get, set, keys, get-set}
use senior_io_t_platform_arc.Prelude.Json.{Json}
use senior_io_t_platform_arc.Prelude.Table.{Table}
use senior_io_t_platform_arc.Platform.Events.{Reading}
use senior_io_t_platform_arc.Twin.Drift.{filter-nil, nil-filter, any-filter, no_keys, keys_no}
use senior_io_t_platform_arc.Twin.{
  DeviceShadow, ShadowView, compute_drift, shadow_key, merge, patch_of, same_value, view_of,
  get_shadow, set_desired, merge_reported, find_or_create, empty_shadow,
}

-- The last value that a patch gives a key, else the value of before.
abbrev pub patched {ℓ} : {V : Type ℓ} → Text → Option V → Dict V → Option V
patched j old [] = old
patched j old ((k, v) ∷ patch) = patched j (if text_eq k j then some v else old) patch

pub get-merge {ℓ} :
    {V : Type ℓ} (j : Text) (base patch : Dict V)
    → get j (merge base patch) ≡ patched j (get j base) patch
unfolding merge
get-merge j base [] = refl
get-merge j base ((k, v) ∷ patch) =
    get-merge j (set k v base) patch ∙ ap (λ o. patched j o patch) (get-set k j v base)

module _ {N : Type 0} (num_eq : N → N → Bool) (table : Table (shadow_key {N = N})) where
  abbrev pub before : Text → table.Store → DeviceShadow N
  before id s = (get_shadow num_eq table id s).shadow

  find_or_create-row :
      (id : Text) (s : table.Store) → (find_or_create num_eq table id s).0 ≡ before id s
  unfolding find_or_create get_shadow
  find_or_create-row id s = ground arith

  find_or_create-id :
      (id : Text) (s : table.Store) → (find_or_create num_eq table id s).0.device_id ≡ id
  unfolding find_or_create
  find_or_create-id id s = elim (Option-cases (table.find_one id s)) [
    | inl e ↦ rw (e, find_or_create)
    | inr (row, e) ↦
        rw (e, find_or_create)
          ((text_eq_iff row.device_id id).0 (
            find_first-holds (λ r. text_eq r.device_id id) (table.rows s) row
              (sym (table.find_one-rows id s) ∙ e)))
  ]

  saved :
      (id : Text) (row : DeviceShadow N) (s : table.Store)
      → row.device_id ≡ id
      → before id (table.save row s) ≡ row
  unfolding get_shadow
  saved id row s e =
      ap (λ (o : Option (DeviceShadow N)). or_else o (empty_shadow num_eq table id))
        (table.find_one-save id row s
          ∙ ap (λ (b : Bool). if b then some row else table.find_one id s)
              ((text_eq_iff row.device_id id).1 e))

  pub record SetsDesired (id : Text) (patch : Dict (Json N)) (s : table.Store) : Type 0 where
    pub desired :
        (j : Text)
        → get j (before id (set_desired num_eq table id patch s).2).desired
          ≡ patched j (get j (before id s).desired) patch
    pub desired_version :
        (before id (set_desired num_eq table id patch s).2).desired_version
        ≡ (before id s).desired_version + 1
    pub reported :
        (j : Text)
        → get j (before id (set_desired num_eq table id patch s).2).reported
          ≡ get j (before id s).reported
    pub reported_version :
        (before id (set_desired num_eq table id patch s).2).reported_version
        ≡ (before id s).reported_version
    pub returned :
        (j : Text)
        → get j (set_desired num_eq table id patch s).0.shadow.desired
          ≡ patched j (get j (before id s).desired) patch
    pub drift :
        (j : Text)
        → any (text_eq j) (set_desired num_eq table id patch s).0.drift
          ≡ any
              (text_eq j)
              (get_shadow num_eq table id (set_desired num_eq table id patch s).2).drift
    pub drifts :
        (j : Text)
        → any (text_eq j) (set_desired num_eq table id patch s).0.drift ≡ (
            let shadow = (set_desired num_eq table id patch s).0.shadow in
            any (text_eq j) (keys shadow.desired)
            && not (same_value num_eq (get j shadow.desired) (get j shadow.reported)))
    pub in_sync :
        ((set_desired num_eq table id patch s).0.in_sync ≡ true)
        ↔ ((j : Text) → any (text_eq j) (set_desired num_eq table id patch s).0.drift ≡ false)

  set_desired-row :
      (id : Text) (patch : Dict (Json N)) (s : table.Store)
      → before id (set_desired num_eq table id patch s).2 ≡ record (before id s) {
        desired = merge (before id s).desired patch;
        desired_version = (before id s).desired_version + 1;
      }
  unfolding set_desired
  set_desired-row id patch s =
      saved id _ _ (find_or_create-id id s)
      ∙ ap
          (λ (row : DeviceShadow N). record row {
            desired = merge row.desired patch;
            desired_version = row.desired_version + 1;
          })
          (find_or_create-row id s)

  set_desired-view :
      (id : Text) (patch : Dict (Json N)) (s : table.Store)
      → get_shadow num_eq table id (set_desired num_eq table id patch s).2
        ≡ (set_desired num_eq table id patch s).0
  unfolding set_desired get_shadow
  set_desired-view id patch s = ap (view_of num_eq) (saved id _ _ (find_or_create-id id s))

  set_desired-drifts :
      (id : Text) (patch : Dict (Json N)) (s : table.Store) (j : Text)
      → let view = (set_desired num_eq table id patch s).0 in
        any (text_eq j) view.drift ≡ (
          any (text_eq j) (keys view.shadow.desired)
          && not (same_value num_eq (get j view.shadow.desired) (get j view.shadow.reported)))
  unfolding set_desired view_of compute_drift
  set_desired-drifts id patch s j =
      let row = (find_or_create num_eq table id s).0 in
      let desired = merge row.desired patch in
      any-filter (λ k. not (same_value num_eq (get k desired) (get k row.reported))) (keys desired)
        j

  set_desired-in_sync :
      (id : Text) (patch : Dict (Json N)) (s : table.Store)
      → let view = (set_desired num_eq table id patch s).0 in
        (view.in_sync ≡ true) ↔ ((j : Text) → any (text_eq j) view.drift ≡ false)
  unfolding set_desired view_of
  set_desired-in_sync id patch s = (no_keys _, keys_no _)

  -- Setting desired state gives each key of the patch its last value there and leaves the other
  -- keys; it raises the desired version by one and leaves the reported state and its version. The view
  -- returned has the new desired state. A key drifts in it exactly if it is desired and its reported
  -- value is not the same, which is also what is read back; it is in sync exactly if no key drifts.
  pub set_desired-SetsDesired :
      (id : Text) (patch : Dict (Json N)) (s : table.Store) → SetsDesired id patch s
  set_desired-SetsDesired id patch s =
      let row = set_desired-row id patch s in
      let view = set_desired-view id patch s in
      record {
        desired = λ j.
            ap (λ (r : DeviceShadow N). get j r.desired) row
            ∙ get-merge j (before id s).desired patch;
        desired_version = ap (λ (r : DeviceShadow N). r.desired_version) row;
        reported = λ j. ap (λ (r : DeviceShadow N). get j r.reported) row;
        reported_version = ap (λ (r : DeviceShadow N). r.reported_version) row;
        returned = λ j.
            ap (λ (v : ShadowView N). get j v.shadow.desired) (sym view)
            ∙ ap (λ (r : DeviceShadow N). get j r.desired) row
            ∙ get-merge j (before id s).desired patch;
        drift = λ j. ap (λ (v : ShadowView N). any (text_eq j) v.drift) (sym view);
        drifts = λ j. set_desired-drifts id patch s j;
        in_sync = set_desired-in_sync id patch s;
      }

  merge_reported-row :
      (id : Text) (x : Text × Reading N) (xs : List (Text × Reading N)) (s : table.Store)
      → before id (merge_reported num_eq table id (x ∷ xs) s) ≡ record (before id s) {
        reported = merge (before id s).reported (patch_of (x ∷ xs));
        reported_version = (before id s).reported_version + 1;
      }
  unfolding merge_reported
  merge_reported-row id x xs s =
      saved id _ _ (find_or_create-id id s)
      ∙ ap
          (λ (row : DeviceShadow N). record row {
            reported = merge row.reported (patch_of (x ∷ xs));
            reported_version = row.reported_version + 1;
          })
          (find_or_create-row id s)

  -- Merging samples, one at least, gives each metric its last value and leaves the other reported
  -- keys; it raises the reported version by one and leaves the desired state and its version.
  pub merge_reported-get :
      (id : Text) (x : Text × Reading N) (xs : List (Text × Reading N)) (s : table.Store) (j : Text)
      → let row = before id s in
        let after = before id (merge_reported num_eq table id (x ∷ xs) s) in
        (get j after.reported ≡ patched j (get j row.reported) (patch_of (x ∷ xs)))
        × (after.reported_version ≡ row.reported_version + 1)
        × (after.desired ≡ row.desired)
        × (after.desired_version ≡ row.desired_version)
  merge_reported-get id x xs s j =
      let row = merge_reported-row id x xs s in
      (
        ap (λ (r : DeviceShadow N). get j r.reported) row
            ∙ get-merge j (before id s).reported (patch_of (x ∷ xs)),
        ap (λ (r : DeviceShadow N). r.reported_version) row,
        ap (λ (r : DeviceShadow N). r.desired) row,
        ap (λ (r : DeviceShadow N). r.desired_version) row,
      )

  -- A twin is in sync exactly when every desired key has the same value in the reported state.
  in_sync_iff :
      (id : Text) (s : table.Store)
      → let view = get_shadow num_eq table id s in
        (view.in_sync ≡ true)
        ↔ All
            (λ k. same_value num_eq (get k view.shadow.desired) (get k view.shadow.reported) ≡ true)
            (keys view.shadow.desired)
  unfolding get_shadow
  in_sync_iff id s = (filter-nil _ _, nil-filter _ _)
