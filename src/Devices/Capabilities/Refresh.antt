-- ===== src/Devices/Capabilities/Refresh.antt =====
-- devices.service.ts: which capability groups a device has after a refresh.
use senior_io_t_platform_arc.Prelude.{
  ℕ, ◌≡◌, refl, ap, ◌∙◌, Bool, not, ◌&&◌, ◌||◌, List, [], ◌∷◌, filter, any, map, if◌then◌else◌,
  Text, text_eq, text_eq_iff, arith, Bool-cases, inl, inr, sort_by, insert_by,
}
use senior_io_t_platform_arc.Protocol.Capabilities.{
  CapabilityGroup, capability_group_ids, is_member, distinct, without, text_le,
}
use senior_io_t_platform_arc.Devices.{DeviceCapability}
use senior_io_t_platform_arc.Devices.Capabilities.{is_row, upsert_one, upsert_all, replace_groups}

-- Does a device have a group?
abbrev pub has_row : Text → Text → List DeviceCapability → Bool
has_row device_id group_id cs = any (is_row device_id group_id) cs

-- Is a group among the items of a catalog?
abbrev pub offers : Text → List CapabilityGroup → Bool
offers group_id items = any (λ g. text_eq g.group_id group_id) items

has_row-upsert_one :
    (now : ℕ) (id : Text) (g : CapabilityGroup) (cs : List DeviceCapability) (d k : Text)
    → has_row d k (upsert_one now id g cs)
      ≡ ((text_eq id d && text_eq g.group_id k) || has_row d k cs)
unfolding upsert_one
has_row-upsert_one now id g [] d k = refl
has_row-upsert_one now id g (c ∷ cs) d k = ground (
  arith,
  text_eq_iff c.device_id id,
  text_eq_iff c.group_id g.group_id,
  text_eq_iff c.device_id d,
  text_eq_iff c.group_id k,
  text_eq_iff id d,
  text_eq_iff g.group_id k,
  has_row-upsert_one now id g cs d k,
)

has_row-upsert_all :
    (now : ℕ) (id : Text) (items : List CapabilityGroup) (cs : List DeviceCapability) (d k : Text)
    → has_row d k (upsert_all now id items cs)
      ≡ ((text_eq id d && offers k items) || has_row d k cs)
unfolding upsert_all
has_row-upsert_all now id [] cs d k = ground arith
has_row-upsert_all now id (g ∷ gs) cs d k = ground (
  arith,
  has_row-upsert_one now id g cs d k,
  has_row-upsert_all now id gs (upsert_one now id g cs) d k,
)

-- A filter that looks at the keys only.
has_row-filter :
    (keep : Text → Text → Bool) (cs : List DeviceCapability) (d k : Text)
    → has_row d k (filter (λ c. keep c.device_id c.group_id) cs) ≡ (keep d k && has_row d k cs)
has_row-filter keep [] d k = ground arith
has_row-filter keep (c ∷ cs) d k =
    elim (Bool-cases (text_eq c.device_id d && text_eq c.group_id k)) [
      | inl e ↦
          let kept : keep c.device_id c.group_id ≡ keep d k =
            ground (arith, text_eq_iff c.device_id d, text_eq_iff c.group_id k) in
          ground (arith, kept, has_row-filter keep cs d k)
      | inr e ↦ ground (arith, has_row-filter keep cs d k)
    ]

is_member-without :
    (k x : Text) (xs : List Text)
    → is_member k (without x xs) ≡ (not (text_eq x k) && is_member k xs)
unfolding without
is_member-without k x [] = ground arith
is_member-without k x (y ∷ xs) =
    ground (arith, text_eq_iff x y, text_eq_iff k y, text_eq_iff x k, is_member-without k x xs)

is_member-distinct : (k : Text) (xs : List Text) → is_member k (distinct xs) ≡ is_member k xs
unfolding distinct
is_member-distinct k [] = refl
is_member-distinct k (x ∷ xs) = ground (
  arith,
  text_eq_iff k x,
  text_eq_iff x k,
  is_member-without k x (distinct xs),
  is_member-distinct k xs,
)

is_member-insert_by :
    (before : Text → Text → Bool) (k x : Text) (xs : List Text)
    → is_member k (insert_by before x xs) ≡ (text_eq k x || is_member k xs)
is_member-insert_by before k x [] = refl
is_member-insert_by before k x (y ∷ xs) = ground (arith, is_member-insert_by before k x xs)

is_member-sort_by :
    (before : Text → Text → Bool) (k : Text) (xs : List Text)
    → is_member k (sort_by before xs) ≡ is_member k xs
is_member-sort_by before k [] = refl
is_member-sort_by before k (x ∷ xs) =
    is_member-insert_by before k x (sort_by before xs)
    ∙ ap (λ b. text_eq k x || b) (is_member-sort_by before k xs)

is_member-map :
    (k : Text) (items : List CapabilityGroup)
    → is_member k (map (λ g. g.group_id) items) ≡ offers k items
is_member-map k [] = refl
is_member-map k (g ∷ items) =
    ground (arith, text_eq_iff k g.group_id, text_eq_iff g.group_id k, is_member-map k items)

-- Sorting and removing duplicates loses no id and adds none.
is_member-capability_group_ids :
    (k : Text) (items : List CapabilityGroup)
    → is_member k (capability_group_ids items) ≡ offers k items
unfolding capability_group_ids
is_member-capability_group_ids k items =
    is_member-sort_by text_le k (distinct (map (λ g. g.group_id) items))
    ∙ is_member-distinct k (map (λ g. g.group_id) items)
    ∙ is_member-map k items

-- After the transaction a device has exactly the groups of its catalog, and every other device those of
-- before.
pub has_row-replace_groups :
    (now : ℕ) (id : Text) (items : List CapabilityGroup) (cs : List DeviceCapability) (d k : Text)
    → has_row d k (replace_groups now id items cs)
      ≡ (if text_eq id d then offers k items else has_row d k cs)
unfolding replace_groups
has_row-replace_groups now id [] cs d k =
    has_row-filter (λ x _. not (text_eq x id)) cs d k
    ∙ ground (arith, text_eq_iff d id, text_eq_iff id d)
has_row-replace_groups now id (g ∷ gs) cs d k =
    let ids = capability_group_ids (g ∷ gs) in
    has_row-filter (λ x y. not (text_eq x id && not (is_member y ids)))
      (upsert_all now id (g ∷ gs) cs) d k
    ∙ ground (
      arith,
      text_eq_iff d id,
      text_eq_iff id d,
      has_row-upsert_all now id (g ∷ gs) cs d k,
      is_member-capability_group_ids k (g ∷ gs),
    )
