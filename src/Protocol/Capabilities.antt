-- ===== src/Protocol/Capabilities.antt =====
-- packages/esp-claw-protocol/src/capabilities.ts: the catalog of a device's capability groups and its status,
-- read as the tests that their schemas make of a parsed document.
use senior_io_t_platform_arc.Prelude.{
  Bool, true, false, List, [], ◌∷◌, Option, none, some, Text, units, text_eq, if◌then◌else◌, is_nil,
  map, any, ltb, ◌==◌, ◌||◌, ◌&&◌, sort_by,
}
use senior_io_t_platform_arc.Prelude.Dict.{get}
use senior_io_t_platform_arc.Prelude.Json.{
  Json, bool, str, arr, obj, Elems, nil, cons, Props, entries,
}

pub record CapabilityGroup : Type 0 where
  pub group_id : Text
  pub display_name : Text
  pub default_llm_visible : Bool

infixl 5 ◌>>=◌
abbrev ◌>>=◌ : {A B : Type 0} → Option A → (A → Option B) → Option B
none >>= f = none
some a >>= f = f a

-- `z.string().min(1)`.
required_text : {N : Type 0} → Option (Json N) → Option Text
required_text (some (str s)) = if is_nil s then none else some s
required_text _ = none

-- `z.string().default("")` and `z.boolean().default(false)`.
defaulted_text : {N : Type 0} → Option (Json N) → Option Text
defaulted_text none = some []
defaulted_text (some (str s)) = some s
defaulted_text (some _) = none

defaulted_bool : {N : Type 0} → Option (Json N) → Option Bool
defaulted_bool none = some false
defaulted_bool (some (bool b)) = some b
defaulted_bool (some _) = none

group_of : {N : Type 0} → List (Text × Json N) → Option CapabilityGroup
unfolding required_text defaulted_text defaulted_bool
group_of fields = do
  group_id ← required_text (get (units "group_id") fields)
  display_name ← defaulted_text (get (units "display_name") fields)
  default_llm_visible ← defaulted_bool (get (units "default_llm_visible") fields)
  some (record {
    group_id = group_id;
    display_name = display_name;
    default_llm_visible = default_llm_visible;
  })

parse_group : {N : Type 0} → Json N → Option CapabilityGroup
unfolding group_of
parse_group (obj ps) = group_of (entries ps)
parse_group _ = none

parse_groups : {N : Type 0} → Elems N → Option (List CapabilityGroup)
unfolding parse_group
parse_groups nil = some []
parse_groups (cons v vs) = do group ← parse_group v; groups ← parse_groups vs; some (group ∷ groups)

-- `z.array(CapabilityGroupSchema).default([])`.
items_of : {N : Type 0} → Option (Json N) → Option (List CapabilityGroup)
unfolding parse_groups
items_of none = some []
items_of (some (arr vs)) = parse_groups vs
items_of (some _) = none

-- The items of the catalog.
unfoldable pub parse_capability_catalog : {N : Type 0} → Json N → Option (List CapabilityGroup)
unfolding items_of
parse_capability_catalog (obj ps) = items_of (get (units "items") (entries ps))
parse_capability_catalog _ = none

abbrev pub is_member : Text → List Text → Bool
is_member id ids = any (text_eq id) ids

-- `[...new Set(ids)]`: the first of equal ids stays.
unfoldable pub without : Text → List Text → List Text
without id [] = []
without id (x ∷ xs) = let rest = without id xs in if text_eq id x then rest else x ∷ rest

unfoldable pub distinct : List Text → List Text
unfolding without
distinct [] = []
distinct (x ∷ xs) = x ∷ without x (distinct xs)

-- The default order of `sort`: by code units.
unfoldable pub text_le : Text → Text → Bool
text_le [] t = true
text_le (x ∷ s) [] = false
text_le (x ∷ s) (y ∷ t) = ltb x y || (x == y && text_le s t)

unfoldable pub capability_group_ids : List CapabilityGroup → List Text
unfolding distinct text_le
capability_group_ids items = sort_by text_le (distinct (map (λ g. g.group_id) items))

-- `z.boolean().optional()` and `z.string().optional()`.
is_optional_bool : {N : Type 0} → Option (Json N) → Bool
is_optional_bool none = true
is_optional_bool (some (bool b)) = true
is_optional_bool (some _) = false

is_optional_text : {N : Type 0} → Option (Json N) → Bool
is_optional_text none = true
is_optional_text (some (str s)) = true
is_optional_text (some _) = false

-- The status of a device: the object as it came, if its known fields have their types.
pub parse_local_status : {N : Type 0} → Json N → Option (Props N)
unfolding is_optional_bool is_optional_text
parse_local_status (obj ps) =
    if is_optional_bool (get (units "wifi_connected") (entries ps))
      && is_optional_text (get (units "ip") (entries ps))
      && is_optional_bool (get (units "ap_active") (entries ps))
      && is_optional_text (get (units "ap_ssid") (entries ps))
      && is_optional_text (get (units "ap_ip") (entries ps))
      && is_optional_text (get (units "wifi_mode") (entries ps))
      && is_optional_text (get (units "storage_base_path") (entries ps))
    then some ps
    else none
parse_local_status _ = none
