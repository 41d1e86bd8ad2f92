-- ===== src/Platform/Permissions.antt =====
-- apps/backend/src/platform/auth/permissions.ts: roles as named sets of permissions.
pub mod Ranks
use senior_io_t_platform_arc.Prelude.{
  Bool, List, [], ◌∷◌, ◌++◌, any, if◌then◌else◌, Option, none, some, Text, units, text_eq,
}

pub data Permission : Type 0 where
  devices_read devices_write commands_read commands_dispatch twin_read twin_write : Permission
  telemetry_read audit_read metrics_read users_manage devices_privileged : Permission

unfoldable pub permission_text : Permission → Text
permission_text devices_read = units "devices:read"
permission_text devices_write = units "devices:write"
permission_text commands_read = units "commands:read"
permission_text commands_dispatch = units "commands:dispatch"
permission_text twin_read = units "twin:read"
permission_text twin_write = units "twin:write"
permission_text telemetry_read = units "telemetry:read"
permission_text audit_read = units "audit:read"
permission_text metrics_read = units "metrics:read"
permission_text users_manage = units "users:manage"
permission_text devices_privileged = units "devices:privileged"

abbrev permissions : List Permission
permissions =
    devices_read ∷ devices_write ∷ commands_read ∷ commands_dispatch ∷ twin_read ∷ twin_write
    ∷ telemetry_read ∷ audit_read ∷ metrics_read ∷ users_manage ∷ devices_privileged ∷ []

pub data Role : Type 0 where
  admin operator viewer : Role

unfoldable pub role_text : Role → Text
role_text admin = units "admin"
role_text operator = units "operator"
role_text viewer = units "viewer"

abbrev roles : List Role
roles = admin ∷ operator ∷ viewer ∷ []

abbrev viewer_permissions : List Permission
viewer_permissions = devices_read ∷ commands_read ∷ twin_read ∷ telemetry_read ∷ []

abbrev operator_permissions : List Permission
operator_permissions = viewer_permissions ++ (devices_write ∷ commands_dispatch ∷ twin_write ∷ [])

role_permissions : Role → List Permission
role_permissions viewer = viewer_permissions
role_permissions operator = operator_permissions
role_permissions admin = permissions

-- `isRole`, with the role that the text names.
unfoldable pub is_role : Text → Option Role
unfolding role_text text_eq
is_role value =
    if text_eq (role_text admin) value
    then some admin
    else (if text_eq (role_text operator) value
        then some operator
        else (if text_eq (role_text viewer) value then some viewer else none))

permissions_for : Text → List Permission
unfolding is_role role_permissions
permissions_for role = elim (is_role role) [ none ↦ [] | some r ↦ role_permissions r ]

unfoldable pub role_has_permission : Text → Permission → Bool
unfolding permissions_for permission_text text_eq
role_has_permission role permission =
    any (λ p. text_eq (permission_text p) (permission_text permission)) (permissions_for role)
