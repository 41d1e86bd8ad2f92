-- ===== src/Platform/Permissions/Ranks.antt =====
-- permissions.ts: the three roles as ranks, and what each permission asks for.
use senior_io_t_platform_arc.Prelude.{ℕ, ◌≡◌, refl, ◌≢◌, false, leb, Text, text_eq_iff, arith}
use senior_io_t_platform_arc.Platform.Permissions.{
  Permission, devices_read, devices_write, commands_read, commands_dispatch, twin_read, twin_write,
  telemetry_read, audit_read, metrics_read, users_manage, devices_privileged, Role, admin, operator,
  viewer, role_text, role_has_permission,
}

-- An independent description: each role has a rank, each permission a least rank.
abbrev pub rank : Role → ℕ
rank viewer = 0
rank operator = 1
rank admin = 2

abbrev pub least_rank : Permission → ℕ
least_rank devices_read = 0
least_rank commands_read = 0
least_rank twin_read = 0
least_rank telemetry_read = 0
least_rank devices_write = 1
least_rank commands_dispatch = 1
least_rank twin_write = 1
least_rank audit_read = 2
least_rank metrics_read = 2
least_rank users_manage = 2
least_rank devices_privileged = 2

of_admin : (p : Permission) → role_has_permission (role_text admin) p ≡ leb (least_rank p) 2
unfolding role_has_permission
of_admin devices_read = refl
of_admin _ = refl

of_operator : (p : Permission) → role_has_permission (role_text operator) p ≡ leb (least_rank p) 1
unfolding role_has_permission
of_operator devices_read = refl
of_operator _ = refl

of_viewer : (p : Permission) → role_has_permission (role_text viewer) p ≡ leb (least_rank p) 0
unfolding role_has_permission
of_viewer devices_read = refl
of_viewer _ = refl

-- A role has a permission exactly when its rank reaches the permission's least rank.
pub role_has_permission-rank :
    (r : Role) (p : Permission) → role_has_permission (role_text r) p ≡ leb (least_rank p) (rank r)
role_has_permission-rank admin p = of_admin p
role_has_permission-rank operator p = of_operator p
role_has_permission-rank viewer p = of_viewer p

-- A text that names no role has no permission.
role_has_permission-unknown :
    (role : Text) (p : Permission)
    → ((r : Role) → role ≢ role_text r)
    → role_has_permission role p ≡ false
unfolding role_has_permission
role_has_permission-unknown role p h =
    ground (arith, h admin, h operator, h viewer, text_eq_iff (role_text admin) role)
