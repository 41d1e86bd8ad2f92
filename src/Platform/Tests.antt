-- ===== src/Platform/Tests.antt =====
-- Inputs for apps/backend/src/platform.
use senior_io_t_platform_arc.Prelude.{◌≡◌, refl, ◌↔◌, true, false, units, split, text_eq, leb}
use senior_io_t_platform_arc.Platform.Permissions.{
  operator, users_manage, role_text, role_has_permission,
}
use senior_io_t_platform_arc.Platform.Permissions.Ranks.{rank, least_rank, role_has_permission-rank}
use senior_io_t_platform_arc.Platform.Patterns.{matches_pattern, Matches, matches_pattern_iff}

role_has_permission-rank_example :
    role_has_permission (units "operator") users_manage
    ≡ leb (least_rank users_manage) (rank operator)
unfolding role_text
role_has_permission-rank_example = role_has_permission-rank operator users_manage

pattern_tests :
    (matches_pattern (units "device.*.changed") (units "device.state.changed") ≡ true)
    × (matches_pattern (units "device.**") (units "device") ≡ false)
    × (matches_pattern (units "device.*") (units "device.command.created") ≡ false)
unfolding matches_pattern split text_eq
pattern_tests = (refl, refl, refl)

matches_pattern_iff_example :
    (matches_pattern (units "device.**") (units "device.state.changed") ≡ true)
    ↔ Matches (split b'.' (units "device.**")) (split b'.' (units "device.state.changed"))
matches_pattern_iff_example = matches_pattern_iff (units "device.**") (units "device.state.changed")
