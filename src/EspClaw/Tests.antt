-- ===== src/EspClaw/Tests.antt =====
-- Inputs for apps/backend/src/esp-claw/local-target.ts and local-api-client.ts.
use senior_io_t_platform_arc.Prelude.{
  ℕ, ◌++◌, ◌≡◌, refl, ◌≢◌, ◌⊎◌, ◌↔◌, true, false, [], any, Option, some, or_else, is_nil, Text,
  units, text_eq, split, trim, starts_with, ok,
}
use senior_io_t_platform_arc.Prelude.Json.{Json, num}
use senior_io_t_platform_arc.EspClaw.LocalApi.{Response, get_json}
use senior_io_t_platform_arc.EspClaw.LocalApi.Requests.{Outcome, get_json-Outcome}
use senior_io_t_platform_arc.EspClaw.{
  Octets, Url, octets_of, is_private_ipv4, cloud_metadata_ip, assert_safe_local_target,
}
use senior_io_t_platform_arc.EspClaw.Blocks.{
  address, InBlock, IsAddress, is_private_ipv4_iff, assert_safe_local_target-safe,
}

abbrev same_case : Text → Text
same_case s = s

abbrev lamp : Url
lamp = record {
  protocol = units "http:";
  username = [];
  password = [];
  port = some 8080;
  hostname = units "192.168.1.20";
  origin = units "http://192.168.1.20:8080";
}

-- A parser that knows one URL.
abbrev parse_lamp : Text → Option Url
parse_lamp _ = some lamp

private_tests :
    (is_private_ipv4 (units "172.31.0.9") ≡ true)
    × (is_private_ipv4 (units "172.32.0.9") ≡ false)
    × (is_private_ipv4 (units "127.0.0.1") ≡ false)
    × (is_private_ipv4 (units "100.100.100.200") ≡ false)
    × (is_private_ipv4 (units "10.0.0.256") ≡ false)
unfolding is_private_ipv4 split text_eq
private_tests = (refl, refl, refl, refl, refl)

is_private_ipv4_iff_example : (is_private_ipv4 (units "10.1.2.3") ≡ true) ↔ (
    (o : Octets) × (octets_of (units "10.1.2.3") ≡ some o)
    × IsAddress o
    × (units "10.1.2.3" ≢ cloud_metadata_ip)
    × InBlock (address o))
is_private_ipv4_iff_example = is_private_ipv4_iff (units "10.1.2.3")

passes : assert_safe_local_target same_case parse_lamp (units "192.168.1.20:8080") [] ≡ ok lamp
unfolding assert_safe_local_target is_private_ipv4 split text_eq trim starts_with
passes = refl

assert_safe_local_target-safe_example :
    (lamp.protocol ≡ units "http:")
    × (is_nil lamp.username ≡ true)
    × (is_nil lamp.password ≡ true)
    × ((or_else lamp.port 80 ≡ 80) ⊎ (or_else lamp.port 80 ≡ 8080))
    × ((is_private_ipv4 (same_case lamp.hostname) ≡ true)
        ⊎ (any (λ h. text_eq h (same_case lamp.hostname)) [] ≡ true))
assert_safe_local_target-safe_example =
    assert_safe_local_target-safe same_case parse_lamp (units "192.168.1.20:8080") [] lamp passes

-- A device that answers each request with a document of one byte.
abbrev fetch_digit : Text → Option Response
fetch_digit url = some (record { status = 200; declared = some 1; text = units "7" })

abbrev parse_digit : Text → Option (Json ℕ)
parse_digit text = some (num 7)

abbrev resolve : Text → Url → Text
resolve path target = target.origin ++ path

get_json-Outcome_example :
    let result =
      get_json same_case parse_lamp resolve fetch_digit parse_digit []
        (units "192.168.1.20:8080")
        (units "/api/status") in
    Outcome same_case parse_lamp resolve fetch_digit parse_digit []
      (units "192.168.1.20:8080")
      (units "/api/status")
      result.0
      result.1
get_json-Outcome_example =
    get_json-Outcome same_case parse_lamp resolve fetch_digit parse_digit []
      (units "192.168.1.20:8080") (units "/api/status")
