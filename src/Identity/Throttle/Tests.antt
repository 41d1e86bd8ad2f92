-- ===== src/Identity/Throttle/Tests.antt =====
-- Inputs for apps/backend/src/identity/login-throttle.ts.
use senior_io_t_platform_arc.Prelude.{
  List, ℕ, zero, suc, ◌+◌, ◌≡◌, refl, ◌↔◌, ◌<◌, ◌≤◌, true, false, Text, units, [], ◌∷◌, ok, err,
  arith, length, text_eq, trim,
}
use senior_io_t_platform_arc.Prelude.Dict.{get, set, delete}
use senior_io_t_platform_arc.Identity.Throttle.{
  LoginThrottle, assert_allowed, record_failure, normalize,
}
use senior_io_t_platform_arc.Identity.Throttle.Windows.{recent}
use senior_io_t_platform_arc.Identity.Throttle.Limits.{recent-assert_allowed}
use senior_io_t_platform_arc.Identity.Throttle.History.{
  Attempt, failed, Run, account_failures, address_failures, Run-refines,
}
use senior_io_t_platform_arc.Identity.Throttle.Capacity.{record_failure-capacity}

abbrev same_case : Text → Text
same_case s = s

abbrev ann : Text
ann = units " ann@x "

abbrev home : Text
home = units "10.0.0.7"

abbrev fresh : LoginThrottle
fresh = record { by_account = []; by_address = [] }

abbrev failing : ℕ → LoginThrottle → LoginThrottle
failing zero t = t
failing (suc n) t = (record_failure same_case (1000 + n) ann home (failing n t)).1

lockout_tests :
    ((assert_allowed same_case 2000 ann home (failing 4 fresh)).0 ≡ ok tt)
    × ((assert_allowed same_case 2000 ann home (failing 5 fresh)).0 ≡ err 899)
    × ((assert_allowed same_case 901000 ann home (failing 5 fresh)).0 ≡ ok tt)
    × ((record_failure same_case 2000 ann home (failing 4 fresh)).0.account ≡ true)
    × ((record_failure same_case 2000 ann home (failing 5 fresh)).0.account ≡ false)
unfolding assert_allowed record_failure get set delete text_eq trim
lockout_tests = (refl, refl, refl, refl, refl)

abbrev seen : LoginThrottle
seen = record { by_account = (units "ann@x", 1000 ∷ 1001 ∷ []) ∷ []; by_address = [] }

recent-assert_allowed_example :
    (recent 3000 (assert_allowed same_case 2000 ann home seen).1.by_account (units "ann@x")
      ≡ recent 3000 seen.by_account (units "ann@x"))
    × (recent 3000 (assert_allowed same_case 2000 ann home seen).1.by_address (units "ann@x")
        ≡ recent 3000 [] (units "ann@x"))
recent-assert_allowed_example =
    recent-assert_allowed same_case 2000 3000 ann home (units "ann@x") seen (omega arith)

record_failure-capacity_example :
    (length (record_failure same_case 2000 ann home seen).1.by_account ≤ 10000)
    × (length (record_failure same_case 2000 ann home seen).1.by_address ≤ 10000)
record_failure-capacity_example = record_failure-capacity same_case 2000 ann home seen

abbrev log : List Attempt
log = failed 1001 (units "ann@x") home ∷ failed 1000 (units "ann@x") home ∷ []

twice : Run same_case log (failing 2 fresh) 1001
unfolding trim text_eq get set record_failure
twice =
    Run.fails 1001 ann home
      (Run.fails 1000 ann home (Run.starts 1000) (omega arith) (omega arith) (omega arith))
      (omega arith) (omega arith) (omega arith)

Run-refines_example :
    (((assert_allowed same_case 2000 ann home (failing 2 fresh)).0 ≡ ok tt) ↔ (
      (account_failures 2000 (normalize same_case ann) log < 5)
      × (address_failures 2000 home log < 20)))
    × (((record_failure same_case 2000 ann home (failing 2 fresh)).0.account ≡ true)
        ↔ (account_failures 2000 (normalize same_case ann) log ≡ 4))
    × (((record_failure same_case 2000 ann home (failing 2 fresh)).0.address ≡ true)
        ↔ (address_failures 2000 home log ≡ 19))
Run-refines_example = Run-refines same_case 2000 ann home twice (omega arith)
