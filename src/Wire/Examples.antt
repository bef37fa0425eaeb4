-- ===== src/Wire/Examples.antt =====
-- Numbers and reports at which the theorems of Wire/Hex and Wire/Failure apply.
use adbtest_ce.Prelude.{All, List, [], codes, refl, ◌++◌, ◌∷◌, ◌≡◌}
use adbtest_ce.Io.{Arrival, got}
use adbtest_ce.Io.ReadLoop.{IsHealthy, stream}
use adbtest_ce.Wire.{adb_status, failmsg_header, hex4, hex_digit, rejected}
use adbtest_ce.Wire.Failure.{adb_status-fail_message, fail_message}

-- A report of `no`, in two pieces.
abbrev report : List Arrival
report = got (codes "FAIL00") ∷ got (codes "02no") ∷ []

report-IsHealthy : All IsHealthy report
report-IsHealthy = ((λ e. cc), ((λ e. cc), tt))

stream-report : stream report ≡ fail_message (codes "no") ++ []
unfolding failmsg_header hex4 hex_digit
stream-report = refl

adb_status-fail_message_example : adb_status report ≡ rejected (codes "no")
adb_status-fail_message_example =
    adb_status-fail_message report (codes "no") [] report-IsHealthy stream-report
