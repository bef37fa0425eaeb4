-- ===== src/Smart/Examples.antt =====
-- Requests at which the theorems of Smart/Framing and Smart/Target apply.
use adbtest_ce.Prelude.{All, Bytes, [], after_prefix, arith, codes, none, refl, some, ◌∷◌, ◌≡◌, ◌≢◌}
use adbtest_ce.Wire.{connect_request, hex4, hex_digit}
use adbtest_ce.Smart.{
  after_prefixes, feed_request, format_host_command, prefixes, smart_feed_all, target,
  transport_any,
}
use adbtest_ce.Smart.Framing.{smart_feed_all-connect_request}
use adbtest_ce.Smart.Target.{Sends, asked, host_target-format_host_command}

devices_request : connect_request (codes "host:devices") ≡ some (codes "000chost:devices")
unfolding connect_request hex4 hex_digit
devices_request = refl

-- The header is cut, and the last byte comes alone.
smart_feed_all-connect_request_example :
    smart_feed_all none (codes "00" ∷ codes "0chost:device" ∷ codes "s" ∷ [])
    ≡ some (feed_request (codes "host:devices"))
smart_feed_all-connect_request_example =
    smart_feed_all-connect_request (codes "host:devices") (codes "000chost:devices")
      (codes "00" ∷ codes "0chost:device" ∷ codes "s" ∷ []) devices_request refl

abbrev host : Bytes
host = codes "10.0.0.7"

host_plain : All (λ b. b ≢ b':') host
host_plain = ground arith

no_prefix : after_prefixes prefixes (codes "10.0.0.7:5555:shell") ≡ none
unfolding after_prefixes prefixes after_prefix
no_prefix = refl

emulator_plain : after_prefixes prefixes (codes "emulator-5554:shell") ≡ none
unfolding after_prefixes prefixes after_prefix
emulator_plain = refl

host_target-format_host_command_example :
    Sends
      (format_host_command 4096 (codes "shell") transport_any (some (codes "10.0.0.7:5555")))
      (record {
        service = codes "shell";
        ttype = transport_any;
        serial = some (codes "10.0.0.7:5555");
      })
    × Sends
        (format_host_command 4096 (codes "shell") transport_any none)
        (target (codes "shell") (asked transport_any))
host_target-format_host_command_example =
    host_target-format_host_command 4096 (codes "shell") host (codes "5555") transport_any
      host_plain (refl, (refl, (refl, (refl, tt)))) (λ e. cc) no_prefix (omega arith) (omega arith)
