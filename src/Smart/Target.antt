-- ===== src/Smart/Target.antt =====
-- `skip_host_serial` (ADBTestCE/adb/sockets.cpp) on what `format_host_command` prints
-- (ADBTestCE/adb/commandline.cpp).
use adbtest_ce.Prelude.{
  All, Bytes, Option, [], after_prefix, ap, append_assoc, arith, codes, false, length, ltb, none,
  refl, some, true, ℕ, ◌++◌, ◌<◌, ◌∷◌, ◌≡◌, ◌≢◌,
}
use adbtest_ce.Smart.{
  HostTarget, TransportType, after_prefixes, digits_then, format_host_command, host_command,
  host_target, is_digit, prefixes, skip_host_serial, split_at, target, transport_any,
  transport_host, transport_local, transport_usb, serial_target, port_end,
}

-- The part before the first colon.
pub split_at-append :
    (c : ℕ) (x y : Bytes) → All (λ b. b ≢ c) x → split_at c (x ++ c ∷ y) ≡ some (x, y)
unfolding split_at
split_at-append c [] y h = ground arith
split_at-append c (b ∷ x) y h = ground (arith, split_at-append c x y h.1)

abbrev pub IsDigits : Bytes → Type 0
IsDigits = All (λ c. is_digit c ≡ true)

digits_then-append : (x y : Bytes) → IsDigits x → digits_then (x ++ b':' ∷ y) ≡ (x, b':' ∷ y)
unfolding digits_then
digits_then-append [] y h = refl
digits_then-append (c ∷ x) y h = rw (h.0, digits_then-append x y h.1)

port_end-append :
    (host port rest : Bytes)
    → IsDigits port
    → port ≢ []
    → port_end host (port ++ b':' ∷ rest) ≡ (host ++ (b':' ∷ port), rest)
unfolding port_end
port_end-append host [] rest d ne = absurd (ne refl)
port_end-append host (c ∷ port) rest d ne =
    ground (arith, d.0, digits_then-append (c ∷ port) rest d)

-- A serial number of the form `host:port` is kept together, although a colon also ends it.
pub skip_host_serial-host_port :
    (host port command : Bytes)
    → All (λ b. b ≢ b':') host
    → IsDigits port
    → port ≢ []
    → after_prefixes prefixes (host ++ (b':' ∷ (port ++ b':' ∷ command))) ≡ none
    → skip_host_serial (host ++ (b':' ∷ (port ++ b':' ∷ command)))
      ≡ some (host ++ (b':' ∷ port), command)
unfolding skip_host_serial
skip_host_serial-host_port host port command h d ne plain =
    rw (plain, split_at-append b':' host _ h, skip_host_serial)
      (ap some (port_end-append host port command d ne))

port_end_plain :
    (host rest : Bytes) → All (λ b. is_digit b ≡ false) rest → port_end host rest ≡ (host, rest)
unfolding port_end
port_end_plain host [] h = refl
port_end_plain host (c ∷ rest) h = rw h.0

-- A serial number with no colon in it ends at the first colon, unless the service looks like a port.
pub skip_host_serial-plain :
    (serial command : Bytes)
    → All (λ b. b ≢ b':') serial
    → All (λ b. is_digit b ≡ false) command
    → after_prefixes prefixes (serial ++ b':' ∷ command) ≡ none
    → skip_host_serial (serial ++ b':' ∷ command) ≡ some (serial, command)
unfolding skip_host_serial
skip_host_serial-plain serial command h d plain =
    rw (plain, split_at-append b':' serial _ h, skip_host_serial)
      (ap some (port_end_plain serial command d))

-- Without a serial number a client can ask for the type only.
abbrev pub asked : TransportType → TransportType
asked transport_host = transport_any
asked t = t

untargeted :
    (command : Bytes) (ttype : TransportType)
    → host_target (host_command command ttype none) ≡ some (target command (asked ttype))
unfolding host_target after_prefix
untargeted command transport_usb = refl
untargeted command transport_local = refl
untargeted command _ = refl

-- The text is there, and the server finds that in it.
abbrev pub Sends : Option Bytes → HostTarget → Type 0
Sends o x = (text : Bytes) × (o ≡ some text) × (host_target text ≡ some x)

targeted :
    (command host port : Bytes)
    → All (λ b. b ≢ b':') host
    → IsDigits port
    → port ≢ []
    → after_prefixes prefixes (host ++ (b':' ∷ (port ++ b':' ∷ command))) ≡ none
    → host_target (codes "host-serial:" ++ (host ++ (b':' ∷ port)) ++ (b':' ∷ command))
      ≡ some (record {
        service = command;
        ttype = transport_any;
        serial = some (host ++ (b':' ∷ port));
      })
unfolding host_target after_prefix
targeted command host port h d ne plain = rw (
  append_assoc host (b':' ∷ port) (b':' ∷ command),
  skip_host_serial-host_port host port command h d ne plain,
  serial_target,
)

-- The server finds the command, the transport type and the serial number `host:port` that the client
-- formatted, each time the text and its NUL fit the client's buffer.
pub host_target-format_host_command :
    (buflen : ℕ) (command host port : Bytes) (ttype : TransportType)
    → All (λ b. b ≢ b':') host
    → IsDigits port
    → port ≢ []
    → after_prefixes prefixes (host ++ (b':' ∷ (port ++ b':' ∷ command))) ≡ none
    → length (host_command command ttype (some (host ++ (b':' ∷ port)))) < buflen
    → length (host_command command ttype none) < buflen
    → Sends
        (format_host_command buflen command ttype (some (host ++ (b':' ∷ port))))
        (record { service = command; ttype = transport_any; serial = some (host ++ (b':' ∷ port)) })
      × Sends (format_host_command buflen command ttype none) (target command (asked ttype))
unfolding format_host_command
host_target-format_host_command buflen command host port ttype h d ne plain long short =
    let fits : ltb (length (host_command command ttype (some (host ++ (b':' ∷ port))))) buflen
        ≡ true =
      ground (arith, long) in
    let fits' : ltb (length (host_command command ttype none)) buflen ≡ true =
      ground (arith, short) in
    (
      (_, rw fits refl, targeted command host port h d ne plain),
      (_, rw fits' refl, untargeted command ttype),
    )
