-- ===== src/Listing.antt =====
-- The list of transports as a text: `statename`, `add_qual`, `format_transport`, `list_transports` and
-- `list_transports_msg` of ADBTestCE/adb/transport.cpp. There `snprintf` is `_snprintf` (ADBTestCE/include/win32_adb.h), which gives -1 for a text that is longer than the
-- buffer. A step of the pointer `p` before the buffer is the fault `none`.
pub mod Fits
mod Examples
use adbtest_ce.Prelude.{
  Bool, Bytes, List, Option, [], codes, false, if◌then◌else◌, leb, length, ltb, map, none, some,
  suc, take, true, zero, ℕ, ◌&&◌, ◌++◌, ◌+◌, ◌-◌, ◌==◌, ◌∷◌,
}
use adbtest_ce.Transport.{
  Atransport, ConnectionState, cs_bootloader, cs_device, cs_host, cs_noperm, cs_offline,
  cs_recovery, cs_sideload, qual_char_is_invalid,
}
use adbtest_ce.Wire.{hex4}

unfoldable pub statename : ConnectionState → Bytes
statename cs_offline = codes "offline"
statename cs_bootloader = codes "bootloader"
statename cs_device = codes "device"
statename cs_host = codes "host"
statename cs_recovery = codes "recovery"
statename cs_sideload = codes "sideload"
statename cs_noperm = codes "no permissions"

-- The serial number, or what stands for it.
unfoldable pub listed_serial : Option Bytes → Bytes
listed_serial none = codes "????????????"
listed_serial (some []) = codes "????????????"
listed_serial (some (c ∷ s)) = c ∷ s

-- The text that `format_transport` prints, as long as it is.
unfoldable pub transport_line : Atransport → Bytes
transport_line t = listed_serial t.serial ++ (9 ∷ (statename t.connection_state ++ 10 ∷ []))

-- All bytes but the last.
unfoldable pub without_last : Bytes → Bytes
without_last [] = []
without_last (c ∷ []) = []
without_last (c ∷ d ∷ s) = c ∷ without_last (d ∷ s)

-- The loop: `text` is what stands between `buf` and `p`. A line that fits moves `p` behind it; one
-- that fills the buffer ends the loop; for a longer one `len` is -1, and `p` goes back.
unfoldable pub list_lines : ℕ → List Bytes → Bytes → Option Bytes
list_lines bufsize [] text = some text
list_lines bufsize (line ∷ lines) text =
    let fits = list_lines bufsize lines (text ++ line) in
    let back = list_lines bufsize lines (without_last text) in
    let room = bufsize - length text in
    if ltb room (length line)
    then elim text [ [] ↦ none | c ∷ s ↦ back ]
    else if leb bufsize (length text + length line)
    then some text
    else fits

unfoldable pub list_transports : ℕ → List Atransport → Option Bytes
list_transports bufsize ts = list_lines bufsize (map transport_line ts) []

-- The message for the trackers: the length, and the text in the rest of the buffer.
unfoldable pub list_transports_msg : ℕ → List Atransport → Option Bytes
list_transports_msg bufferlen ts = elim (list_transports (bufferlen - 4) ts) [
  | none ↦ none
  | some text ↦ some (hex4 (length text) ++ text)
]

-- A step of the long listing: the text up to the pointer, and the rest of the buffer's size. A part
-- that does not fit takes a byte back, since its length is -1.
unfoldable pub put_part : Bytes → Bytes × ℕ → Option (Bytes × ℕ)
put_part part (text, remaining) =
    if ltb remaining (length part)
    then elim text [ [] ↦ none | c ∷ s ↦ some (without_last (c ∷ s), remaining + 1) ]
    else some (text ++ part, remaining - length part)

abbrev pub sanitized : Bool → Bytes → Bytes
sanitized sanitize_qual qual =
    map (λ c. if sanitize_qual && qual_char_is_invalid c then b'_' else c) qual

unfoldable pub add_qual : Bytes → Option Bytes → Bool → Bytes × ℕ → Option (Bytes × ℕ)
unfolding put_part
add_qual prefix none sanitize_qual (text, remaining) = some (text, remaining)
add_qual prefix (some []) sanitize_qual (text, remaining) = some (text, remaining)
add_qual prefix (some (c ∷ s)) sanitize_qual (text, remaining) =
    let part = prefix ++ sanitized sanitize_qual (c ∷ s) in
    if remaining == 0 then some (text, remaining) else put_part part (text, remaining)

-- `%-22s`.
unfoldable pub padded : ℕ → Bytes → Bytes
padded zero s = s
padded (suc n) [] = b' ' ∷ padded n []
padded (suc n) (c ∷ s) = c ∷ padded n s

-- The step `f` after a step that met no fault.
abbrev pub and_then {ℓ} : {A : Type ℓ} → Option A → (A → Option A) → Option A
and_then none f = none
and_then (some x) f = f x

-- `format_transport` with the long listing.
unfoldable pub format_long : Atransport → Bytes × ℕ → Option (Bytes × ℕ)
unfolding add_qual put_part
format_long t s =
    let name = padded 22 (listed_serial t.serial) ++ (b' ' ∷ statename t.connection_state) in
    and_then
      (and_then
        (and_then
          (and_then (and_then (put_part name s) (add_qual (codes " ") t.devpath false))
            (add_qual (codes " product:") t.product false))
          (add_qual (codes " model:") t.model true))
        (add_qual (codes " device:") t.device false))
      (put_part (10 ∷ []))

-- `list_transports` with the long listing.
unfoldable pub list_long : ℕ → List Atransport → Bytes → Option Bytes
list_long bufsize [] text = some text
list_long bufsize (t ∷ ts) text = elim (format_long t (text, bufsize - length text)) [
  | none ↦ none
  | some (longer, _) ↦
      let rest = list_long bufsize ts longer in
      if leb bufsize (length longer) then some (take (length text) longer) else rest
]
