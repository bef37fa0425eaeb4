-- ===== src/Banner.antt =====
-- The text by which the two ends of a transport introduce themselves: `fill_connect_data`,
-- `qual_overwrite` and `parse_banner` of ADBTestCE/adb/adb.cpp, with the `adb_strtok_r` of
-- ADBTestCE/adb/sysdeps_win32.cpp for one separator. A C string is its bytes before the NUL.
pub mod RoundTrip
pub mod Fuel
mod Examples
use adbtest_ce.Prelude.{
  Bytes, Option, String, [], codes, equal, if◌then◌else◌, length, none, some, suc, zero, ℕ, ◌++◌,
  ◌==◌, ◌∷◌,
}
use adbtest_ce.Smart.{split_at}
use adbtest_ce.Transport.{
  Atransport, ConnectionState, cs_bootloader, cs_device, cs_host, cs_recovery, cs_sideload,
}

-- The token at the front of a string that begins with one, and what follows its separator.
unfoldable pub take_token : ℕ → Bytes → Bytes × Bytes
take_token sep [] = ([], [])
take_token sep (c ∷ s) =
    let later = take_token sep s in if c == sep then ([], s) else (c ∷ later.0, later.1)

-- The next token and what `last` points to afterwards, if there is a token.
unfoldable pub adb_strtok_r : ℕ → Bytes → Option (Bytes × Bytes)
adb_strtok_r sep [] = none
adb_strtok_r sep (c ∷ s) =
    let later = adb_strtok_r sep s in if c == sep then later else some (take_token sep (c ∷ s))

-- The new value of `*dst`.
unfoldable pub qual_overwrite : Bytes → Option Bytes
qual_overwrite [] = none
qual_overwrite (c ∷ s) = some (c ∷ s)

-- A property of the banner, `key=value`.
unfoldable pub set_property : Bytes → Bytes → Atransport → Atransport
set_property key value t =
    if equal key (codes "ro.product.name")
    then record t { product = qual_overwrite value }
    else if equal key (codes "ro.product.model")
    then record t { model = qual_overwrite value }
    else if equal key (codes "ro.product.device")
    then record t { device = qual_overwrite value }
    else t

unfoldable pub read_property : Bytes → Atransport → Atransport
read_property token t = elim (split_at b'=' token) [
  | none ↦ t
  | some (key, value) ↦ set_property key value t
]

-- `while (key)`: each token takes at least one byte, so that the length of the text is fuel enough.
unfoldable pub read_properties : ℕ → Bytes → Atransport → Atransport
read_properties zero s t = t
read_properties (suc fuel) s t = elim (adb_strtok_r b';' s) [
  | none ↦ t
  | some (token, rest) ↦ read_properties fuel rest (read_property token t)
]

unfoldable pub banner_state : Bytes → ConnectionState
banner_state type =
    if equal type (codes "bootloader")
    then cs_bootloader
    else if equal type (codes "device")
    then cs_device
    else if equal type (codes "recovery")
    then cs_recovery
    else if equal type (codes "sideload")
    then cs_sideload
    else cs_host

unfoldable pub set_state : Bytes → Atransport → Atransport
set_state type t = record t { connection_state = banner_state type }

unfoldable pub parse_banner : Bytes → Atransport → Atransport
parse_banner banner t = elim (split_at b':' banner) [
  | none ↦ set_state banner t
  | some (type, second) ↦ set_state type (elim (split_at b':' second) [
    | none ↦ t
    | some (skipped, props) ↦ read_properties (length props) props t
  ])
]

-- What a device sends, if it fits the packet; the values are those that `property_get` gives.
unfoldable pub connect_property : String → Bytes → Bytes
connect_property key value = codes key ++ (b'=' ∷ (value ++ b';' ∷ []))

unfoldable pub fill_connect_data : Bytes → Bytes → Bytes → Bytes → Bytes
fill_connect_data adb_device_banner name model device =
    adb_device_banner
    ++ (b':'
        ∷ b':'
        ∷ (connect_property "ro.product.name" name
            ++ (connect_property "ro.product.model" model
                ++ connect_property "ro.product.device" device)))
