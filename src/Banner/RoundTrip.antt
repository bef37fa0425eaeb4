-- ===== src/Banner/RoundTrip.antt =====
-- `parse_banner` on what `fill_connect_data` prints (ADBTestCE/adb/adb.cpp).
use adbtest_ce.Prelude.{
  All, Bytes, [], ap, append-nil, append_assoc, arith, codes, equal, length, refl, some, suc, sym,
  zero, ℕ, ◌++◌, ◌-◌, ◌∙◌, ◌∷◌, ◌≡◌, ◌≢◌, ◌≤◌,
}
use adbtest_ce.Transport.{Atransport}
use adbtest_ce.Banner.{
  adb_strtok_r, connect_property, fill_connect_data, parse_banner, qual_overwrite, read_properties,
  read_property, set_property, set_state, take_token,
}
use adbtest_ce.Smart.{split_at}
use adbtest_ce.Smart.Target.{split_at-append}

abbrev pub IsFree : ℕ → Bytes → Type 0
IsFree c = All (λ b. b ≢ c)

take_token-append :
    (sep : ℕ) (x rest : Bytes) → IsFree sep x → take_token sep (x ++ sep ∷ rest) ≡ (x, rest)
unfolding take_token
take_token-append sep [] rest h = ground arith
take_token-append sep (c ∷ x) rest h = ground (arith, take_token-append sep x rest h.1)

-- A token that is not empty.
strtok-append :
    (sep : ℕ) (c : ℕ) (x rest : Bytes)
    → IsFree sep (c ∷ x)
    → adb_strtok_r sep (c ∷ (x ++ sep ∷ rest)) ≡ some (c ∷ x, rest)
unfolding adb_strtok_r
strtok-append sep c x rest h = ground (arith, take_token-append sep (c ∷ x) rest h)

All-append : (c : ℕ) (x y : Bytes) → IsFree c x → IsFree c y → IsFree c (x ++ y)
All-append c [] y h k = k
All-append c (b ∷ x) y h k = (h.0, All-append c x y h.1 k)

-- The text of a property, as a token and its separator.
property_shape :
    (key value rest : Bytes)
    → (key ++ (b'=' ∷ (value ++ b';' ∷ []))) ++ rest ≡ (key ++ (b'=' ∷ value)) ++ (b';' ∷ rest)
property_shape key value rest =
    ap (λ z. z ++ rest) (sym (append_assoc key (b'=' ∷ value) (b';' ∷ [])))
    ∙ append_assoc (key ++ (b'=' ∷ value)) (b';' ∷ []) rest

-- Reading one property off the front.
property_step :
    (fuel : ℕ) (c : ℕ) (key value rest : Bytes) (t : Atransport)
    → IsFree b';' (c ∷ key)
    → IsFree b'=' (c ∷ key)
    → IsFree b';' value
    → read_properties (suc fuel) (((c ∷ key) ++ (b'=' ∷ (value ++ b';' ∷ []))) ++ rest) t
      ≡ read_properties fuel rest (set_property (c ∷ key) value t)
unfolding read_properties read_property
property_step fuel c key value rest t k e v =
    let free : IsFree b';' (c ∷ (key ++ (b'=' ∷ value))) =
      All-append b';' (c ∷ key) (b'=' ∷ value) k (omega arith, v) in
    let token : adb_strtok_r b';' (c ∷ ((key ++ (b'=' ∷ (value ++ b';' ∷ []))) ++ rest))
        ≡ some (c ∷ (key ++ (b'=' ∷ value)), rest) =
      ap (λ z. adb_strtok_r b';' (c ∷ z)) (property_shape key value rest)
      ∙ strtok-append b';' c (key ++ (b'=' ∷ value)) rest free in
    let parts : split_at b'=' (c ∷ (key ++ (b'=' ∷ value))) ≡ some (c ∷ key, value) =
      split_at-append b'=' (c ∷ key) value e in
    rw (read_properties, token, read_property, parts)

-- The properties that the host keeps.
step_name :
    (fuel : ℕ) (value rest : Bytes) (t : Atransport)
    → IsFree b';' value
    → read_properties (suc fuel) (connect_property "ro.product.name" value ++ rest) t
      ≡ read_properties fuel rest (record t { product = qual_overwrite value })
unfolding connect_property set_property equal
step_name fuel value rest t v =
    property_step fuel b'r' (codes "o.product.name") value rest t (ground arith) (ground arith) v

step_model :
    (fuel : ℕ) (value rest : Bytes) (t : Atransport)
    → IsFree b';' value
    → read_properties (suc fuel) (connect_property "ro.product.model" value ++ rest) t
      ≡ read_properties fuel rest (record t { model = qual_overwrite value })
unfolding connect_property set_property equal
step_model fuel value rest t v =
    property_step fuel b'r' (codes "o.product.model") value rest t (ground arith) (ground arith) v

step_device :
    (fuel : ℕ) (value rest : Bytes) (t : Atransport)
    → IsFree b';' value
    → read_properties (suc fuel) (connect_property "ro.product.device" value ++ rest) t
      ≡ read_properties fuel rest (record t { device = qual_overwrite value })
unfolding connect_property set_property equal
step_device fuel value rest t v =
    property_step fuel b'r' (codes "o.product.device") value rest t (ground arith) (ground arith) v

read_no_properties : (fuel : ℕ) (t : Atransport) → read_properties fuel [] t ≡ t
unfolding read_properties adb_strtok_r
read_no_properties zero t = refl
read_no_properties (suc fuel) t = refl

abbrev device_properties : Bytes → Bytes → Bytes → Bytes
device_properties name model device =
    connect_property "ro.product.name" name
    ++ (connect_property "ro.product.model" model ++ connect_property "ro.product.device" device)

abbrev pub introduced : Bytes → Bytes → Bytes → Atransport → Atransport
introduced name model device t = record t {
  product = qual_overwrite name;
  model = qual_overwrite model;
  device = qual_overwrite device;
}

read_device :
    (fuel : ℕ) (name model device : Bytes) (t : Atransport)
    → IsFree b';' name
    → IsFree b';' model
    → IsFree b';' device
    → read_properties (suc (suc (suc fuel))) (device_properties name model device) t
      ≡ introduced name model device t
read_device fuel name model device t n m d =
    let last = connect_property "ro.product.device" device in
    step_name (suc (suc fuel)) name (connect_property "ro.product.model" model ++ last) t n
    ∙ step_model (suc fuel) model last (record t { product = qual_overwrite name }) m
    ∙ ap
        (λ z.
          read_properties (suc fuel) z
            (record t { product = qual_overwrite name; model = qual_overwrite model }))
        (sym (append-nil last))
    ∙ step_device fuel device []
        (record t { product = qual_overwrite name; model = qual_overwrite model }) d
    ∙ read_no_properties fuel (introduced name model device t)

device_properties-length :
    (name model device : Bytes) → 3 ≤ length (device_properties name model device)
unfolding connect_property
device_properties-length name model device = omega arith

read_whole :
    (name model device : Bytes) (t : Atransport)
    → IsFree b';' name
    → IsFree b';' model
    → IsFree b';' device
    → let props = device_properties name model device in
      read_properties (length props) props t ≡ introduced name model device t
read_whole name model device t n m d =
    let props = device_properties name model device in
    let enough = device_properties-length name model device in
    let fuel : length props ≡ suc (suc (suc (length props - 3))) = omega arith in
    ap (λ k. read_properties k props t) fuel
    ∙ read_device (length props - 3) name model device t n m d

-- What `parse_banner` reads of `fill_connect_data`: where the banner has no colon and the properties
-- no semicolon, the host takes over the state that the banner names and the three properties, and
-- nothing else of the transport changes.
pub parse_banner-fill_connect_data :
    (banner name model device : Bytes) (t : Atransport)
    → IsFree b':' banner
    → IsFree b';' name
    → IsFree b';' model
    → IsFree b';' device
    → parse_banner (fill_connect_data banner name model device) t
      ≡ set_state banner (introduced name model device t)
unfolding parse_banner fill_connect_data
parse_banner-fill_connect_data banner name model device t b n m d =
    let props = device_properties name model device in
    let first : split_at b':' (fill_connect_data banner name model device)
        ≡ some (banner, b':' ∷ props) =
      split_at-append b':' banner (b':' ∷ props) b in
    let second : split_at b':' (b':' ∷ props) ≡ some ([], props) =
      split_at-append b':' [] props tt in
    rw (parse_banner, first, second) (ap (set_state banner) (read_whole name model device t n m d))
