-- ===== src/Banner/Fuel.antt =====
-- The fuel of `read_properties`, the loop of `parse_banner` (ADBTestCE/adb/adb.cpp).
use adbtest_ce.Prelude.{
  Bool-cases, Bytes, Option-cases, [], arith, inl, inr, length, length_zero, refl, some, suc, sym,
  zero, ℕ, ◌<◌, ◌==◌, ◌∷◌, ◌≡◌, ◌≤◌,
}
use adbtest_ce.Transport.{Atransport}
use adbtest_ce.Banner.{adb_strtok_r, read_properties, read_property, take_token}

take_token-length : (sep : ℕ) (s : Bytes) → length (take_token sep s).1 ≤ length s
unfolding take_token
take_token-length sep [] = omega arith
take_token-length sep (c ∷ s) = ground (arith, take_token-length sep s)

strtok-length :
    (sep : ℕ) (s tok rest : Bytes) → adb_strtok_r sep s ≡ some (tok, rest) → length rest < length s
unfolding adb_strtok_r take_token
strtok-length sep [] tok rest h = cc
strtok-length sep (c ∷ s) tok rest h = elim (Bool-cases (c == sep)) [
  | inl at ↦
      let later : adb_strtok_r sep s ≡ some (tok, rest) = ground (arith, at, h) in
      omega (arith, strtok-length sep s tok rest later)
  | inr other ↦ ground (arith, h, other, take_token-length sep s)
]

none_left : (n : ℕ) (s : Bytes) (t : Atransport) → s ≡ [] → read_properties n s t ≡ t
unfolding read_properties adb_strtok_r
none_left zero s t e = refl
none_left (suc n) s t e = rw e

-- All fuel from the length of the text on gives the same.
pub read_properties-fuel :
    (n k : ℕ) (s : Bytes) (t : Atransport)
    → length s ≤ n
    → length s ≤ k
    → read_properties n s t ≡ read_properties k s t
unfolding read_properties
read_properties-fuel zero zero s t a b = refl
read_properties-fuel zero (suc k) s t a b =
    sym (none_left (suc k) s t (length_zero s (omega arith)))
read_properties-fuel (suc n) zero s t a b = none_left (suc n) s t (length_zero s (omega arith))
read_properties-fuel (suc n) (suc k) s t a b = elim (Option-cases (adb_strtok_r b';' s)) [
  | inl e ↦ rw (e, read_properties)
  | inr (x, e) ↦
      let lt = strtok-length b';' s x.0 x.1 e in
      rw (e, read_properties)
        (read_properties-fuel n k x.1 (read_property x.0 t) (omega arith) (omega arith))
]
