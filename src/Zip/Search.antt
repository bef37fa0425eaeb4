-- ===== src/Zip/Search.antt =====
-- The scan for the end of the central directory (`read_central_dir`, ADBTestCE/adb/centraldir.cpp).
use adbtest_ce.Prelude.{
  ==_iff, All, Bool-cases, Bytes, [], ap, arith, if◌then◌else◌, inl, inr, length, refl, suc, sym,
  zero, ℕ, ◌%◌, ◌*◌, ◌+◌, ◌<◌, ◌==◌, ◌^◌, ◌∙◌, ◌∷◌, ◌≡◌, ◌≢◌, ◌≤◌, ◌⊎◌,
}
use adbtest_ce.Zip.{Access, byte, cd_signature, find_eocd, ok, overrun, read_le_int, refused}

abbrev pub AreBytes : Bytes → Type 0
AreBytes = All (λ c. c < 256)

-- Inside the archive each read gives a byte.
byte_inside :
    (buf : Bytes) (at : ℕ)
    → AreBytes buf
    → at < length buf
    → (c : ℕ) × (byte buf at ≡ ok c) × (c < 256)
unfolding byte
byte_inside [] at bs h = absurd (omega arith)
byte_inside (x ∷ buf) zero bs h = (x, refl, bs.0)
byte_inside (x ∷ buf) (suc at) bs h = byte_inside buf at bs.1 (omega arith)

-- A word inside the archive, with its lowest byte.
word_inside :
    (buf : Bytes) (at : ℕ)
    → AreBytes buf
    → at + 3 < length buf
    → (c : ℕ) × (w : ℕ) × (byte buf at ≡ ok c) × (read_le_int buf at ≡ ok w) × (w % 256 ≡ c)
unfolding read_le_int
word_inside buf at bs h =
    let (a, ea, la) = byte_inside buf at bs (omega arith) in
    let (b, eb, lb) = byte_inside buf (at + 1) bs (omega arith) in
    let (c, ec, lc) = byte_inside buf (at + 2) bs (omega arith) in
    let (d, ed, ld) = byte_inside buf (at + 3) bs (omega arith) in
    (a, a + b * 2 ^ 8 + c * 2 ^ 16 + d * 2 ^ 24, ea, rw (ea, eb, ec, ed) refl, omega arith)

-- A place, of the `n` from `start` on, of the last signature there; or no place, and there is none.
abbrev pub IsLast : Bytes → ℕ → ℕ → Access ℕ → Type 0
IsLast buf start n (ok p) =
    (start ≤ p)
    × (p < start + n)
    × (read_le_int buf p ≡ ok cd_signature)
    × ((q : ℕ) → p < q → q < start + n → read_le_int buf q ≢ ok cd_signature)
IsLast buf start n refused =
    (q : ℕ) → start ≤ q → q < start + n → read_le_int buf q ≢ ok cd_signature
IsLast buf start n overrun = ⊥

lt_suc_cases : (q m : ℕ) → q < suc m → (q ≡ m) ⊎ (q < m)
lt_suc_cases q m h = ground arith

-- One place more at the end, which is no signature.
IsLast-suc :
    (buf : Bytes) (start n : ℕ) (r : Access ℕ)
    → read_le_int buf (start + n) ≢ ok cd_signature
    → IsLast buf start n r
    → IsLast buf start (suc n) r
IsLast-suc buf start n (ok p) miss (a, b, c, d) = (
  a,
  omega arith,
  c,
  λ q lt le. elim (lt_suc_cases q (start + n) (omega arith)) [
    | inl e ↦ rw e miss
    | inr l ↦ d q lt l
  ],
)
IsLast-suc buf start n refused miss h = λ q lt le. elim (lt_suc_cases q (start + n) (omega arith)) [
  | inl e ↦ rw e miss
  | inr l ↦ h q lt l
]
IsLast-suc buf start n overrun miss h = h

ok_injective : (a b : ℕ) → ok a ≡ ok b → a ≡ b
ok_injective a b e = cc

-- One turn of the scan.
find_eocd_turn :
    (buf : Bytes) (start n c w : ℕ)
    → byte buf (start + n) ≡ ok c
    → read_le_int buf (start + n) ≡ ok w
    → w % 256 ≡ c
    → find_eocd buf start (suc n)
      ≡ (if w == cd_signature then ok (start + n) else find_eocd buf start n)
unfolding find_eocd
find_eocd_turn buf start n c w eb ew low = ground arith

-- Where all places lie in the archive, the scan reads nothing outside, and gives the last place that
-- has the signature, or none if no place has it.
pub find_eocd-IsLast :
    (buf : Bytes) (start n : ℕ)
    → AreBytes buf
    → start + n + 3 ≤ length buf
    → IsLast buf start n (find_eocd buf start n)
find_eocd-IsLast buf start zero bs h = unfold find_eocd in λ q a b. absurd (omega arith)
find_eocd-IsLast buf start (suc n) bs h =
    let (c, w, eb, ew, low) = word_inside buf (start + n) bs (omega arith) in
    let rest = find_eocd-IsLast buf start n bs (omega arith) in
    rw (find_eocd_turn buf start n c w eb ew low) (elim (Bool-cases (w == cd_signature)) [
      | inl hit ↦ rw hit (
        omega arith,
        omega arith,
        ew ∙ ap ok ((==_iff w cd_signature).0 hit),
        λ q lt le. absurd (omega arith),
      )
      | inr other ↦ rw other (
          IsLast-suc buf start n (find_eocd buf start n)
            (λ e. ground (arith, ok_injective w cd_signature (sym ew ∙ e))) rest)
    ])
