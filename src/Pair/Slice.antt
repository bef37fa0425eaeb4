-- ===== src/Pair/Slice.antt =====
-- Parts of the array of `BipBuffer` (ADBTestCE/adb/sysdeps_win32.cpp).
use adbtest_ce.Prelude.{
  Bytes, [], ap, arith, drop, length, refl, suc, take, zero, ℕ, ◌++◌, ◌+◌, ◌<◌, ◌∙◌, ◌∷◌, ◌≡◌, ◌≤◌,
}
use adbtest_ce.Pair.{paste, slice}

pub length-slice : (f : ℕ → ℕ) (at n : ℕ) → length (slice f at n) ≡ n
unfolding slice
length-slice f at zero = refl
length-slice f at (suc n) = ap suc (length-slice f (at + 1) n)

pub suc_add : (m n : ℕ) → suc m + n ≡ suc (m + n)
suc_add m n = omega arith

pub slice-append :
    (f : ℕ → ℕ) (at m n : ℕ) → slice f at (m + n) ≡ slice f at m ++ slice f (at + m) n
unfolding slice
slice-append f at zero n =
    let none_yet : 0 + n ≡ n = omega arith in
    let here : at ≡ at + 0 = omega arith in ap (slice f at) none_yet ∙ ap (λ k. slice f k n) here
slice-append f at (suc m) n =
    let further : at + 1 + m ≡ at + suc m = omega arith in
    ap (slice f at) (suc_add m n)
    ∙ ap (◌∷◌ (f at))
        (slice-append f (at + 1) m n ∙ ap (λ k. slice f (at + 1) m ++ slice f k n) further)

-- What is pasted elsewhere is not seen.
paste_before : (f : ℕ → ℕ) (at : ℕ) (x : Bytes) (q : ℕ) → q < at → paste f at x q ≡ f q
unfolding paste
paste_before f at [] q h = refl
paste_before f at (c ∷ x) q h = ground (arith, paste_before f (at + 1) x q (omega (arith, h)), h)

paste_behind : (f : ℕ → ℕ) (at : ℕ) (x : Bytes) (q : ℕ) → at + length x ≤ q → paste f at x q ≡ f q
unfolding paste
paste_behind f at [] q h = refl
paste_behind f at (c ∷ x) q h = ground (arith, paste_behind f (at + 1) x q (omega (arith, h)), h)

slice_cong :
    (f g : ℕ → ℕ) (at n : ℕ)
    → ((q : ℕ) → at ≤ q → q < at + n → f q ≡ g q)
    → slice f at n ≡ slice g at n
unfolding slice
slice_cong f g at zero h = refl
slice_cong f g at (suc n) h =
    let head = h at (omega arith) (omega arith) in
    let tail = slice_cong f g (at + 1) n λ q m k. h q (omega (arith, m)) (omega (arith, k)) in
    ap (λ c. c ∷ slice f (at + 1) n) head ∙ ap (◌∷◌ (g at)) tail

pub slice-paste_before :
    (f : ℕ → ℕ) (at : ℕ) (x : Bytes) (from n : ℕ)
    → from + n ≤ at
    → slice (paste f at x) from n ≡ slice f from n
slice-paste_before f at x from n h =
    slice_cong (paste f at x) f from n λ q m k. paste_before f at x q (omega (arith, h, k))

pub slice-paste_behind :
    (f : ℕ → ℕ) (at : ℕ) (x : Bytes) (from n : ℕ)
    → at + length x ≤ from
    → slice (paste f at x) from n ≡ slice f from n
slice-paste_behind f at x from n h =
    slice_cong (paste f at x) f from n λ q m k. paste_behind f at x q (omega (arith, h, m))

pub slice-paste : (f : ℕ → ℕ) (at : ℕ) (x : Bytes) → slice (paste f at x) at (length x) ≡ x
unfolding slice paste
slice-paste f at [] = refl
slice-paste f at (c ∷ x) =
    let g = paste f at (c ∷ x) in
    let same : slice g (at + 1) (length x) ≡ slice (paste f (at + 1) x) (at + 1) (length x) =
      slice_cong g (paste f (at + 1) x) (at + 1) (length x) λ q m k. ground (arith, m) in
    let head : g at ≡ c = ground arith in
    ap (λ d. d ∷ slice g (at + 1) (length x)) head ∙ ap (◌∷◌ c) (same ∙ slice-paste f (at + 1) x)

-- The first bytes of a part, and the others.
pub take-slice : (f : ℕ → ℕ) (at m n : ℕ) → take m (slice f at (m + n)) ≡ slice f at m
unfolding slice
take-slice f at zero n = refl
take-slice f at (suc m) n =
    ap (λ k. take (suc m) (slice f at k)) (suc_add m n)
    ∙ ap (◌∷◌ (f at)) (take-slice f (at + 1) m n)

pub drop-slice : (f : ℕ → ℕ) (at m n : ℕ) → drop m (slice f at (m + n)) ≡ slice f (at + m) n
unfolding slice
drop-slice f at zero n =
    let none_yet : 0 + n ≡ n = omega arith in
    let here : at ≡ at + 0 = omega arith in ap (slice f at) none_yet ∙ ap (λ k. slice f k n) here
drop-slice f at (suc m) n =
    let further : at + 1 + m ≡ at + suc m = omega arith in
    ap (λ k. drop (suc m) (slice f at k)) (suc_add m n)
    ∙ drop-slice f (at + 1) m n
    ∙ ap (λ k. slice f k n) further
