-- ===== src/Prelude/Lists.antt =====
-- Lists measured and indexed by native numbers, byte strings and C strings.
use Prim.Native.Nat.{ℕ, zero, suc, ◌+◌, ◌-◌, ◌≤◌, ◌%◌, ◌/◌, ◌^◌, ◌*◌, ◌<◌, min}
use Prim.Native.Char.{code}
use Prim.Native.String.{String}
use mathlib.Core.Path.{◌≡◌, refl, ap, subst, sym, ◌∙◌}
use mathlib.Core.Bool.{Bool, true, false, ◌&&◌}
use mathlib.Core.List.{List, [], ◌∷◌, ◌++◌}
use mathlib.Core.Option.{Option, none, some}
use native.Mathlib.Omega.{arith}
use adbtest_ce.Prelude.Tests.{if◌then◌else◌, ◌==◌}

-- A run of bytes, each a number below 256.
abbrev pub Bytes : Type 0
Bytes = List ℕ

-- The code points of an ASCII literal.
abbrev pub codes : String → Bytes
codes String.[] = []
codes (String.◌∷◌ c s) = code c ∷ codes s

abbrev pub All {ℓ κ} : {A : Type ℓ} → (A → Type κ) → List A → Type κ
All P [] = Unit
All P (x ∷ xs) = P x × All P xs

abbrev pub concat {ℓ} : {A : Type ℓ} → List (List A) → List A
concat [] = []
concat (x ∷ xs) = x ++ concat xs

module _ {ℓ} {A : Type ℓ} where
  abbrev pub length : List A → ℕ
  length [] = 0
  length (x ∷ xs) = suc (length xs)

  abbrev pub get_elem? : List A → ℕ → Option A
  get_elem? [] i = none
  get_elem? (x ∷ xs) zero = some x
  get_elem? (x ∷ xs) (suc i) = get_elem? xs i

  abbrev pub set : List A → ℕ → A → List A
  set [] i v = []
  set (x ∷ xs) zero v = v ∷ xs
  set (x ∷ xs) (suc i) v = x ∷ set xs i v

  abbrev pub take : ℕ → List A → List A
  take zero xs = []
  take (suc n) [] = []
  take (suc n) (x ∷ xs) = x ∷ take n xs

  abbrev pub drop : ℕ → List A → List A
  drop zero xs = xs
  drop (suc n) [] = []
  drop (suc n) (x ∷ xs) = drop n xs

  pub length-append : (xs ys : List A) → length (xs ++ ys) ≡ length xs + length ys
  length-append [] ys = omega arith
  length-append (x ∷ xs) ys = omega (arith, length-append xs ys)

  pub take-append-drop : (n : ℕ) (xs : List A) → take n xs ++ drop n xs ≡ xs
  take-append-drop zero xs = refl
  take-append-drop (suc n) [] = refl
  take-append-drop (suc n) (x ∷ xs) = ap (◌∷◌ x) (take-append-drop n xs)

  pub length-take : (n : ℕ) (xs : List A) → length (take n xs) ≡ min n (length xs)
  length-take zero xs = omega arith
  length-take (suc n) [] = omega arith
  length-take (suc n) (x ∷ xs) = omega (arith, length-take n xs)

  pub length-drop : (n : ℕ) (xs : List A) → length (drop n xs) ≡ length xs - n
  length-drop zero xs = omega arith
  length-drop (suc n) [] = omega arith
  length-drop (suc n) (x ∷ xs) = omega (arith, length-drop n xs)

  pub length-set : (xs : List A) (i : ℕ) (v : A) → length (set xs i v) ≡ length xs
  length-set [] i v = refl
  length-set (x ∷ xs) zero v = refl
  length-set (x ∷ xs) (suc i) v = ap suc (length-set xs i v)

  -- A prefix of the right length is what `take` and `drop` split off.
  pub take-append : (xs ys : List A) → take (length xs) (xs ++ ys) ≡ xs
  take-append [] ys = refl
  take-append (x ∷ xs) ys = ap (◌∷◌ x) (take-append xs ys)

  pub drop-append : (xs ys : List A) → drop (length xs) (xs ++ ys) ≡ ys
  drop-append [] ys = refl
  drop-append (x ∷ xs) ys = drop-append xs ys

module _ {ℓ} {A : Type ℓ} where
  pub take_of_length : {n : ℕ} (xs ys : List A) → length xs ≡ n → take n (xs ++ ys) ≡ xs
  take_of_length xs ys e = subst (λ k. take k (xs ++ ys) ≡ xs) e (take-append xs ys)

  pub drop_of_length : {n : ℕ} (xs ys : List A) → length xs ≡ n → drop n (xs ++ ys) ≡ ys
  drop_of_length xs ys e = subst (λ k. drop k (xs ++ ys) ≡ ys) e (drop-append xs ys)

  pub take_append_of_le : (n : ℕ) (xs ys : List A) → n ≤ length xs → take n (xs ++ ys) ≡ take n xs
  take_append_of_le zero xs ys h = refl
  take_append_of_le (suc n) [] ys h = absurd (omega arith)
  take_append_of_le (suc n) (x ∷ xs) ys h = ap (◌∷◌ x) (take_append_of_le n xs ys (omega arith))

  pub length_zero : (xs : List A) → length xs ≡ 0 → xs ≡ []
  length_zero [] h = refl
  length_zero (x ∷ xs) h = absurd (omega arith)

  pub take-take : (n m : ℕ) (xs : List A) → n ≤ m → take n (take m xs) ≡ take n xs
  take-take zero m xs h = refl
  take-take (suc n) zero xs h = absurd (omega arith)
  take-take (suc n) (suc m) [] h = refl
  take-take (suc n) (suc m) (x ∷ xs) h = ap (◌∷◌ x) (take-take n m xs (omega arith))

  pub take_of_le : (n : ℕ) (xs : List A) → length xs ≤ n → take n xs ≡ xs
  take_of_le zero [] h = refl
  take_of_le zero (x ∷ xs) h = absurd (omega arith)
  take_of_le (suc n) [] h = refl
  take_of_le (suc n) (x ∷ xs) h = ap (◌∷◌ x) (take_of_le n xs (omega arith))

-- `memcmp` and `strcmp` on whole byte strings.
unfoldable pub equal : Bytes → Bytes → Bool
equal [] [] = true
equal (x ∷ xs) (y ∷ ys) = x == y && equal xs ys
equal _ _ = false

-- `strncmp(s, prefix, strlen(prefix)) == 0`: what follows the prefix, if it is one.
unfoldable pub after_prefix : Bytes → Bytes → Option Bytes
after_prefix [] s = some s
after_prefix (p ∷ ps) [] = none
after_prefix (p ∷ ps) (c ∷ s) = let rest = after_prefix ps s in if p == c then rest else none

succ_add : (n m : ℕ) → suc n + m ≡ suc (n + m)
succ_add n m = omega arith

module _ {ℓ} {A : Type ℓ} where
  pub drop-nil : (n : ℕ) → drop {A = A} n [] ≡ []
  drop-nil zero = refl
  drop-nil (suc n) = refl

  pub drop-add : (n m : ℕ) (xs : List A) → drop (n + m) xs ≡ drop m (drop n xs)
  drop-add zero m xs = ap (λ k. drop k xs) (omega arith)
  drop-add (suc n) m [] = ap (λ k. drop k []) (succ_add n m) ∙ sym (drop-nil m)
  drop-add (suc n) m (x ∷ xs) = ap (λ k. drop k (x ∷ xs)) (succ_add n m) ∙ drop-add n m xs

-- Words of 16 and 32 bits, the lowest byte first.
abbrev pub le16 : ℕ → Bytes
le16 x = x % 256 ∷ x / 256 % 256 ∷ []

abbrev pub le32 : ℕ → Bytes
le32 x = x % 256 ∷ x / 2 ^ 8 % 256 ∷ x / 2 ^ 16 % 256 ∷ x / 2 ^ 24 % 256 ∷ []

pub word16 : (x : ℕ) → x < 65536 → x % 256 + x / 256 % 256 * 2 ^ 8 ≡ x
word16 x h = omega arith

pub word32 :
    (x : ℕ)
    → x < 2 ^ 32
    → x % 256 + x / 2 ^ 8 % 256 * 2 ^ 8 + x / 2 ^ 16 % 256 * 2 ^ 16 + x / 2 ^ 24 % 256 * 2 ^ 24 ≡ x
word32 x h = omega arith
