-- ===== src/Zip/Lookup.antt =====
-- `lookup_zipentry` (ADBTestCE/adb/zipfile.cpp), which compares as many bytes as the entry's name has.
use adbtest_ce.Prelude.{
  All, Bool, Bool-cases, Bytes, List, Option, [], arith, false, if◌then◌else◌, inl, inr, none, refl,
  reverse, some, subst, suc, true, zero, ℕ, ◌&&◌, ◌++◌, ◌+◌, ◌==◌, ◌∷◌, ◌≡◌, ◌≢◌,
}
use adbtest_ce.Zip.Archive.{Member}
use adbtest_ce.Zip.{
  Access, Zipentry, Zipfile, byte, copy_bytes, get_zipentry_name, init_zipfile, lookup_in,
  lookup_zipentry, name_matches, ok, overrun, refused, same_bytes, ◌>>=◌,
}
use adbtest_ce.Zip.Contents.{Describes, Pairwise, init_zipfile-archive}
use adbtest_ce.Zip.Whole.{IsArchive}

abbrev pub is_prefix : Bytes → Bytes → Bool
is_prefix [] y = true
is_prefix (c ∷ x) [] = false
is_prefix (c ∷ x) (d ∷ y) = d == c && is_prefix x y

-- The first of the members whose name begins the one that is looked for.
abbrev pub first_prefix : Bytes → List Member → Option Member
first_prefix name [] = none
first_prefix name (m ∷ ms) = if is_prefix m.name name then some m else first_prefix name ms

abbrev pub HasNoNul : Bytes → Type 0
HasNoNul = All (λ c. c ≢ 0)

abbrev pub Both {ℓ κ} : {A : Type ℓ} {B : Type κ} → (A → B → Type 0) → Option A → Option B → Type 0
Both P none none = Unit
Both P (some x) (some y) = P x y
Both P x y = ⊥

not_equal : (c : ℕ) → c ≢ 0 → (0 == c) ≡ false
not_equal c h = ground arith

bind_inversion :
    (a : Access ℕ) (b : Access Bytes) (x : Bytes)
    → (a >>= λ c. b >>= λ y. ok (c ∷ y)) ≡ ok x
    → (c : ℕ) × (y : Bytes) × (a ≡ ok c) × (b ≡ ok y) × (x ≡ c ∷ y)
bind_inversion (ok c) (ok y) x e = (c, y, refl, refl, ground arith)
bind_inversion (ok c) refused x e = cc
bind_inversion (ok c) overrun x e = cc
bind_inversion refused b x e = cc
bind_inversion overrun b x e = cc

-- The comparison with a name that can be copied reads nothing outside, and never past the text's end.
same_bytes-copy_bytes :
    (n : ℕ) (name buf : Bytes) (at : ℕ) (x : Bytes)
    → HasNoNul x
    → copy_bytes buf at n ≡ ok x
    → same_bytes (name ++ 0 ∷ []) buf at n ≡ ok (is_prefix x name)
unfolding same_bytes copy_bytes
same_bytes-copy_bytes zero [] buf at x h e = ground arith
same_bytes-copy_bytes zero (d ∷ name) buf at x h e = ground arith
same_bytes-copy_bytes (suc n) [] buf at x h e =
    let (c, y, eb, ec, ex) = bind_inversion (byte buf at) (copy_bytes buf (at + 1) n) x e in
    let other : (0 == c) ≡ false = not_equal c (subst HasNoNul ex h).0 in rw (ex, eb) (ground arith)
same_bytes-copy_bytes (suc n) (d ∷ name) buf at x h e =
    let (c, y, eb, ec, ex) = bind_inversion (byte buf at) (copy_bytes buf (at + 1) n) x e in
    let ih = same_bytes-copy_bytes n name buf (at + 1) y (subst HasNoNul ex h).1 ec in
    rw (ex, eb) (ground arith)

-- The null pointer stands for a name with no bytes.
pointer_matches :
    (q : Option ℕ) (n : ℕ) (name buf x : Bytes)
    → HasNoNul x
    → (elim q [ none ↦ ok [] | some at ↦ copy_bytes buf at n ]) ≡ ok x
    → (elim q [
      | none ↦ same_bytes (name ++ 0 ∷ []) buf 0 0
      | some at ↦ same_bytes (name ++ 0 ∷ []) buf at n
    ])
      ≡ ok (is_prefix x name)
pointer_matches none n name buf x h e =
    same_bytes-copy_bytes 0 name buf 0 x h (unfold copy_bytes in e)
pointer_matches (some at) n name buf x h e = same_bytes-copy_bytes n name buf at x h e

name_matches-is_prefix :
    (name : Bytes) (file : Zipfile) (e : Zipentry) (m : Member)
    → HasNoNul m.name
    → Describes file e m
    → name_matches (name ++ 0 ∷ []) file.buf e ≡ ok (is_prefix m.name name)
unfolding name_matches get_zipentry_name
name_matches-is_prefix name file e m h d =
    pointer_matches e.file_name e.file_name_length name file.buf m.name h d.named

-- The search gives the first entry of the list whose member's name begins the one looked for.
lookup_in-first_prefix :
    (name : Bytes) (file : Zipfile) (es : List Zipentry) (ms : List Member)
    → All (λ m. HasNoNul m.name) ms
    → Pairwise (Describes file) es ms
    → (found : Option Zipentry) × (lookup_in (name ++ 0 ∷ []) file.buf es ≡ ok found)
      × Both (Describes file) found (first_prefix name ms)
unfolding lookup_in
lookup_in-first_prefix name file [] [] h d = (none, refl, tt)
lookup_in-first_prefix name file [] (m ∷ ms) h d = absurd d
lookup_in-first_prefix name file (e ∷ es) [] h d = absurd d
lookup_in-first_prefix name file (e ∷ es) (m ∷ ms) h d =
    let (found, ef, bf) = lookup_in-first_prefix name file es ms h.1 d.1 in
    let here = name_matches-is_prefix name file e m h.0 d.0 in
    elim (Bool-cases (is_prefix m.name name)) [
      | inl yes_prefix ↦ (some e, rw (here, yes_prefix) refl, rw yes_prefix d.0)
      | inr no_prefix ↦ (found, rw (here, no_prefix) ef, rw no_prefix bf)
    ]

-- In an archive of the format whose members' names have no NUL, a search reads nothing outside the
-- archive. It gives the last member whose name begins the text that is looked for, the whole text or a
-- part of it, and the null pointer where there is no such member.
pub lookup_zipentry-archive :
    (buf : Bytes) (ms : List Member) (remark : Bytes) (name : Bytes)
    → IsArchive buf ms remark
    → All (λ m. HasNoNul m.name) (reverse ms)
    → (file : Zipfile) × (init_zipfile buf ≡ ok file)
      × (found : Option Zipentry) × (lookup_zipentry file name ≡ ok found)
      × Both (Describes file) found (first_prefix name (reverse ms))
unfolding lookup_zipentry
lookup_zipentry-archive buf ms remark name a h =
    let (file, opened, e, d) = init_zipfile-archive buf ms remark a in
    let (found, ef, bf) = lookup_in-first_prefix name file file.entries (reverse ms) h d in
    (file, opened, found, ef, bf)
