-- ===== src/Zip/Overrun.antt =====
-- The bound of the entries' reader (`read_central_directory_entry`, ADBTestCE/adb/centraldir.cpp),
-- whose `*len` stays that of the whole directory.
use adbtest_ce.Prelude.{
  Bool, Bytes, List, [], ap, arith, false, get_elem?, length, none, refl, some, suc, true, zero, ℕ,
  ◌+◌, ◌∷◌, ◌≡◌, ◌≤◌,
}
use adbtest_ce.Zip.{
  Access, Zipentry, byte, entry_len, ok, overrun, read_central_directory_entry, read_entries,
  read_le_int, refuse_if, word_below, ◌>>◌,
}

get_elem?_outside : (buf : Bytes) (at : ℕ) → length buf ≤ at → get_elem? buf at ≡ none
get_elem?_outside [] at h = refl
get_elem?_outside (c ∷ buf) zero h = absurd (omega arith)
get_elem?_outside (c ∷ buf) (suc at) h = get_elem?_outside buf at (omega arith)

byte_outside : (buf : Bytes) (at : ℕ) → length buf ≤ at → byte buf at ≡ overrun
unfolding byte
byte_outside buf at h =
    ap (λ o. elim o [ none ↦ overrun | some c ↦ ok c ]) (get_elem?_outside buf at h)

int_outside : (buf : Bytes) (at : ℕ) → length buf ≤ at → read_le_int buf at ≡ overrun
unfolding read_le_int
int_outside buf at h = rw (byte_outside buf at h)

refuse_if-eq-ok :
    (b : Bool) {A : Type 0} (k : Access A) (x : A) → (refuse_if b >> k) ≡ ok x → b ≡ false
refuse_if-eq-ok true k x e = cc
refuse_if-eq-ok false k x e = refl

-- An entry was read, so the test of the length did not refuse it.
entry_long :
    (buf : Bytes) (p len : ℕ) (x : Zipentry × ℕ)
    → read_central_directory_entry buf p len ≡ ok x
    → word_below len entry_len ≡ false
unfolding read_central_directory_entry
entry_long buf p len x e = refuse_if-eq-ok (word_below len entry_len) _ x e

entry_outside :
    (buf : Bytes) (p len : ℕ)
    → word_below len entry_len ≡ false
    → length buf ≤ p
    → read_central_directory_entry buf p len ≡ overrun
unfolding read_central_directory_entry
entry_outside buf p len long h = rw (long, int_outside buf (p + 0x00) (omega arith))

-- An entry whose lengths reach to the archive's end or beyond it, and another one is to come: the next
-- entry passes the test of the length, and the reader reads behind the end of the archive.
pub read_entries-overrun :
    (buf : Bytes) (len n p : ℕ) (es : List Zipentry) (entry : Zipentry) (next : ℕ)
    → read_central_directory_entry buf p len ≡ ok (entry, next)
    → length buf ≤ next
    → read_entries buf len (suc (suc n)) p es ≡ overrun
unfolding read_entries
read_entries-overrun buf len n p es entry next e h =
    rw (e, entry_outside buf next len (entry_long buf p len (entry, next) e) h)
