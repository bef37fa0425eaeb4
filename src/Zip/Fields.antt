-- ===== src/Zip/Fields.antt =====
-- Reading the words of an archive (`read_le_short` and `read_le_int`, ADBTestCE/adb/centraldir.cpp).
use adbtest_ce.Prelude.{
  Bytes, [], ap, arith, drop, get_elem?, none, refl, some, suc, sym, zero, ℕ, ◌+◌, ◌∙◌, ◌∷◌, ◌≡◌,
}
use adbtest_ce.Zip.{byte, ok, overrun, read_le_int, read_le_short}

shift : (p k : ℕ) → suc (p + k) ≡ suc p + k
shift p k = omega arith

get_elem?-drop : (p k : ℕ) (buf : Bytes) → get_elem? (drop p buf) k ≡ get_elem? buf (p + k)
get_elem?-drop zero k buf = ap (get_elem? buf) (omega arith)
get_elem?-drop (suc p) k [] = refl
get_elem?-drop (suc p) k (c ∷ buf) = get_elem?-drop p k buf ∙ ap (get_elem? (c ∷ buf)) (shift p k)

pub byte-drop : (buf : Bytes) (p k : ℕ) → byte buf (p + k) ≡ byte (drop p buf) k
unfolding byte
byte-drop buf p k =
    ap (λ o. elim o [ none ↦ overrun | some c ↦ ok c ]) (sym (get_elem?-drop p k buf))

pub byte-drop_at : (buf : Bytes) (p k at : ℕ) → at ≡ p + k → byte buf at ≡ byte (drop p buf) k
byte-drop_at buf p k at e = rw e (byte-drop buf p k)

-- A word at an offset is the word of the archive from there on.
pub read_le_short-drop :
    (buf : Bytes) (p k : ℕ) → read_le_short buf (p + k) ≡ read_le_short (drop p buf) k
unfolding read_le_short
read_le_short-drop buf p k =
    rw (byte-drop buf p k, byte-drop_at buf p (k + 1) (p + k + 1) (omega arith))

pub read_le_int-drop :
    (buf : Bytes) (p k : ℕ) → read_le_int buf (p + k) ≡ read_le_int (drop p buf) k
unfolding read_le_int
read_le_int-drop buf p k = rw (
  byte-drop buf p k,
  byte-drop_at buf p (k + 1) (p + k + 1) (omega arith),
  byte-drop_at buf p (k + 2) (p + k + 2) (omega arith),
  byte-drop_at buf p (k + 3) (p + k + 3) (omega arith),
)
