-- ===== src/Zip/Directory.antt =====
-- The entries of the central directory (`read_central_directory_entry` and the loop of
-- `read_central_dir`, ADBTestCE/adb/centraldir.cpp) against the format.
use adbtest_ce.Prelude.{
  All, Bytes, List, [], ap, append_assoc, arith, drop, drop-add, drop-append, false, if◌then◌else◌,
  length, length-append, length-drop, none, refl, reverse, reverse-append, some, sym, word16,
  word32, ℕ, ◌%◌, ◌++◌, ◌+◌, ◌<◌, ◌==◌, ◌^◌, ◌∙◌, ◌∷◌, ◌≡◌, ◌≤◌,
}
use adbtest_ce.Zip.Archive.{Fits, Holds, Member, central_header, directory, local_header}
use adbtest_ce.Zip.Fields.{read_le_int-drop, read_le_short-drop}
use adbtest_ce.Zip.{
  Zipentry, entry_len, entry_signature, lfh_size, ok, read_central_directory_entry, read_entries,
  read_le_int, read_le_short, word_below,
}

-- A word of a part of the archive that is known.
pub short_at :
    (buf : Bytes) (p k : ℕ) {part : Bytes} {v : ℕ}
    → drop p buf ≡ part
    → read_le_short part k ≡ ok v
    → read_le_short buf (p + k) ≡ ok v
short_at buf p k e r = read_le_short-drop buf p k ∙ ap (λ z. read_le_short z k) e ∙ r

pub int_at :
    (buf : Bytes) (p k : ℕ) {part : Bytes} {v : ℕ}
    → drop p buf ≡ part
    → read_le_int part k ≡ ok v
    → read_le_int buf (p + k) ≡ ok v
int_at buf p k e r = read_le_int-drop buf p k ∙ ap (λ z. read_le_int z k) e ∙ r

module _ (m : Member) (rest : Bytes) (fits : Fits m) where
  method_word : read_le_short (central_header m ++ rest) 0x0a ≡ ok m.method
  unfolding read_le_short central_header
  method_word = ap ok (word16 m.method fits.method_fits)

  content_word : read_le_int (central_header m ++ rest) 0x14 ≡ ok (length m.content)
  unfolding read_le_int central_header
  content_word = ap ok (word32 (length m.content) fits.content_fits)

  unpacked_word : read_le_int (central_header m ++ rest) 0x18 ≡ ok m.unpacked_size
  unfolding read_le_int central_header
  unpacked_word = ap ok (word32 m.unpacked_size fits.unpacked_fits)

  name_word : read_le_short (central_header m ++ rest) 0x1c ≡ ok (length m.name)
  unfolding read_le_short central_header
  name_word = ap ok (word16 (length m.name) fits.name_fits)

  extra_word : read_le_short (central_header m ++ rest) 0x1e ≡ ok (length m.extra)
  unfolding read_le_short central_header
  extra_word = ap ok (word16 (length m.extra) fits.extra_fits)

  remark_word : read_le_short (central_header m ++ rest) 0x20 ≡ ok (length m.remark)
  unfolding read_le_short central_header
  remark_word = ap ok (word16 (length m.remark) fits.remark_fits)

  offset_word : read_le_int (central_header m ++ rest) 0x2a ≡ ok m.local_offset
  unfolding read_le_int central_header
  offset_word = ap ok (word32 m.local_offset fits.offset_fits)

  signature_word : read_le_int (central_header m ++ rest) 0x00 ≡ ok entry_signature
  unfolding read_le_int central_header
  signature_word = refl

  local_word : read_le_short (local_header m ++ rest) 0x1c ≡ ok (length m.local_extra)
  unfolding read_le_short local_header
  local_word = ap ok (word16 (length m.local_extra) fits.local_extra_fits)

abbrev pub central_length : Member → ℕ
central_length m = 46 + length m.name + length m.extra + length m.remark

pub length-central_header : (m : Member) → length (central_header m) ≡ central_length m
unfolding central_header
length-central_header m =
    omega (arith, length-append m.name (m.extra ++ m.remark), length-append m.extra m.remark)

abbrev pub local_length : Member → ℕ
local_length m = 30 + length m.name + length m.local_extra

pub length-local_header : (m : Member) → length (local_header m) ≡ local_length m
unfolding local_header
length-local_header m = omega (arith, length-append m.name m.local_extra)

-- The entry that the reader makes of a member whose central header stands at `p`.
abbrev pub entry_of : ℕ → Member → Zipentry
entry_of p m = record {
  file_name_length = length m.name;
  file_name = if length m.name == 0 then none else some (p + entry_len);
  compression_method = m.method;
  uncompressed_size = m.unpacked_size;
  compressed_size = length m.content;
  data_at = m.local_offset + lfh_size + length m.name + length m.local_extra;
}

-- A member's header, name and content lie in the archive.
pub Holds-length :
    (buf : Bytes) (m : Member)
    → Holds buf m
    → m.local_offset + local_length m + length m.content ≤ length buf
Holds-length buf m (rest, e) = omega (
  arith,
  ap length e,
  length-drop m.local_offset buf,
  length-append (local_header m) (m.content ++ rest),
  length-append m.content rest,
  length-local_header m,
)

local_field :
    (buf : Bytes) (m : Member)
    → Fits m
    → Holds buf m
    → length buf < 2 ^ 31
    → read_le_short buf ((m.local_offset + 0x1c) % 2 ^ 32) ≡ ok (length m.local_extra)
local_field buf m fits holds small =
    let inside : (m.local_offset + 0x1c) % 2 ^ 32 ≡ m.local_offset + 0x1c =
      omega (arith, Holds-length buf m holds) in
    ap (read_le_short buf) inside
    ∙ short_at buf m.local_offset 0x1c (holds.1) (local_word m (m.content ++ holds.0) fits)

-- The reader makes the member's entry of its header, and goes on after it.
pub entry_lem :
    (buf : Bytes) (len p : ℕ) (m : Member) (rest : Bytes)
    → word_below len entry_len ≡ false
    → length buf < 2 ^ 31
    → Fits m
    → Holds buf m
    → drop p buf ≡ central_header m ++ rest
    → read_central_directory_entry buf p len ≡ ok (entry_of p m, p + length (central_header m))
unfolding read_central_directory_entry
entry_lem buf len p m rest long small fits holds e =
    let inside : (m.local_offset + lfh_size + length m.name + length m.local_extra) % 2 ^ 32
        ≡ m.local_offset + lfh_size + length m.name + length m.local_extra =
      omega (arith, Holds-length buf m holds) in
    rw
      (
        long,
        int_at buf p 0x00 e (signature_word m rest fits),
        short_at buf p 0x0a e (method_word m rest fits),
        int_at buf p 0x14 e (content_word m rest fits),
        int_at buf p 0x18 e (unpacked_word m rest fits),
        short_at buf p 0x1c e (name_word m rest fits),
        short_at buf p 0x1e e (extra_word m rest fits),
        short_at buf p 0x20 e (remark_word m rest fits),
        int_at buf p 0x2a e (offset_word m rest fits),
        local_field buf m fits holds small,
        inside,
        length-central_header m,
      )
      (ap (λ n. ok (entry_of p m, n)) (omega arith))

-- The entries of members whose headers follow each other from `p` on.
unfoldable pub entries_at : ℕ → List Member → List Zipentry
entries_at p [] = []
entries_at p (m ∷ ms) = entry_of p m ∷ entries_at (p + length (central_header m)) ms

-- What follows a header.
pub after_header :
    (buf : Bytes) (p : ℕ) (m : Member) (rest : Bytes)
    → drop p buf ≡ central_header m ++ rest
    → drop (p + length (central_header m)) buf ≡ rest
after_header buf p m rest e =
    drop-add p (length (central_header m)) buf
    ∙ ap (drop (length (central_header m))) e
    ∙ drop-append (central_header m) rest

-- The loop puts the entries into its list, the last one first.
pub read_entries-directory :
    (buf : Bytes) (len p : ℕ) (ms : List Member) (es : List Zipentry) (rest : Bytes)
    → (0 < length ms → word_below len entry_len ≡ false)
    → length buf < 2 ^ 31
    → All Fits ms
    → All (Holds buf) ms
    → drop p buf ≡ directory ms ++ rest
    → read_entries buf len (length ms) p es ≡ ok (reverse (entries_at p ms) ++ es)
unfolding read_entries directory entries_at
read_entries-directory buf len p [] es rest long small fits holds e = refl
read_entries-directory buf len p (m ∷ ms) es rest long small fits holds e =
    let here : drop p buf ≡ central_header m ++ (directory ms ++ rest) =
      e ∙ append_assoc (central_header m) (directory ms) rest in
    let next = p + length (central_header m) in
    let there : drop next buf ≡ directory ms ++ rest =
      after_header buf p m (directory ms ++ rest) here in
    rw (entry_lem buf len p m (directory ms ++ rest) (long (omega arith)) small fits.0 holds.0 here)
      (read_entries-directory buf len next ms (entry_of p m ∷ es) rest (λ _. long (omega arith))
          small fits.1 holds.1 there
        ∙ ap ok (
            sym (append_assoc (reverse (entries_at next ms)) (entry_of p m ∷ []) es)
            ∙ ap (λ l. l ++ es) (sym (reverse-append (entry_of p m ∷ []) (entries_at next ms)))))
