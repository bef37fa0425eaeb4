-- ===== src/Zip.antt =====
-- The reader of zip archives, which looks into a package before it is pushed: ADBTestCE/adb/private.h,
-- ADBTestCE/adb/centraldir.cpp and ADBTestCE/adb/zipfile.cpp. A pointer into the archive is its offset
-- from `file->buf`; addresses have 32 bits. A read outside the archive gives `overrun`, and the
-- return value -1 gives `refused`.
pub mod Archive
pub mod Fields
pub mod Directory
pub mod Search
pub mod EndRecord
pub mod Whole
pub mod Contents
pub mod Lookup
pub mod Overrun
mod Examples
use adbtest_ce.Prelude.{
  Bool, Bytes, List, Option, [], false, get_elem?, if◌then◌else◌, leb, length, ltb, none, not, some,
  suc, true, zero, ℕ, ◌%◌, ◌&&◌, ◌*◌, ◌++◌, ◌+◌, ◌-◌, ◌==◌, ◌^◌, ◌||◌, ◌∷◌,
}

pub data Access {ℓ} (A : Type ℓ) : Type ℓ where
  ok : A → Access A
  refused : Access A
  overrun : Access A

infixl 5 ◌>>=◌ ◌>>◌
abbrev pub ◌>>=◌ {ℓ κ} : {A : Type ℓ} {B : Type κ} → Access A → (A → Access B) → Access B
ok a >>= f = f a
refused >>= f = refused
overrun >>= f = overrun

abbrev pub ◌>>◌ {ℓ} : {B : Type ℓ} → Access (Unit {0}) → Access B → Access B
m >> k = m >>= λ _. k

-- `if (test) goto bail`.
abbrev pub refuse_if : Bool → Access (Unit {0})
refuse_if true = refused
refuse_if false = ok tt

-- `buf[at]`.
unfoldable pub byte : Bytes → ℕ → Access ℕ
byte buf at = elim (get_elem? buf at) [ none ↦ overrun | some c ↦ ok c ]

-- The bytes take separate bits of the word, so that `|` is a sum.
unfoldable pub read_le_short : Bytes → ℕ → Access ℕ
unfolding byte
read_le_short buf at = do a ← byte buf at; b ← byte buf (at + 1); ok (a + b * 2 ^ 8)

unfoldable pub read_le_int : Bytes → ℕ → Access ℕ
unfolding byte
read_le_int buf at = do
  a ← byte buf at
  b ← byte buf (at + 1)
  c ← byte buf (at + 2)
  d ← byte buf (at + 3)
  ok (a + b * 2 ^ 8 + c * 2 ^ 16 + d * 2 ^ 24)

abbrev pub cd_signature : ℕ
cd_signature = 0x06054b50

abbrev pub eocd_len : ℕ
eocd_len = 22

abbrev pub max_comment_len : ℕ
max_comment_len = 65535

abbrev pub max_eocd_search : ℕ
max_eocd_search = max_comment_len + eocd_len

abbrev pub entry_signature : ℕ
entry_signature = 0x02014b50

abbrev pub entry_len : ℕ
entry_len = 46

abbrev pub lfh_size : ℕ
lfh_size = 30

pub record Zipentry : Type 0 where
  pub file_name_length : ℕ
  pub file_name : Option ℕ
  pub compression_method : ℕ
  pub uncompressed_size : ℕ
  pub compressed_size : ℕ
  pub data_at : ℕ

-- The list of entries, which starts with the last one that was read.
pub record Zipfile : Type 0 where
  pub buf : Bytes
  pub disknum : ℕ
  pub disk_with_central_dir : ℕ
  pub entry_count : ℕ
  pub total_entry_count : ℕ
  pub central_dir_size : ℕ
  pub central_dir_offset : ℕ
  pub comment_len : ℕ
  pub comment : Option ℕ
  pub entries : List Zipentry

-- `eocd` is where the record starts, and `len` what is left from there.
unfoldable pub read_central_dir_values : Zipfile → ℕ → ℕ → Access Zipfile
read_central_dir_values file eocd len = do
  refuse_if (ltb len eocd_len)
  disknum ← read_le_short file.buf (eocd + 0x04)
  disk_with_central_dir ← read_le_short file.buf (eocd + 0x06)
  entry_count ← read_le_short file.buf (eocd + 0x08)
  total_entry_count ← read_le_short file.buf (eocd + 0x0a)
  central_dir_size ← read_le_int file.buf (eocd + 0x0c)
  central_dir_offset ← read_le_int file.buf (eocd + 0x10)
  comment_len ← read_le_short file.buf (eocd + 0x14)
  refuse_if (ltb 0 comment_len && ltb len (eocd_len + comment_len))
  ok (record file {
    disknum = disknum;
    disk_with_central_dir = disk_with_central_dir;
    entry_count = entry_count;
    total_entry_count = total_entry_count;
    central_dir_size = central_dir_size;
    central_dir_offset = central_dir_offset;
    comment_len = comment_len;
    comment = if ltb 0 comment_len then some (eocd + eocd_len) else file.comment;
  })

-- `*len` is a signed word: it is below `n` if its top bit is set, or by its value.
unfoldable pub word_below : ℕ → ℕ → Bool
word_below len n = leb (2 ^ 31) len || ltb len n

-- The entry at `p`, and where the next one starts; `len` stays as it was. The fields that are read
-- and not used lie between those that are.
unfoldable pub read_central_directory_entry : Bytes → ℕ → ℕ → Access (Zipentry × ℕ)
unfolding word_below
read_central_directory_entry buf p len = do
  refuse_if (word_below len entry_len)
  signature ← read_le_int buf (p + 0x00)
  refuse_if (not (signature == entry_signature))
  compression_method ← read_le_short buf (p + 0x0a)
  compressed_size ← read_le_int buf (p + 0x14)
  uncompressed_size ← read_le_int buf (p + 0x18)
  file_name_length ← read_le_short buf (p + 0x1c)
  extra_field_length ← read_le_short buf (p + 0x1e)
  file_comment_length ← read_le_short buf (p + 0x20)
  local_header_rel_offset ← read_le_int buf (p + 0x2a)
  lfh_extra_field_length ← read_le_short buf ((local_header_rel_offset + 0x1c) % 2 ^ 32)
  ok (
    record {
      file_name_length = file_name_length;
      file_name = if file_name_length == 0 then none else some (p + entry_len);
      compression_method = compression_method;
      uncompressed_size = uncompressed_size;
      compressed_size = compressed_size;
      data_at =
          (local_header_rel_offset + lfh_size + file_name_length + lfh_extra_field_length) % 2 ^ 32;
    },
    p + entry_len + file_name_length + extra_field_length + file_comment_length,
  )

-- The loop over the entries, with the count that is left.
unfoldable pub read_entries : Bytes → ℕ → ℕ → ℕ → List Zipentry → Access (List Zipentry)
read_entries buf len zero p entries = ok entries
read_entries buf len (suc n) p entries = do
  (entry, next) ← read_central_directory_entry buf p len
  read_entries buf len n next (entry ∷ entries)

-- The scan backwards, over the `n` places from `start` on.
unfoldable pub find_eocd : Bytes → ℕ → ℕ → Access ℕ
find_eocd buf start zero = refused
find_eocd buf start (suc n) = do
  c ← byte buf (start + n)
  elim (c == 0x50) [
    | true ↦ do
      signature ← read_le_int buf (start + n)
      elim (signature == cd_signature) [ true ↦ ok (start + n) | false ↦ find_eocd buf start n ]
    | false ↦ find_eocd buf start n
  ]

-- Where the scan ends.
unfoldable pub search_start : ℕ → ℕ
search_start bufsize = if ltb max_eocd_search bufsize then bufsize - max_eocd_search else 0

unfoldable pub read_central_dir : Zipfile → Access Zipfile
unfolding search_start
read_central_dir file = do
  let bufsize = length file.buf
  refuse_if (ltb bufsize eocd_len)
  eocd ← find_eocd file.buf (search_start bufsize) (bufsize - 4 + 1 - search_start bufsize)
  f ← read_central_dir_values file eocd (bufsize - eocd)
  refuse_if (
      not (f.disknum == 0)
      || (not (f.disk_with_central_dir == 0) || not (f.entry_count == f.total_entry_count)))
  let len = (bufsize + 2 ^ 32 - f.central_dir_offset) % 2 ^ 32
  entries ← read_entries f.buf len f.total_entry_count f.central_dir_offset f.entries
  ok (record f { entries = entries })

-- `memset(file, 0, sizeof(Zipfile))`, with the buffer.
unfoldable pub blank_zipfile : Bytes → Zipfile
blank_zipfile buf = record {
  buf = buf;
  disknum = 0;
  disk_with_central_dir = 0;
  entry_count = 0;
  total_entry_count = 0;
  central_dir_size = 0;
  central_dir_offset = 0;
  comment_len = 0;
  comment = none;
  entries = [];
}

-- `refused` is the null pointer.
unfoldable pub init_zipfile : Bytes → Access Zipfile
unfolding blank_zipfile
init_zipfile buf = read_central_dir (blank_zipfile buf)

-- `memcmp` of a C string, its end included, and of `n` bytes of the archive, up to a difference.
unfoldable pub same_bytes : Bytes → Bytes → ℕ → ℕ → Access Bool
same_bytes name buf at zero = ok true
same_bytes [] buf at (suc n) = overrun
same_bytes (x ∷ name) buf at (suc n) = do
  c ← byte buf at
  elim (x == c) [ true ↦ same_bytes name buf (at + 1) n | false ↦ ok false ]

-- With no bytes to compare, the null pointer is not followed.
unfoldable pub name_matches : Bytes → Bytes → Zipentry → Access Bool
name_matches name buf e = elim e.file_name [
  | none ↦ same_bytes name buf 0 0
  | some at ↦ same_bytes name buf at e.file_name_length
]

-- `none` is the null pointer.
unfoldable pub lookup_in : Bytes → Bytes → List Zipentry → Access (Option Zipentry)
lookup_in name buf [] = ok none
lookup_in name buf (e ∷ es) = do
  hit ← name_matches name buf e
  elim hit [ true ↦ ok (some e) | false ↦ lookup_in name buf es ]

unfoldable pub lookup_zipentry : Zipfile → Bytes → Access (Option Zipentry)
lookup_zipentry file name = lookup_in (name ++ 0 ∷ []) file.buf file.entries

-- The bytes that `memcpy` takes for the name.
unfoldable pub copy_bytes : Bytes → ℕ → ℕ → Access Bytes
copy_bytes buf at zero = ok []
copy_bytes buf at (suc n) = do c ← byte buf at; x ← copy_bytes buf (at + 1) n; ok (c ∷ x)

unfoldable pub get_zipentry_name : Zipfile → Zipentry → Access Bytes
get_zipentry_name file e = elim e.file_name [
  | none ↦ ok []
  | some at ↦ copy_bytes file.buf at e.file_name_length
]

unfoldable pub get_zipentry_size : Zipentry → ℕ
get_zipentry_size e = e.uncompressed_size
