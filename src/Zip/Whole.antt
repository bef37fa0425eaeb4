-- ===== src/Zip/Whole.antt =====
-- `init_zipfile` (ADBTestCE/adb/zipfile.cpp) on archives of the format.
use adbtest_ce.Prelude.{
  ==_self, All, Bytes, List, [], ap, append-nil, arith, drop, drop-add, drop-append, false, inl,
  inr, length, length-append, ltb, refl, reverse, ℕ, ◌%◌, ◌++◌, ◌+◌, ◌-◌, ◌<◌, ◌^◌, ◌∙◌, ◌∷◌, ◌≡◌,
  ◌≢◌, ◌≤◌, ◌⊎◌,
}
use adbtest_ce.Zip.Archive.{Fits, Holds, Member, central_header, directory, end_record}
use adbtest_ce.Zip.Search.{AreBytes, IsLast, find_eocd-IsLast}
use adbtest_ce.Zip.EndRecord.{first_word, length-end_record, values_lem, values_of}
use adbtest_ce.Zip.{
  Access, Zipfile, blank_zipfile, cd_signature, entry_len, eocd_len, find_eocd, init_zipfile, ok,
  overrun, read_central_dir, read_central_dir_values, read_entries, read_le_int, refused,
  search_start, word_below,
}
use adbtest_ce.Zip.Directory.{entries_at, int_at, length-central_header, read_entries-directory}

-- The archive: anything that holds its members, their directory, and the record at the end with the
-- archive's comment, after which no place has the record's signature.
pub record IsArchive (buf : Bytes) (ms : List Member) (remark : Bytes) : Type 0 where
  pub before : Bytes
  pub size : ℕ
  pub layout : buf ≡ before ++ (directory ms ++ end_record (length ms) size (length before) remark)
  pub are_bytes : AreBytes buf
  pub short : length buf < 2 ^ 31
  pub count_fits : length ms < 65536
  pub size_fits : size < 2 ^ 32
  pub remark_fits : length remark < 65536
  pub fits : All Fits ms
  pub holds : All (Holds buf) ms
  pub alone :
      (q : ℕ)
      → length before + length (directory ms) < q
      → q + 3 < length buf
      → read_le_int buf q ≢ ok cd_signature

-- The last of all places with the signature is the result of the scan.
lt_cases : (x p : ℕ) → ((x < p) ⊎ (x ≡ p)) ⊎ (p < x)
lt_cases x p = ground arith

IsLast-eq :
    (buf : Bytes) (start n p : ℕ) (r : Access ℕ)
    → IsLast buf start n r
    → start ≤ p
    → p < start + n
    → read_le_int buf p ≡ ok cd_signature
    → ((q : ℕ) → p < q → q < start + n → read_le_int buf q ≢ ok cd_signature)
    → r ≡ ok p
IsLast-eq buf start n p (ok x) (a, b, c, d) le lt hit alone = elim (lt_cases x p) [
  | inl (inl before) ↦ absurd (d p before lt hit)
  | inl (inr same) ↦ ap ok same
  | inr after ↦ absurd (alone x after b c)
]
IsLast-eq buf start n p refused h le lt hit alone = absurd (h p le lt hit)
IsLast-eq buf start n p overrun h le lt hit alone = absurd h

eocd_of : Bytes → List Member → ℕ
eocd_of before ms = length before + length (directory ms)

length-directory : (ms : List Member) → 0 < length ms → 46 ≤ length (directory ms)
unfolding directory
length-directory [] h = absurd (omega arith)
length-directory (m ∷ ms) h =
    omega (arith, length-append (central_header m) (directory ms), length-central_header m)

pub file_of : (buf : Bytes) (ms : List Member) (remark : Bytes) → IsArchive buf ms remark → Zipfile
file_of buf ms remark a =
    record (values_of buf (eocd_of a.before ms) (length ms) a.size (length a.before) remark) {
      entries = reverse (entries_at (length a.before) ms) ++ [];
    }

module _ (buf : Bytes) (ms : List Member) (remark : Bytes) (a : IsArchive buf ms remark) where
  record_at :
      drop (eocd_of a.before ms) buf ≡ end_record (length ms) a.size (length a.before) remark
  unfolding eocd_of
  record_at =
      drop-add (length a.before) (length (directory ms)) buf
      ∙ ap (λ z. drop (length (directory ms)) (drop (length a.before) z)) a.layout
      ∙ ap (drop (length (directory ms))) (drop-append a.before _)
      ∙ drop-append (directory ms) _

  length_lem : length buf ≡ eocd_of a.before ms + (22 + length remark)
  unfolding eocd_of
  length_lem = omega (
    arith,
    ap length a.layout,
    length-append a.before (directory ms ++ end_record (length ms) a.size (length a.before) remark),
    length-append (directory ms) (end_record (length ms) a.size (length a.before) remark),
    length-end_record (length ms) a.size (length a.before) remark,
  )

  pub directory_at :
      drop (length a.before) buf
      ≡ directory ms ++ end_record (length ms) a.size (length a.before) remark
  directory_at = ap (drop (length a.before)) a.layout ∙ drop-append a.before _

  hit : read_le_int buf (eocd_of a.before ms + 0) ≡ ok cd_signature
  hit =
      int_at buf (eocd_of a.before ms) 0 record_at
        (first_word (length ms) a.size (length a.before) remark)

  -- The scan finds the record.
  found :
      (start : ℕ)
      → start ≤ eocd_of a.before ms
      → find_eocd buf start (length buf - 4 + 1 - start) ≡ ok (eocd_of a.before ms)
  unfolding eocd_of
  found start le =
      IsLast-eq buf start (length buf - 4 + 1 - start) (eocd_of a.before ms) _
        (find_eocd-IsLast buf start (length buf - 4 + 1 - start) a.are_bytes
          (omega (arith, length_lem)))
        le (omega (arith, length_lem)) (ap (read_le_int buf) (omega arith) ∙ hit)
        (λ q lt below. a.alone q lt (omega (arith, length_lem)))

  before_fits : length a.before < 2 ^ 32
  unfolding eocd_of
  before_fits = omega (arith, length_lem, a.short)

  -- The directory of one member at least is long enough for an entry.
  long : 0 < length ms → word_below (length buf - length a.before) entry_len ≡ false
  unfolding word_below eocd_of
  long h = ground (arith, length_lem, a.short, length-directory ms h)

  start_le : search_start (length buf) ≤ eocd_of a.before ms
  unfolding search_start
  start_le = ground (arith, length_lem, a.remark_fits)

  big : ltb (length buf) eocd_len ≡ false
  big = ground (arith, length_lem)

  -- No part of the length is lost in 32 bits.
  left_lem : (length buf + 2 ^ 32 - length a.before) % 2 ^ 32 ≡ length buf - length a.before
  unfolding eocd_of
  left_lem = omega (arith, length_lem, a.short)

  all_values :
      read_central_dir_values
        (blank_zipfile buf)
        (eocd_of a.before ms)
        (length buf - eocd_of a.before ms)
      ≡ ok (values_of buf (eocd_of a.before ms) (length ms) a.size (length a.before) remark)
  all_values =
      ap (read_central_dir_values (blank_zipfile buf) (eocd_of a.before ms))
        (omega (arith, length_lem))
      ∙ values_lem (length ms) a.size (length a.before) remark buf (eocd_of a.before ms)
          a.count_fits a.size_fits (before_fits) a.remark_fits record_at

  entries_lem :
      read_entries buf (length buf - length a.before) (length ms) (length a.before) []
      ≡ ok (reverse (entries_at (length a.before) ms) ++ [])
  entries_lem =
      read_entries-directory buf (length buf - length a.before) (length a.before) ms []
        (end_record (length ms) a.size (length a.before) remark) long a.short a.fits a.holds
        directory_at

  pub read_lem : init_zipfile buf ≡ ok (file_of buf ms remark a)
  unfolding init_zipfile read_central_dir file_of blank_zipfile values_of
  read_lem =
      rw
        (
          big,
          found (search_start (length buf)) start_le,
          all_values,
          ==_self (length ms),
          left_lem,
          entries_lem,
        )
        refl

  pub file_buf : (file_of buf ms remark a).buf ≡ buf
  unfolding file_of values_of
  file_buf = refl

  pub file_entries : (file_of buf ms remark a).entries ≡ reverse (entries_at (length a.before) ms)
  unfolding file_of
  file_entries = append-nil (reverse (entries_at (length a.before) ms))
