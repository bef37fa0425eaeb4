-- ===== src/Zip/EndRecord.antt =====
-- The record at the end of the central directory (`read_central_dir_values`,
-- ADBTestCE/adb/centraldir.cpp) against the format.
use adbtest_ce.Prelude.{
  Bytes, [], ap, arith, drop, if◌then◌else◌, inl, inr, length, ltb, none, refl, some, word16,
  word32, ℕ, ◌+◌, ◌<◌, ◌^◌, ◌≡◌, ◌⊎◌,
}
use adbtest_ce.Zip.Archive.{end_record}
use adbtest_ce.Zip.Directory.{int_at, short_at}
use adbtest_ce.Zip.{
  Zipfile, blank_zipfile, cd_signature, ok, read_central_dir_values, read_le_int, read_le_short,
}

-- What the record at the end says.
unfoldable pub values_of : Bytes → ℕ → ℕ → ℕ → ℕ → Bytes → Zipfile
values_of buf eocd count size offset remark = record {
  buf = buf;
  disknum = 0;
  disk_with_central_dir = 0;
  entry_count = count;
  total_entry_count = count;
  central_dir_size = size;
  central_dir_offset = offset;
  comment_len = length remark;
  comment = if ltb 0 (length remark) then some (eocd + 22) else none;
  entries = [];
}

module _ (count size offset : ℕ) (remark : Bytes) where
  zero_word :
      (k : ℕ) → (k ≡ 4) ⊎ (k ≡ 6) → read_le_short (end_record count size offset remark) k ≡ ok 0
  unfolding read_le_short end_record
  zero_word k (inl e) = rw e refl
  zero_word k (inr e) = rw e refl

  pub first_word : read_le_int (end_record count size offset remark) 0 ≡ ok cd_signature
  unfolding read_le_int end_record
  first_word = refl

  count_word : count < 65536 → read_le_short (end_record count size offset remark) 0x08 ≡ ok count
  unfolding read_le_short end_record
  count_word h = ap ok (word16 count h)

  total_word : count < 65536 → read_le_short (end_record count size offset remark) 0x0a ≡ ok count
  unfolding read_le_short end_record
  total_word h = ap ok (word16 count h)

  size_word : size < 2 ^ 32 → read_le_int (end_record count size offset remark) 0x0c ≡ ok size
  unfolding read_le_int end_record
  size_word h = ap ok (word32 size h)

  start_word : offset < 2 ^ 32 → read_le_int (end_record count size offset remark) 0x10 ≡ ok offset
  unfolding read_le_int end_record
  start_word h = ap ok (word32 offset h)

  remark_word :
      length remark < 65536
      → read_le_short (end_record count size offset remark) 0x14 ≡ ok (length remark)
  unfolding read_le_short end_record
  remark_word h = ap ok (word16 (length remark) h)

  pub length-end_record : length (end_record count size offset remark) ≡ 22 + length remark
  unfolding end_record
  length-end_record = omega arith

  -- The reader of the record gives these values.
  pub values_lem :
      (buf : Bytes) (eocd : ℕ)
      → count < 65536
      → size < 2 ^ 32
      → offset < 2 ^ 32
      → length remark < 65536
      → drop eocd buf ≡ end_record count size offset remark
      → read_central_dir_values (blank_zipfile buf) eocd (22 + length remark)
        ≡ ok (values_of buf eocd count size offset remark)
  unfolding read_central_dir_values blank_zipfile values_of
  values_lem buf eocd c s o r e =
      rw
        (
          short_at buf eocd 0x04 e (zero_word 4 (inl refl)),
          short_at buf eocd 0x06 e (zero_word 6 (inr refl)),
          short_at buf eocd 0x08 e (count_word c),
          short_at buf eocd 0x0a e (total_word c),
          int_at buf eocd 0x0c e (size_word s),
          int_at buf eocd 0x10 e (start_word o),
          short_at buf eocd 0x14 e (remark_word r),
        )
        (ground arith)
