-- ===== src/Zip/Archive.antt =====
-- The format of zip archives, as its specification has it: what ADBTestCE/adb/centraldir.cpp is held
-- against. It is written down on its own, and uses nothing of the reader.
use adbtest_ce.Prelude.{Bytes, List, [], drop, le16, le32, length, ℕ, ◌++◌, ◌<◌, ◌^◌, ◌∷◌, ◌≡◌}

-- A member of an archive, with all fields of its two headers.
pub record Member : Type 0 where
  pub name : Bytes
  pub extra : Bytes
  pub remark : Bytes
  pub local_extra : Bytes
  pub content : Bytes
  pub version_made : ℕ
  pub version_needed : ℕ
  pub flags : ℕ
  pub method : ℕ
  pub time : ℕ
  pub date : ℕ
  pub crc : ℕ
  pub unpacked_size : ℕ
  pub disk_start : ℕ
  pub internal : ℕ
  pub external : ℕ
  pub local_offset : ℕ

unfoldable pub local_header : Member → Bytes
local_header m =
    le32 0x04034b50
    ++ (le16 m.version_needed
        ++ (le16 m.flags
            ++ (le16 m.method
                ++ (le16 m.time
                    ++ (le16 m.date
                        ++ (le32 m.crc
                            ++ (le32 (length m.content)
                                ++ (le32 m.unpacked_size
                                    ++ (le16 (length m.name)
                                        ++ (le16 (length m.local_extra)
                                            ++ (m.name ++ m.local_extra)))))))))))

unfoldable pub central_header : Member → Bytes
central_header m =
    le32 0x02014b50
    ++ (le16 m.version_made
        ++ (le16 m.version_needed
            ++ (le16 m.flags
                ++ (le16 m.method
                    ++ (le16 m.time
                        ++ (le16 m.date
                            ++ (le32 m.crc
                                ++ (le32 (length m.content)
                                    ++ (le32 m.unpacked_size
                                        ++ (le16 (length m.name)
                                            ++ (le16 (length m.extra)
                                                ++ (le16 (length m.remark)
                                                    ++ (le16 m.disk_start
                                                        ++ (le16 m.internal
                                                            ++ (le32 m.external
                                                            ++ (le32 m.local_offset
                                                            ++ (m.name
                                                            ++ (m.extra
                                                            ++ m.remark))))))))))))))))))

unfoldable pub directory : List Member → Bytes
directory [] = []
directory (m ∷ ms) = central_header m ++ directory ms

-- The record at the end: one disk, the directory's entries, its size and its offset, and a comment.
unfoldable pub end_record : ℕ → ℕ → ℕ → Bytes → Bytes
end_record count size offset remark =
    le32 0x06054b50
    ++ (le16 0
        ++ (le16 0
            ++ (le16 count
                ++ (le16 count
                    ++ (le32 size ++ (le32 offset ++ (le16 (length remark) ++ remark)))))))

-- Each field fits its width.
pub record Fits (m : Member) : Type 0 where
  pub name_fits : length m.name < 65536
  pub extra_fits : length m.extra < 65536
  pub remark_fits : length m.remark < 65536
  pub local_extra_fits : length m.local_extra < 65536
  pub method_fits : m.method < 65536
  pub content_fits : length m.content < 2 ^ 32
  pub unpacked_fits : m.unpacked_size < 2 ^ 32
  pub offset_fits : m.local_offset < 2 ^ 32

-- The archive has the member's local header and content where its entry says.
abbrev pub Holds : Bytes → Member → Type 0
Holds buf m = (rest : Bytes) × (drop m.local_offset buf ≡ local_header m ++ (m.content ++ rest))
