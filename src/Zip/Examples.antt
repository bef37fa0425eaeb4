-- ===== src/Zip/Examples.antt =====
-- Archives of two members, and the theorems on them (ADBTestCE/adb/zipfile.cpp).
use adbtest_ce.Prelude.{
  Bytes, List, Option, [], arith, codes, length, refl, reverse, some, subst, ℕ, ◌++◌, ◌+◌, ◌<◌, ◌^◌,
  ◌∷◌, ◌≡◌, ◌≢◌,
}
use adbtest_ce.Zip.Directory.{entry_of}
use adbtest_ce.Zip.Archive.{
  Fits, Holds, Member, central_header, directory, end_record, local_header,
}
use adbtest_ce.Zip.{
  Zipentry, Zipfile, byte, cd_signature, find_eocd, init_zipfile, lookup_zipentry, ok, overrun,
  read_central_dir, read_central_dir_values, read_central_directory_entry, read_entries,
  read_le_int, read_le_short, refused, word_below,
}
use adbtest_ce.Zip.Contents.{Describes, Pairwise, init_zipfile-archive}
use adbtest_ce.Zip.Lookup.{Both, HasNoNul, first_prefix, lookup_zipentry-archive}
use adbtest_ce.Zip.Overrun.{read_entries-overrun}
use adbtest_ce.Zip.Search.{AreBytes, IsLast, find_eocd-IsLast}
use adbtest_ce.Zip.Whole.{IsArchive}

abbrev member : Bytes → Bytes → ℕ → Member
member name content at = record {
  name = name;
  extra = [];
  remark = codes "r";
  local_extra = codes "..";
  content = content;
  version_made = 20;
  version_needed = 20;
  flags = 0;
  method = 0;
  time = 0;
  date = 0;
  crc = 7;
  unpacked_size = length content;
  disk_start = 0;
  internal = 0;
  external = 0;
  local_offset = at;
}

abbrev first_member : Member
first_member = member (codes "a/b") (codes "hello") 0

abbrev second_member : Member
second_member = member (codes "Android") (codes "xyz") 40

abbrev two_members : List Member
two_members = first_member ∷ second_member ∷ []

abbrev locals : Bytes
locals = local_header first_member ++ (codes "hello" ++ (local_header second_member ++ codes "xyz"))

abbrev archive : Bytes
archive = locals ++ (directory two_members ++ end_record 2 110 (length locals) (codes "end"))

after_record : find_eocd archive 187 21 ≡ refused
unfolding find_eocd byte local_header central_header directory end_record
after_record = refl

record_place : length locals + length (directory two_members) ≡ 186
unfolding local_header central_header directory
record_place = refl

length-archive : length archive ≡ 211
unfolding local_header central_header directory end_record
length-archive = refl

archive_bytes : AreBytes archive
unfolding local_header central_header directory end_record
archive_bytes = omega arith

member-Fits :
    (name content : Bytes) (at : ℕ)
    → length name < 65536
    → length content < 65536
    → at < 2 ^ 31
    → Fits (member name content at)
member-Fits name content at n c a = record {
  name_fits = n;
  extra_fits = omega arith;
  remark_fits = omega arith;
  local_extra_fits = omega arith;
  method_fits = omega arith;
  content_fits = omega arith;
  unpacked_fits = omega arith;
  offset_fits = omega arith;
}

first_held : Holds archive first_member
unfolding local_header central_header directory end_record
first_held = (_, refl)

second_held : Holds archive second_member
unfolding local_header central_header directory end_record
second_held = (_, refl)

first_no_nul : HasNoNul (codes "a/b")
first_no_nul = omega arith

second_no_nul : HasNoNul (codes "Android")
second_no_nul = omega arith

archive_alone :
    (q : ℕ)
    → length locals + length (directory two_members) < q
    → q + 3 < length archive
    → read_le_int archive q ≢ ok cd_signature
archive_alone q h k =
    let last : IsLast archive 187 21 refused =
      subst (IsLast archive 187 21) after_record
        (find_eocd-IsLast archive 187 21 archive_bytes (omega (arith, length-archive))) in
    last q (omega (arith, record_place)) (omega (arith, length-archive))

archive-IsArchive : IsArchive archive two_members (codes "end")
archive-IsArchive = record {
  before = locals;
  size = 110;
  layout = refl;
  are_bytes = archive_bytes;
  short = omega (arith, length-archive);
  count_fits = omega arith;
  size_fits = omega arith;
  remark_fits = omega arith;
  fits = (
    member-Fits (codes "a/b") (codes "hello") 0 (omega arith) (omega arith) (omega arith),
    (member-Fits (codes "Android") (codes "xyz") 40 (omega arith) (omega arith) (omega arith), tt),
  );
  holds = (first_held, (second_held, tt));
  alone = archive_alone;
}

-- The entries of the archive, the last one first.
init_zipfile-archive_example :
    (file : Zipfile) × (init_zipfile archive ≡ ok file)
    × (file.buf ≡ archive)
    × Pairwise (Describes file) file.entries (reverse two_members)
init_zipfile-archive_example =
    init_zipfile-archive archive two_members (codes "end") archive-IsArchive

-- A package with no `AndroidManifest.xml`, where a member named `Android` is taken for it.
lookup_zipentry-archive_example :
    (file : Zipfile) × (init_zipfile archive ≡ ok file)
    × (found : Option Zipentry) × (lookup_zipentry file (codes "AndroidManifest.xml") ≡ ok found)
    × Both (Describes file) found (first_prefix (codes "AndroidManifest.xml") (reverse two_members))
lookup_zipentry-archive_example =
    lookup_zipentry-archive archive two_members (codes "end") (codes "AndroidManifest.xml")
      archive-IsArchive (second_no_nul, (first_no_nul, tt))

manifest_found :
    first_prefix (codes "AndroidManifest.xml") (reverse two_members) ≡ some second_member
manifest_found = refl

-- The last signature of the archive is that of its end record.
find_eocd-IsLast_example : IsLast archive 0 208 (find_eocd archive 0 208)
find_eocd-IsLast_example =
    find_eocd-IsLast archive 0 208 archive_bytes (omega (arith, length-archive))

-- A directory that says of its one entry that its remark goes on to the end of the file.
abbrev forged : Bytes
forged = locals ++ central_header (record first_member { remark = end_record 2 50 82 [] })

length-forged : length forged ≡ 153
unfolding local_header central_header end_record
length-forged = refl

forged_entry : Zipentry
forged_entry = entry_of 82 (record first_member { remark = end_record 2 50 82 [] })

forged_read : read_central_directory_entry forged 82 71 ≡ ok (forged_entry, 153)
unfolding read_central_directory_entry read_le_short read_le_int local_header central_header
    end_record forged_entry word_below
forged_read = refl

read_entries-overrun_example : read_entries forged 71 2 82 [] ≡ overrun
read_entries-overrun_example =
    read_entries-overrun forged 71 0 82 [] forged_entry 153 forged_read
      (omega (arith, length-forged))

forged_overrun : init_zipfile forged ≡ overrun
unfolding init_zipfile read_central_dir find_eocd read_central_dir_values read_entries
    read_central_directory_entry read_le_short read_le_int local_header central_header end_record
forged_overrun = refl
