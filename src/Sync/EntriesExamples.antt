-- ===== src/Sync/EntriesExamples.antt =====
-- A small directory that is listed (ADBTestCE/adb/file_sync_client.cpp,
-- ADBTestCE/adb/file_sync_service.c).
use adbtest_ce.Prelude.{
  Bool-cases, Bytes, List, Option, [], arith, codes, equal, if◌then◌else◌, inl, inr, none, refl,
  some, subst, ◌∷◌, ◌≡◌, ◌≢◌,
}
use adbtest_ce.Io.{Acceptance, got, then_write, write_both, write_loop, writex, written, wrote}
use adbtest_ce.Sync.{id_list, message}
use adbtest_ce.Sync.Service.{open_done}
use adbtest_ce.Sync.Commands.{Disk, FileStat, do_list, list_entries, list_entry}
use adbtest_ce.Sync.Entries.{sync_ls}
use adbtest_ce.Sync.EntriesWhole.{IsWords, Lists, shown, sync_ls-do_list, written_by}

abbrev small_stat : FileStat
small_stat = record { mode = 33188; size = 5; time = 7 }

abbrev small_lstat : Bytes → Option FileStat
small_lstat p = if equal p (codes "d/gone") then none else some small_stat

abbrev small_disk : Disk
small_disk = record {
  lstat = small_lstat;
  names = λ _. codes "a" ∷ codes "gone" ∷ codes "b,c" ∷ [];
  openings = λ _. record { first = open_done; second = open_done; third = open_done; old = [] };
  old_mode = λ _. 0;
  full = λ _. [];
  reads = λ _. none;
  why = codes "denied";
}

small_lstat-IsWords : (p : Bytes) (st : FileStat) → small_lstat p ≡ some st → IsWords st
small_lstat-IsWords p st = elim (Bool-cases (equal p (codes "d/gone"))) [
  | inl gone ↦ rw gone (λ e. cc)
  | inr here ↦
      rw here (λ e. subst (elim [ none ↦ IsWords small_stat | some s ↦ IsWords s ]) e (omega arith))
]

abbrev request_writes : List Acceptance
request_writes = wrote 3 ∷ wrote 100 ∷ wrote 100 ∷ []

request_written : (write_both request_writes (message id_list 1) (codes "d")).outcome ≡ written
unfolding write_both then_write writex write_loop
request_written = refl

listed_some : written_by (do_list small_disk (codes "d")) ≢ []
unfolding do_list list_entries list_entry equal
listed_some = λ e. cc

-- Two calls, since one of the three files has gone.
sync_ls-do_list_example :
    (x : Bytes) × (do_list small_disk (codes "d") ≡ some x)
    × Lists
        (shown small_disk (codes "d") (small_disk.names (codes "d")))
        []
        (sync_ls
          (codes "d")
          request_writes
          (got (written_by (do_list small_disk (codes "d"))) ∷ [])).answer
sync_ls-do_list_example =
    sync_ls-do_list small_disk (codes "d") [] request_writes
      (got (written_by (do_list small_disk (codes "d"))) ∷ []) (omega arith) request_written
      (omega arith) small_lstat-IsWords (listed_some, tt) refl
