-- ===== src/Sync/Examples.antt =====
-- Small files that go to a device and come back (ADBTestCE/adb/file_sync_client.cpp,
-- ADBTestCE/adb/file_sync_service.c).
use adbtest_ce.Prelude.{
  Bytes, List, [], ap, arith, codes, equal, length, none, refl, some, sym, true, ◌++◌, ◌∷◌, ◌≡◌,
  ◌≢◌, ◌≤◌,
}
use adbtest_ce.Io.{Acceptance, Arrival, got, read_loop, readx, write_loop, writex, written, wrote}
use adbtest_ce.Io.ReadLoop.{stream}
use adbtest_ce.Sync.{
  id_data, id_done, id_okay, id_quit, message, msg_id, verify_apk, write_chunks, write_data_buffer,
}
use adbtest_ce.Zip.{
  blank_zipfile, byte, find_eocd, init_zipfile, lookup_in, lookup_zipentry, name_matches,
  read_central_dir, read_central_dir_values, read_central_directory_entry, read_entries,
  read_le_int, read_le_short, same_bytes, search_start, word_below,
}
use adbtest_ce.Zip.Archive.{Member, central_header, end_record, local_header}
use adbtest_ce.Host.Network.{digits_of, show_port}
use adbtest_ce.Sync.Commands.{Disk, and_later, copied_mode, service_loop}
use adbtest_ce.Sync.Sent.{service_loop-sync_send}
use adbtest_ce.Sync.Send.{
  SendResult, apk_file, copied, read_sync_status, send_data, send_done, send_name, send_request,
  show_mode, sync_send,
}
use adbtest_ce.Sync.Push.{handle_send_file-write_data_buffer}
use adbtest_ce.Sync.Pull.{Fetches}
use adbtest_ce.Sync.PullWhole.{good_file, sync_recv-do_recv}
use adbtest_ce.Sync.Receive.{sync_recv}
use adbtest_ce.Sync.Service.{
  Openings, PushResult, contents, do_recv, exists, handle_send_file, open_done, open_push, received,
  recv_blocks,
}

abbrev one_write : List Acceptance
one_write = wrote 100 ∷ []

abbrev hello : Bytes
hello = codes "hello"

abbrev hello_block : Bytes
hello_block = message id_data 5 ++ hello

hello_sent : (write_data_buffer one_write hello).sent ≡ hello_block
unfolding write_data_buffer writex write_loop
hello_sent = refl

hello_written : (write_data_buffer one_write hello).outcome ≡ written
unfolding write_data_buffer writex write_loop
hello_written = refl

abbrev pushed_arrivals : List Arrival
pushed_arrivals = got hello_block ∷ got (message id_done 7) ∷ []

pushed_stream :
    stream pushed_arrivals ≡ (write_data_buffer one_write hello).sent ++ (message id_done 7 ++ [])
pushed_stream = ap (λ z. z ++ (message id_done 7 ++ [])) (sym hello_sent)

abbrev device_file : List Arrival
device_file = got (codes "hel") ∷ got (codes "lo") ∷ []

abbrev pulled_arrivals : List Arrival
pulled_arrivals =
    got (message id_data 3 ++ codes "hel")
    ∷ got (message id_data 2 ++ (codes "lo" ++ message id_done 0))
    ∷ []

pulled_stream : stream pulled_arrivals ≡ do_recv (codes "denied") true device_file ++ []
unfolding do_recv recv_blocks
pulled_stream = refl

sync_recv-do_recv_example : Fetches (stream device_file) [] (sync_recv good_file pulled_arrivals)
sync_recv-do_recv_example =
    sync_recv-do_recv (codes "denied") [] device_file pulled_arrivals ((λ e. cc), ((λ e. cc), tt))
      ((λ e. cc), ((λ e. cc), tt)) pulled_stream

abbrev manifest : Member
manifest = record {
  name = codes "AndroidManifest.xml";
  extra = [];
  remark = [];
  local_extra = [];
  content = codes "x";
  version_made = 20;
  version_needed = 20;
  flags = 0;
  method = 0;
  time = 0;
  date = 0;
  crc = 7;
  unpacked_size = 1;
  disk_start = 0;
  internal = 0;
  external = 0;
  local_offset = 0;
}

abbrev small_package : Bytes
small_package =
    local_header manifest ++ (codes "x" ++ (central_header manifest ++ end_record 1 65 50 []))

abbrev remote_name : Bytes
remote_name = codes "/data/a,b.apk"

abbrev new_openings : Openings
new_openings = record { first = open_done; second = open_done; third = open_done; old = [] }

-- A file that is there already, and longer.
abbrev old_openings : Openings
old_openings = record {
  first = exists;
  second = open_done;
  third = open_done;
  old = codes "a longer text";
}

abbrev empty_disk : Disk
empty_disk = record {
  lstat = λ _. none;
  names = λ _. [];
  openings = λ _. new_openings;
  old_mode = λ _. 0;
  full = λ _. [];
  reads = λ _. none;
  why = codes "denied";
}

abbrev long_writes : List Acceptance
long_writes = wrote 1000 ∷ wrote 1000 ∷ wrote 2 ∷ wrote 1000 ∷ wrote 1000 ∷ wrote 1000 ∷ []

small_sent : SendResult
small_sent =
    sync_send remote_name 33206 (apk_file small_package) 7 long_writes
      (got (message id_okay 0) ∷ [])

small_copied : small_sent.end ≡ copied
unfolding small_sent sync_send verify_apk init_zipfile read_central_dir find_eocd
    read_central_dir_values read_entries read_central_directory_entry read_le_short read_le_int byte
    local_header central_header end_record lookup_zipentry lookup_in name_matches same_bytes
    word_below send_request send_data send_done write_data_buffer write_chunks writex write_loop
    read_sync_status readx send_name show_mode show_port digits_of msg_id equal search_start
    blank_zipfile read_loop
small_copied = refl

small_some : small_sent.sent ≢ []
unfolding small_sent sync_send verify_apk init_zipfile read_central_dir find_eocd
    read_central_dir_values read_entries read_central_directory_entry read_le_short read_le_int byte
    local_header central_header end_record lookup_zipentry lookup_in name_matches same_bytes
    word_below send_request send_data send_done write_data_buffer write_chunks writex write_loop
    read_sync_status readx send_name show_mode show_port digits_of msg_id equal search_start
    blank_zipfile read_loop
small_some = λ e. cc

remote_short : length (send_name remote_name 33206) ≤ 1024
unfolding send_name show_mode show_port digits_of
remote_short = omega arith

-- QUIT comes behind.
service_loop-sync_send_example :
    (rest : List Arrival) × (stream rest ≡ message id_quit 0)
    × (service_loop 2 empty_disk (got small_sent.sent ∷ got (message id_quit 0) ∷ [])
        ≡ and_later
            (message id_okay 0)
            (record { path = remote_name; mode = copied_mode 438; bytes = small_package; time = 7 }
              ∷ [])
            (service_loop 1 empty_disk rest))
unfolding small_sent open_push
service_loop-sync_send_example =
    service_loop-sync_send 1 empty_disk remote_name small_package (message id_quit 0) 33206 7
      long_writes (got (message id_okay 0) ∷ [])
      (got small_sent.sent ∷ got (message id_quit 0) ∷ []) (omega arith) remote_short (omega arith)
      (omega arith) refl refl (omega arith) small_copied (small_some, ((λ e. cc), tt)) refl

handle_send_file-write_data_buffer_example :
    (r : PushResult) × (handle_send_file (codes "no space") old_openings [] pushed_arrivals
      ≡ some r)
    × (r.end ≡ received 7)
    × (contents r.pushed ≡ some (codes "helloger text"))
    × (r.pushed.replied ≡ message id_okay 0)
    × (stream r.rest ≡ [])
unfolding open_push
handle_send_file-write_data_buffer_example =
    handle_send_file-write_data_buffer one_write hello (codes "a longer text") [] (codes "no space")
      old_openings 7 pushed_arrivals refl hello_written ((λ e. cc), ((λ e. cc), tt)) pushed_stream
      (omega arith)
