-- ===== src/Sync/Commands.antt =====
-- The commands of the sync protocol on the device, `do_stat`, `do_list`, `do_send` and
-- `file_sync_service` (ADBTestCE/adb/file_sync_service.c), where HAVE_SYMLINKS is not set. What the
-- device writes to its client is taken as written in full.
use Prim.Native.Nat.{bit_and, bit_or}
use adbtest_ce.Prelude.{
  Bool, Bytes, List, Option, [], codes, equal, false, if◌then◌else◌, le32, leb, length, ltb, none,
  some, suc, true, zero, ℕ, ◌%◌, ◌*◌, ◌++◌, ◌+◌, ◌/◌, ◌==◌, ◌^◌, ◌||◌, ◌∷◌,
}
use adbtest_ce.Io.{Arrival, Reading, read_all, read_blocked, read_refused, readx}
use adbtest_ce.Wire.{hex_value}
use adbtest_ce.Sync.{id_done, id_list, id_quit, id_recv, id_send, id_stat, msg_id, msg_size}
use adbtest_ce.Sockets.Requests.{c_string}
use adbtest_ce.Io.ReadLoop.{stream}
use adbtest_ce.Sync.Service.{
  Opening, Openings, PushEnd, PushResult, broken_off, contents, do_recv, handle_send_file,
  open_push, push_blocked, received, reopened, sync_fail,
}

pub record FileStat : Type 0 where
  pub mode : ℕ
  pub size : ℕ
  pub time : ℕ

-- The device's file system: `lstat`, the names in a directory, what the calls that open a file for writing
-- give once the old one was unlinked, the mode of a file that is still there, which writes to it fail,
-- what reads of a file give, and the text of `errno`.
pub record Disk : Type 0 where
  pub lstat : Bytes → Option FileStat
  pub names : Bytes → List Bytes
  pub openings : Bytes → Openings
  pub old_mode : Bytes → ℕ
  pub full : Bytes → List Bool
  pub reads : Bytes → Option (List Arrival)
  pub why : Bytes

abbrev pub stat_words : FileStat → Bytes
stat_words st = le32 st.mode ++ (le32 st.size ++ le32 st.time)

abbrev pub no_stat : FileStat
no_stat = record { mode = 0; size = 0; time = 0 }

unfoldable pub do_stat : Disk → Bytes → Bytes
do_stat disk path = elim (disk.lstat path) [
  | none ↦ id_stat ++ stat_words no_stat
  | some st ↦ id_stat ++ stat_words st
]

-- `char tmp[1024 + 256 + 1]`.
abbrev pub tmp_size : ℕ
tmp_size = 1024 + 256 + 1

-- One name of a directory, if it is not too long and is still there. `none` where the path, a slash, the
-- name and its NUL leave `tmp`.
unfoldable pub list_entry : Disk → Bytes → Bytes → Option Bytes
list_entry disk path name =
    if ltb 256 (length name)
    then some []
    else if ltb tmp_size (length path + 1 + length name + 1)
    then none
    else elim (disk.lstat (path ++ (b'/' ∷ name))) [
      | none ↦ some []
      | some st ↦ some (codes "DENT" ++ (stat_words st ++ (le32 (length name) ++ name)))
    ]

-- One after the other, with no fault in either.
abbrev pub both_parts : Option Bytes → Option Bytes → Option Bytes
both_parts none y = none
both_parts (some x) none = none
both_parts (some x) (some y) = some (x ++ y)

unfoldable pub list_entries : Disk → Bytes → List Bytes → Option Bytes
unfolding list_entry
list_entries disk path [] = some []
list_entries disk path (name ∷ names) =
    both_parts (list_entry disk path name) (list_entries disk path names)

-- The path and the slash go into `tmp` first.
unfoldable pub do_list : Disk → Bytes → Option Bytes
unfolding list_entries
do_list disk path =
    if ltb tmp_size (length path + 1)
    then none
    else both_parts (list_entries disk path (disk.names path))
        (some (id_done ++ (stat_words no_stat ++ le32 0)))

-- `strrchr`: what stands before the last such byte, and behind it.
unfoldable pub split_last : ℕ → Bytes → Option (Bytes × Bytes)
split_last c [] = none
split_last c (b ∷ s) = elim (split_last c s) [
  | some (x, y) ↦ some (b ∷ x, y)
  | none ↦ if b == c then some ([], s) else none
]

-- `strtoul(s, NULL, 0)` with no blank and no sign in front: a number that starts with 0 is octal or
-- hexadecimal.
unfoldable pub digits_in : ℕ → ℕ → Bytes → ℕ
digits_in base n [] = n
digits_in base n (c ∷ s) = elim (hex_value c) [
  | none ↦ n
  | some d ↦ let rest = digits_in base (n * base + d) s in if ltb d base then rest else n
]

unfoldable pub strtoul_any : Bytes → ℕ
unfolding digits_in
strtoul_any [] = 0
strtoul_any (c ∷ []) = digits_in 10 0 (c ∷ [])
strtoul_any (c ∷ d ∷ s) =
    if c == b'0'
    then if d == b'x' || d == b'X' then digits_in 16 0 s else digits_in 8 0 (d ∷ s)
    else digits_in 10 0 (c ∷ d ∷ s)

-- The path and the mode that a name gives; a value that does not fit is an error.
unfoldable pub path_mode : Bytes → Bytes × ℕ
unfolding split_last strtoul_any
path_mode name = elim (split_last b',' name) [
  | none ↦ (name, 0o644)
  | some (path, text) ↦
      let value = strtoul_any text in
      if leb (2 ^ 32) value then (path, 0o644) else (path, value % 512)
]

-- The owner's bits are copied to the group's and the others'.
unfoldable pub copied_mode : ℕ → ℕ
copied_mode mode =
    let group = bit_or mode (bit_and (mode / 8) 0o070) in bit_or group (bit_and (group / 8) 0o007)

-- A file that was stored whole.
pub record Stored : Type 0 where
  pub path : Bytes
  pub mode : ℕ
  pub bytes : Bytes
  pub time : ℕ

-- What came of the commands: the answers, the files, and whether the service waits for its client.
pub record Served : Type 0 where
  pub replied : Bytes
  pub stored : List Stored
  pub waiting : Bool

abbrev pub last_words : Bytes → Option Served
last_words reply = some (record { replied = reply; stored = []; waiting = false })

abbrev pub awaits : Bytes → Option Served
awaits reply = some (record { replied = reply; stored = []; waiting = true })

-- What a command does comes before what the later ones do.
abbrev pub and_later : Bytes → List Stored → Option Served → Option Served
and_later reply files none = none
and_later reply files (some s) =
    some (record s { replied = reply ++ s.replied; stored = files ++ s.stored })

abbrev pub stored_file : Bytes → ℕ → ℕ → Option Bytes → List Stored
stored_file path mode time none = []
stored_file path mode time (some x) =
    record { path = path; mode = mode; bytes = x; time = time } ∷ []

-- The mode is given to a new file only.
abbrev pub stored_mode : ℕ → ℕ → Opening → ℕ
stored_mode mode old (reopened x) = old
stored_mode mode old o = mode

-- After `do_send`: the service goes on unless that broke off.
abbrev pub after_send :
    (List Arrival → Option Served) → Bytes → ℕ → PushEnd → PushResult → Option Served
after_send go path mode (received time) r =
    and_later r.pushed.replied (stored_file path mode time (contents r.pushed)) (go r.rest)
after_send go path mode broken_off r = last_words r.pushed.replied
after_send go path mode push_blocked r = awaits r.pushed.replied

abbrev pub end_send : (List Arrival → Option Served) → Bytes → ℕ → Option PushResult → Option Served
end_send go path mode none = none
end_send go path mode (some r) = after_send go path mode r.end r

-- `do_send`, once the file of that name was unlinked, or could not be.
unfoldable pub do_send :
    Disk → (List Arrival → Option Served) → Bytes → List Arrival → Option Served
do_send disk go name evs =
    let (path, mode) = path_mode name in
    let o = disk.openings path in
    end_send go path (stored_mode (copied_mode mode) (disk.old_mode path) (open_push o))
      (handle_send_file disk.why o (disk.full path) evs)

abbrev pub recv_reply : Disk → Bytes → Bytes
recv_reply disk path = elim (disk.reads path) [
  | none ↦ do_recv disk.why false []
  | some evs ↦ do_recv disk.why true evs
]

-- `none` is a fault.
abbrev pub list_reply : Option Bytes → Option Served → Option Served
list_reply none later = none
list_reply (some x) later = and_later x [] later

unfoldable pub run_command :
    Disk → (List Arrival → Option Served) → Bytes → Bytes → List Arrival → Option Served
unfolding do_send
run_command disk go id name rest =
    if equal id id_stat
    then and_later (do_stat disk name) [] (go rest)
    else if equal id id_list
    then list_reply (do_list disk name) (go rest)
    else if equal id id_send
    then do_send disk go name rest
    else if equal id id_recv
    then and_later (recv_reply disk name) [] (go rest)
    else if equal id id_quit
    then last_words []
    else last_words (sync_fail (codes "unknown command"))

abbrev pub read_name : Disk → (List Arrival → Option Served) → Bytes → Reading → Option Served
read_name disk go m (read_all x rest) = run_command disk go (msg_id m) (c_string x) rest
read_name disk go m read_refused = last_words (sync_fail (codes "filename read failure"))
read_name disk go m read_blocked = awaits []

abbrev pub read_command : Disk → (List Arrival → Option Served) → Reading → Option Served
read_command disk go (read_all m rest) =
    if ltb 1024 (msg_size m)
    then last_words (sync_fail (codes "invalid namelen"))
    else read_name disk go m (readx rest (msg_size m))
read_command disk go read_refused = last_words (sync_fail (codes "command read failure"))
read_command disk go read_blocked = awaits []

-- `for(;;)`, with fuel for its rounds; `none` is a fault, or that the fuel is used up.
unfoldable pub service_loop : ℕ → Disk → List Arrival → Option Served
service_loop zero disk evs = none
service_loop (suc fuel) disk evs = read_command disk (service_loop fuel disk) (readx evs 8)

-- Each command takes eight bytes of the stream.
unfoldable pub file_sync_service : Disk → List Arrival → Option Served
unfolding service_loop
file_sync_service disk evs = service_loop (suc (length (stream evs))) disk evs
