-- ===== src/Sync/Delivered.antt =====
-- One command SEND, from `sync_send` (ADBTestCE/adb/file_sync_client.cpp) to the loop of
-- `file_sync_service` and its `do_send` (ADBTestCE/adb/file_sync_service.c).
use adbtest_ce.Prelude.{
  All, Bytes, List, Option, [], ap, append-nil, ap₂, arith, drop, drop-nil, equal, length, refl,
  subst, suc, sym, ℕ, ◌%◌, ◌++◌, ◌<◌, ◌^◌, ◌∙◌, ◌∷◌, ◌≡◌, ◌≤◌,
}
use adbtest_ce.Io.{Acceptance, Arrival, read_all, readx, written}
use adbtest_ce.Io.ReadLoop.{IsHealthy, readx_front, stream}
use adbtest_ce.Host.Network.{show_port}
use adbtest_ce.Sockets.Requests.{c_string}
use adbtest_ce.Sync.{id_done, id_okay, id_send, message, msg_id, msg_size, write_data_buffer}
use adbtest_ce.Sync.Commands.{
  Disk, Served, and_later, copied_mode, do_send, end_send, path_mode, read_command, read_name,
  run_command, service_loop, stored_mode,
}
use adbtest_ce.Sync.Delivery.{AreDigits, digits_of-AreDigits, path_mode-send_name, send_name_plain}
use adbtest_ce.Sync.Blocks.{size_of_message}
use adbtest_ce.Sync.Push.{Stores, kept_by, push-Stores}
use adbtest_ce.Sync.Send.{send_name}
use adbtest_ce.Sync.Service.{contents, created, handle_send_file, open_push, opened_file}
use adbtest_ce.Zip.Lookup.{HasNoNul}

HasNoNul-digits : (y : Bytes) → AreDigits y → HasNoNul y
HasNoNul-digits [] h = tt
HasNoNul-digits (c ∷ y) h = (omega (arith, h.0), HasNoNul-digits y h.1)

pub c_string-clean : (y : Bytes) → HasNoNul y → c_string y ≡ y
unfolding c_string
c_string-clean [] k = refl
c_string-clean (c ∷ y) k = ground (arith, k.0, c_string-clean y k.1)

-- The name of the request has no NUL byte and is read back whole.
c_string-digits :
    (x y : Bytes) → HasNoNul x → HasNoNul y → c_string (x ++ (b',' ∷ y)) ≡ x ++ (b',' ∷ y)
unfolding c_string
c_string-digits [] y h k = ground (arith, c_string-clean y k)
c_string-digits (c ∷ x) y h k = ground (arith, h.0, c_string-digits x y h.1 k)

pub send_command :
    (disk : Disk) (go : List Arrival → Option Served) (n : ℕ) (rest : List Arrival)
    → n ≤ 1024
    → read_command disk go (read_all (message id_send n) rest)
      ≡ read_name disk go (message id_send n) (readx rest n)
send_command disk go n rest fits =
    let size : msg_size (message id_send n) ≡ n = size_of_message id_send n refl (omega arith) in
    rw size (ground arith)

send_run :
    (disk : Disk) (go : List Arrival → Option Served) (n : ℕ) (name : Bytes) (rest : List Arrival)
    → run_command disk go (msg_id (message id_send n)) name rest ≡ do_send disk go name rest
unfolding run_command equal msg_id
send_run disk go n name rest = refl

-- Nothing lies behind the bytes of a new file.
whole_contents : (x : Bytes) → x ++ drop (length x) [] ≡ x
whole_contents x = ap (λ y. x ++ y) (drop-nil (length x)) ∙ append-nil x

-- What `do_send` does with a new file that comes whole.
sent_file :
    (disk : Disk) (go : List Arrival → Option Served) (name path x more : Bytes) (mode mtime : ℕ)
    (evs : List Arrival)
    → path_mode name ≡ (path, mode)
    → open_push (disk.openings path) ≡ created
    → Stores x mtime more
        (opened_file [] [])
        (handle_send_file disk.why (disk.openings path) (disk.full path) evs)
    → (rest : List Arrival) × (stream rest ≡ more)
      × (do_send disk go name evs
          ≡ and_later
              (message id_okay 0)
              (record { path = path; mode = copied_mode mode; bytes = x; time = mtime } ∷ [])
              (go rest))
unfolding do_send contents
sent_file disk go name path x more mode mtime evs e new (rest, s, m) = (
  rest,
  m,
  ap
        (λ q.
          end_send go q.0
            (stored_mode (copied_mode q.1) (disk.old_mode q.0) (open_push (disk.openings q.0)))
            (handle_send_file disk.why (disk.openings q.0) (disk.full q.0) evs))
        e
      ∙ ap₂ (λ o r. end_send go path (stored_mode (copied_mode mode) (disk.old_mode path) o) r) new
          s
      ∙ ap
          (λ y.
            and_later (message id_okay 0)
              (record { path = path; mode = copied_mode mode; bytes = y; time = mtime } ∷ [])
              (go rest))
          (whole_contents x),
)

-- The client's request for SEND, the blocks of a file whose writes end well and DONE with the time, in
-- any pieces, where the path has no NUL byte, the mode is below 2 ^ 31, the name of the request has 1024 bytes at most, and the
-- device opens a new file, with the mode that is asked for, and has room for it: the service stores one file, at the client's path, with
-- the permissions of the client's mode whose owner's bits are copied, the file's bytes and its time; it
-- answers OKAY, and goes on with the commands behind it.
pub service_loop-send_name :
    (fuel : ℕ) (disk : Disk) (rpath x more : Bytes) (mode mtime : ℕ) (ws : List Acceptance)
    (evs : List Arrival)
    → HasNoNul rpath
    → length (send_name rpath mode) ≤ 1024
    → mode < 2 ^ 31
    → mtime < 2 ^ 32
    → open_push (disk.openings rpath) ≡ created
    → disk.full rpath ≡ []
    → (write_data_buffer ws x).outcome ≡ written
    → All IsHealthy evs
    → stream evs
      ≡ message id_send (length (send_name rpath mode))
        ++ (send_name rpath mode
            ++ ((write_data_buffer ws x).sent ++ (message id_done mtime ++ more)))
    → (rest : List Arrival) × (stream rest ≡ more)
      × (service_loop (suc fuel) disk evs
          ≡ and_later
              (message id_okay 0)
              (record { path = rpath; mode = copied_mode (mode % 512); bytes = x; time = mtime }
                ∷ [])
              (service_loop fuel disk rest))
unfolding service_loop
service_loop-send_name fuel disk rpath x more mode mtime ws evs nul fits small t32 makes full o h
      e =
    let name = send_name rpath mode in
    let go = service_loop fuel disk in
    let body = (write_data_buffer ws x).sent ++ (message id_done mtime ++ more) in
    let (r₁, e₁, s₁, h₁) =
      readx_front evs 8 (message id_send (length name)) (name ++ body) h e refl in
    let (r₂, e₂, s₂, h₂) = readx_front r₁ (length name) name body h₁ s₁ refl in
    let clean : c_string name ≡ name =
      subst (λ z. c_string z ≡ z) (sym (send_name_plain rpath mode small))
        (unfold show_port in
          c_string-digits rpath (show_port mode) nul
            (HasNoNul-digits (show_port mode) (digits_of-AreDigits 20 mode))) in
    let kept : Stores x mtime more (opened_file [] [])
        (handle_send_file disk.why (disk.openings rpath) [] r₂) =
      push-Stores ws x [] more disk.why (disk.openings rpath) mtime r₂ (ap kept_by makes) o h₂ s₂
        t32 in
    let (rest, m, d) =
      sent_file disk go name rpath x more (mode % 512) mtime r₂
        (path_mode-send_name rpath mode small) makes (rw full kept) in
    (
      rest,
      m,
      ap (read_command disk go) e₁
          ∙ send_command disk go (length name) r₁ fits
          ∙ ap (read_name disk go (message id_send (length name))) e₂
          ∙ ap (λ z. run_command disk go (msg_id (message id_send (length name))) z r₂) clean
          ∙ send_run disk go (length name) name r₂
          ∙ d,
    )
