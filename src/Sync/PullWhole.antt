-- ===== src/Sync/PullWhole.antt =====
-- The whole of `sync_recv` (ADBTestCE/adb/file_sync_client.cpp) against `do_recv`
-- (ADBTestCE/adb/file_sync_service.c), and the sizes that it does not refuse.
use adbtest_ce.Prelude.{
  All, Bytes, List, [], ap, append_assoc, arith, drop, equal, length, length-append, length-drop,
  refl, suc, sym, take, true, zero, ℕ, ◌++◌, ◌<◌, ◌||◌, ◌∙◌, ◌∷◌, ◌≡◌, ◌≤◌,
}
use adbtest_ce.Io.{Arrival, eagain, eintr, got, other_errno, read_all, read_failed}
use adbtest_ce.Io.ReadLoop.{IsHealthy, readx_front, stream}
use adbtest_ce.Sync.{count_of, id_data, id_done, message}
use adbtest_ce.Sync.Blocks.{count-le, count_pos, id_of_message}
use adbtest_ce.Sync.Pull.{Fetches, recv_blocks_fetched}
use adbtest_ce.Sync.Receive.{
  LocalFile, fetch_loop, first_message, handle_data, next_message, sync_recv,
}
use adbtest_ce.Sync.Service.{blocks, do_recv, recv_blocks}

-- A local file that can be made and takes all that is written.
abbrev pub good_file : LocalFile
good_file = record { creates = true; full = [] }

first_lem :
    (fuel n : ℕ) (id : Bytes) (rest : List Arrival)
    → length id ≡ 4
    → (equal id id_data || equal id id_done) ≡ true
    → first_message good_file fuel (read_all (message id n) rest)
      ≡ handle_data (fetch_loop fuel) [] [] (message id n) rest
unfolding first_message
first_lem fuel n id rest l hit = rw (id_of_message id n l, hit) refl

-- After a first message of the file the loop goes on as if it had begun with that.
sync_recv-fetch_loop :
    (evs : List Arrival) (id : Bytes) (n : ℕ) (z : Bytes)
    → length id ≡ 4
    → (equal id id_data || equal id id_done) ≡ true
    → All IsHealthy evs
    → stream evs ≡ message id n ++ z
    → sync_recv good_file evs ≡ fetch_loop (suc (suc (length (stream evs)))) evs [] []
unfolding sync_recv fetch_loop
sync_recv-fetch_loop evs id n z l hit h e =
    let (rest, er, s, hr) =
      readx_front evs 8 (message id n) z h e (length-append id _ ∙ omega (arith, l)) in
    let fuel = suc (length (stream evs)) in
    ap (first_message good_file fuel) er
    ∙ first_lem fuel n id rest l hit
    ∙ ap (next_message (fetch_loop fuel) [] []) (sym er)

blocks-length : (n : ℕ) (x : Bytes) → length x ≤ n → length x ≤ length (blocks n x)
unfolding blocks
blocks-length zero [] le = omega arith
blocks-length zero (b ∷ x) le = absurd (omega arith)
blocks-length (suc n) [] le = omega arith
blocks-length (suc n) (b ∷ x) le =
    let count = count_of (b ∷ x) in
    let tail = drop count (b ∷ x) in
    omega (
      arith,
      length-append (message id_data count ++ take count (b ∷ x)) (blocks n tail),
      length-append (message id_data count) (take count (b ∷ x)),
      (count-le (b ∷ x)).1,
      count_pos b x,
      length-drop count (b ∷ x),
      blocks-length n tail (omega (arith, length-drop count (b ∷ x), count_pos b x)),
    )

recv_blocks-length :
    (why : Bytes) (fevs : List Arrival)
    → All IsHealthy fevs
    → length (stream fevs) ≤ length (recv_blocks why fevs)
unfolding recv_blocks
recv_blocks-length why [] h = omega arith
recv_blocks-length why (got [] ∷ fevs) h = absurd (h.0 refl)
recv_blocks-length why (got (b ∷ x) ∷ fevs) h = omega (
  arith,
  length-append (b ∷ x) (stream fevs),
  length-append (blocks (length (b ∷ x)) (b ∷ x)) (recv_blocks why fevs),
  blocks-length (length (b ∷ x)) (b ∷ x) (omega arith),
  recv_blocks-length why fevs h.1,
)
recv_blocks-length why (read_failed eintr ∷ fevs) h = recv_blocks-length why fevs h.1
recv_blocks-length why (read_failed eagain ∷ fevs) h = cc
recv_blocks-length why (read_failed other_errno ∷ fevs) h = cc

-- The first message of a file.
recv_blocks_front :
    (why : Bytes) (fevs : List Arrival)
    → All IsHealthy fevs
    → (id : Bytes) × (n : ℕ) × (z : Bytes) × (length id ≡ 4)
      × ((equal id id_data || equal id id_done) ≡ true)
      × (recv_blocks why fevs ≡ message id n ++ z)
unfolding recv_blocks blocks equal
recv_blocks_front why [] h = (id_done, 0, [], refl, refl, refl)
recv_blocks_front why (got [] ∷ fevs) h = absurd (h.0 refl)
recv_blocks_front why (got (b ∷ x) ∷ fevs) h =
    let count = count_of (b ∷ x) in
    (
      id_data,
      count,
      take count (b ∷ x) ++ (blocks (length x) (drop count (b ∷ x)) ++ recv_blocks why fevs),
      refl,
      refl,
      append_assoc (message id_data count ++ take count (b ∷ x)) _ _
          ∙ append_assoc (message id_data count) (take count (b ∷ x)) _,
    )
recv_blocks_front why (read_failed eintr ∷ fevs) h = recv_blocks_front why fevs h.1
recv_blocks_front why (read_failed eagain ∷ fevs) h = cc
recv_blocks_front why (read_failed other_errno ∷ fevs) h = cc

-- The device reads a file to its end, interruptions apart, and the client, which can make and fill its
-- own, receives what the device writes, in any pieces: the client's file has the bytes of the device's
-- file, and the stream goes on behind the last message.
pub sync_recv-do_recv :
    (why more : Bytes) (fevs evs : List Arrival)
    → All IsHealthy fevs
    → All IsHealthy evs
    → stream evs ≡ do_recv why true fevs ++ more
    → Fetches (stream fevs) more (sync_recv good_file evs)
unfolding do_recv
sync_recv-do_recv why more fevs evs hf h e =
    let (id, n, z, l, hit, front) = recv_blocks_front why fevs hf in
    let start : stream evs ≡ message id n ++ (z ++ more) =
      e ∙ ap (λ w. w ++ more) front ∙ append_assoc (message id n) z more in
    let enough : length (stream fevs) < suc (suc (length (stream evs))) = omega (
      arith,
      ap length e,
      length-append (recv_blocks why fevs) more,
      recv_blocks-length why fevs hf,
    ) in
    let (r, er, s) = recv_blocks_fetched why fevs _ evs [] more hf enough h e in
    (r, sync_recv-fetch_loop evs id n (z ++ more) l hit h start ∙ er, s)
