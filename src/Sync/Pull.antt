-- ===== src/Sync/Pull.antt =====
-- A file that is fetched is the device's file: `do_recv` (ADBTestCE/adb/file_sync_service.c) and
-- `sync_recv` (ADBTestCE/adb/file_sync_client.cpp).
use adbtest_ce.Prelude.{
  All, Bool, Bytes, List, Option, [], ap, append-nil, append_assoc, arith, drop, equal, length,
  length-append, length-drop, refl, some, subst, suc, sym, take, take-append-drop, zero, ℕ, ◌++◌,
  ◌+◌, ◌<◌, ◌∙◌, ◌∷◌, ◌≡◌, ◌≤◌,
}
use adbtest_ce.Io.{Arrival, eagain, eintr, got, other_errno, read_failed, readx}
use adbtest_ce.Io.ReadLoop.{IsHealthy, readx_front, stream}
use adbtest_ce.Sync.{count_of, id_data, id_done, message, msg_id, msg_size, sync_data_max}
use adbtest_ce.Sync.Blocks.{count-le, count_pos, size_of_message}
use adbtest_ce.Sync.Receive.{Fetched, fetch_loop, fetched, handle_data, next_message, store_block}
use adbtest_ce.Sync.Service.{blocks, recv_blocks}

module _ (go : List Arrival → List Bool → Bytes → Option Fetched) (y : Bytes) where
  data_handled :
      (n : ℕ) (rest : List Arrival)
      → n ≤ sync_data_max
      → handle_data go [] y (message id_data n) rest ≡ store_block go [] y (readx rest n)
  unfolding equal msg_id
  data_handled n rest fits =
      let size : msg_size (message id_data n) ≡ n = size_of_message id_data n refl (omega arith) in
      rw size (ground arith)

  done_handled :
      (n : ℕ) (rest : List Arrival)
      → handle_data go [] y (message id_done n) rest ≡ some (fetched y rest)
  unfolding equal msg_id
  done_handled n rest = refl

-- One block.
block_fetched :
    (fuel : ℕ) (evs : List Arrival) (piece y z : Bytes)
    → length piece ≤ sync_data_max
    → All IsHealthy evs
    → stream evs ≡ (message id_data (length piece) ++ piece) ++ z
    → (rest : List Arrival) × (fetch_loop (suc fuel) evs [] y
        ≡ fetch_loop fuel rest [] (y ++ piece))
      × (stream rest ≡ z)
      × All IsHealthy rest
unfolding fetch_loop
block_fetched fuel evs piece y z fits h e =
    let (r₁, e₁, s₁, h₁) =
      readx_front evs 8 (message id_data (length piece)) (piece ++ z) h
        (e ∙ append_assoc (message id_data (length piece)) piece z) refl in
    let (r₂, e₂, s₂, h₂) = readx_front r₁ (length piece) piece z h₁ s₁ refl in
    (
      r₂,
      ap (next_message (fetch_loop fuel) [] y) e₁
          ∙ data_handled (fetch_loop fuel) y (length piece) r₁ fits
          ∙ ap (store_block (fetch_loop fuel) [] y) e₂,
      s₂,
      h₂,
    )

-- All blocks of some bytes: each takes a round, and has one byte at least.
blocks_fetched :
    (n fuel : ℕ) (evs : List Arrival) (x y z : Bytes)
    → length x ≤ n
    → length x ≤ fuel
    → All IsHealthy evs
    → stream evs ≡ blocks n x ++ z
    → (fuel' : ℕ) × (rest : List Arrival) × (fetch_loop fuel evs [] y
        ≡ fetch_loop fuel' rest [] (y ++ x))
      × (fuel ≤ fuel' + length x)
      × (stream rest ≡ z)
      × All IsHealthy rest
unfolding blocks
blocks_fetched zero fuel evs [] y z le lf h e =
    (fuel, evs, ap (fetch_loop fuel evs []) (sym (append-nil y)), omega arith, e, h)
blocks_fetched zero fuel evs (b ∷ x) y z le lf h e = absurd (omega arith)
blocks_fetched (suc n) fuel evs [] y z le lf h e =
    (fuel, evs, ap (fetch_loop fuel evs []) (sym (append-nil y)), omega arith, e, h)
blocks_fetched (suc n) zero evs (b ∷ x) y z le lf h e = absurd (omega arith)
blocks_fetched (suc n) (suc fuel) evs (b ∷ x) y z le lf h e =
    let count = count_of (b ∷ x) in
    let piece = take count (b ∷ x) in
    let tail = drop count (b ∷ x) in
    let (fits, len) = count-le (b ∷ x) in
    let shorter = length-drop count (b ∷ x) in
    let pos = count_pos b x in
    let (rest, turn, s, hr) = block_fetched fuel evs piece y (blocks n tail ++ z) (omega arith) h (
      e
      ∙ ap (λ k. ((message id_data k ++ piece) ++ blocks n tail) ++ z) (sym len)
      ∙ append_assoc (message id_data (length piece) ++ piece) (blocks n tail) z) in
    let (fuel', r, er, lef, sr, hr') =
      blocks_fetched n fuel rest tail (y ++ piece) z (omega (arith, shorter, pos))
        (omega (arith, shorter, pos)) hr s in
    (
      fuel',
      r,
      turn
          ∙ er
          ∙ ap (fetch_loop fuel' r [])
              (append_assoc y piece tail ∙ ap (λ w. y ++ w) (take-append-drop count (b ∷ x))),
      omega (arith, lef, shorter, pos),
      sr,
      hr',
    )

-- The client has these bytes, and goes on after the end.
abbrev pub Fetches : Bytes → Bytes → Option Fetched → Type 0
Fetches x more o = (rest : List Arrival) × (o ≡ some (fetched x rest)) × (stream rest ≡ more)

end_fetched :
    (fuel : ℕ) (evs : List Arrival) (y more : Bytes)
    → All IsHealthy evs
    → stream evs ≡ message id_done 0 ++ more
    → Fetches y more (fetch_loop (suc fuel) evs [] y)
unfolding fetch_loop
end_fetched fuel evs y more h e =
    let (r, er, s, hr) = readx_front evs 8 (message id_done 0) more h e refl in
    (r, ap (next_message (fetch_loop fuel) [] y) er ∙ done_handled (fetch_loop fuel) y 0 r, s)

pub recv_blocks_fetched :
    (why : Bytes) (fevs : List Arrival) (fuel : ℕ) (evs : List Arrival) (y more : Bytes)
    → All IsHealthy fevs
    → length (stream fevs) < fuel
    → All IsHealthy evs
    → stream evs ≡ recv_blocks why fevs ++ more
    → Fetches (y ++ stream fevs) more (fetch_loop fuel evs [] y)
unfolding recv_blocks
recv_blocks_fetched why fevs zero evs y more hf lt h e = absurd (omega arith)
recv_blocks_fetched why [] (suc fuel) evs y more hf lt h e =
    subst (λ z. Fetches z more (fetch_loop (suc fuel) evs [] y)) (sym (append-nil y))
      (end_fetched fuel evs y more h e)
recv_blocks_fetched why (got [] ∷ fevs) (suc fuel) evs y more hf lt h e = absurd (hf.0 refl)
recv_blocks_fetched why (got (b ∷ x) ∷ fevs) (suc fuel) evs y more hf lt h e =
    let long = length-append (b ∷ x) (stream fevs) in
    let (fuel', rest, er, lef, s, hr) =
      blocks_fetched (length (b ∷ x)) (suc fuel) evs (b ∷ x) y (recv_blocks why fevs ++ more)
        (omega arith) (omega (arith, long)) h
        (e ∙ append_assoc (blocks (length (b ∷ x)) (b ∷ x)) _ _) in
    let (r, ef, sr) =
      recv_blocks_fetched why fevs fuel' rest (y ++ (b ∷ x)) more hf.1 (omega (arith, long, lef)) hr
        s in
    (r, er ∙ ef ∙ ap (λ w. some (fetched w r)) (append_assoc y (b ∷ x) (stream fevs)), sr)
recv_blocks_fetched why (read_failed eintr ∷ fevs) (suc fuel) evs y more hf lt h e =
    recv_blocks_fetched why fevs (suc fuel) evs y more hf.1 lt h e
recv_blocks_fetched why (read_failed eagain ∷ fevs) (suc fuel) evs y more hf lt h e = cc
recv_blocks_fetched why (read_failed other_errno ∷ fevs) (suc fuel) evs y more hf lt h e = cc
