-- ===== src/Sync/Blocks.antt =====
-- One block of a file: what the client sends of it (`write_data_buffer`,
-- ADBTestCE/adb/file_sync_client.cpp) and what the device does with it (`handle_send_file`,
-- ADBTestCE/adb/file_sync_service.c).
use adbtest_ce.Prelude.{
  All, Bytes, List, Option, [], ap, append-nil, append_assoc, arith, drop, drop_of_length, equal,
  le32, length, length-take, refl, some, suc, sym, take, take_of_length, word32, ℕ, ◌++◌, ◌<◌, ◌^◌,
  ◌∙◌, ◌∷◌, ◌≡◌, ◌≤◌,
}
use adbtest_ce.Io.{
  Acceptance, Arrival, Outcome, read_all, readx, write_blocked, write_loop, write_refused, writex,
  written,
}
use adbtest_ce.Io.ReadLoop.{IsHealthy, readx_front, stream}
use adbtest_ce.Io.WriteLoop.{write_loop-append}
use adbtest_ce.Sync.{
  Sending, count_of, id_data, id_done, message, msg_id, msg_size, sync_data_max, then_chunks,
  word_of, write_chunks,
}
use adbtest_ce.Sync.Service.{
  PushResult, Pushed, push_body, push_done, push_loop, push_message, write_data,
}

pub writex_all :
    (ws : List Acceptance) (x : Bytes) → (writex ws x).outcome ≡ written → (writex ws x).sent ≡ x
unfolding writex
writex_all ws x h =
    let (whole, i) = write_loop-append ws x in
    sym (append-nil (write_loop ws x).sent)
    ∙ ap (λ z. (write_loop ws x).sent ++ z) (sym (i.0 h))
    ∙ whole

then_chunks-written :
    (sent : Bytes) (later : List Acceptance) (o : Outcome) (s : Sending)
    → (then_chunks sent later o s).outcome ≡ written
    → (o ≡ written) × (s.outcome ≡ written) × ((then_chunks sent later o s).sent ≡ sent ++ s.sent)
then_chunks-written sent later written s h = (refl, h, refl)
then_chunks-written sent later write_refused s h = cc
then_chunks-written sent later write_blocked s h = cc

pub size_of_message :
    (id : Bytes) (n : ℕ) → length id ≡ 4 → n < 2 ^ 32 → msg_size (message id n) ≡ n
unfolding msg_size word_of
size_of_message id n l small = rw (drop_of_length id (le32 n) l) (word32 n small)

pub id_of_message : (id : Bytes) (n : ℕ) → length id ≡ 4 → msg_id (message id n) ≡ id
unfolding msg_id
id_of_message id n l = take_of_length id (le32 n) l

-- One block: the client's writes ended well, so it has sent the block and the rest.
pub chunk_sent :
    (n : ℕ) (ws : List Acceptance) (b : ℕ) (x : Bytes)
    → (write_chunks (suc n) ws (b ∷ x)).outcome ≡ written
    → let count = count_of (b ∷ x) in
      (ws' : List Acceptance) × ((write_chunks n ws' (drop count (b ∷ x))).outcome ≡ written)
      × ((write_chunks (suc n) ws (b ∷ x)).sent
          ≡ (message id_data count ++ take count (b ∷ x))
            ++ (write_chunks n ws' (drop count (b ∷ x))).sent)
unfolding write_chunks
chunk_sent n ws b x h =
    let count = count_of (b ∷ x) in
    let w = writex ws (message id_data count ++ take count (b ∷ x)) in
    let rest = write_chunks n w.later (drop count (b ∷ x)) in
    let (ow, orest, e) = then_chunks-written w.sent w.later w.outcome rest h in
    (w.later, orest, e ∙ ap (λ z. z ++ rest.sent) (writex_all ws _ ow))

data_message :
    (why : Bytes) (go : List Arrival → Pushed → Option PushResult) (p : Pushed) (n : ℕ)
    (rest : List Arrival)
    → n ≤ sync_data_max
    → push_message why go p (read_all (message id_data n) rest) ≡ push_body why go p (readx rest n)
unfolding equal msg_id
data_message why go p n rest fits =
    let size : msg_size (message id_data n) ≡ n = size_of_message id_data n refl (omega arith) in
    rw size (ground arith)

pub done_message :
    (why : Bytes) (go : List Arrival → Pushed → Option PushResult) (p : Pushed) (n : ℕ)
    (rest : List Arrival)
    → n < 2 ^ 32
    → push_message why go p (read_all (message id_done n) rest) ≡ some (push_done n p rest)
unfolding equal msg_id
done_message why go p n rest fits =
    ap (λ k. some (push_done k p rest)) (size_of_message id_done n refl fits)

-- One block on the device's side.
pub block_stored :
    (why : Bytes) (fuel : ℕ) (evs : List Arrival) (p : Pushed) (piece y : Bytes)
    → length piece ≤ sync_data_max
    → All IsHealthy evs
    → stream evs ≡ (message id_data (length piece) ++ piece) ++ y
    → (rest : List Arrival) × (push_loop why (suc fuel) evs p
        ≡ push_loop why fuel rest (write_data why piece p))
      × (stream rest ≡ y)
      × All IsHealthy rest
unfolding push_loop
block_stored why fuel evs p piece y fits h e =
    let (r₁, e₁, s₁, h₁) =
      readx_front evs 8 (message id_data (length piece)) (piece ++ y) h
        (e ∙ append_assoc (message id_data (length piece)) piece y) refl in
    let (r₂, e₂, s₂, h₂) = readx_front r₁ (length piece) piece y h₁ s₁ refl in
    (
      r₂,
      ap (push_message why (push_loop why fuel) p) e₁
          ∙ data_message why (push_loop why fuel) p (length piece) r₁ fits
          ∙ ap (push_body why (push_loop why fuel) p) e₂,
      s₂,
      h₂,
    )

pub write_data-open :
    (why x y : Bytes) (p : Pushed)
    → p.file ≡ some y
    → p.full ≡ []
    → write_data why x p ≡ record p { file = some (y ++ x) }
unfolding write_data
write_data-open why x y p e f = ground (arith, e, f)

pub count-le :
    (x : Bytes) → (count_of x ≤ sync_data_max) × (length (take (count_of x) x) ≡ count_of x)
count-le x = (ground arith, length-take (count_of x) x ∙ ground arith)

pub count_pos : (b : ℕ) (x : Bytes) → 0 < count_of (b ∷ x)
count_pos b x = ground arith
