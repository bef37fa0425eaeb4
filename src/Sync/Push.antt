-- ===== src/Sync/Push.antt =====
-- A file that is sent is the file that is stored: `write_data_buffer`
-- (ADBTestCE/adb/file_sync_client.cpp) and `handle_send_file` (ADBTestCE/adb/file_sync_service.c).
use adbtest_ce.Prelude.{
  All, Bool, Bytes, List, Option, [], ap, append-nil, append_assoc, arith, drop, length,
  length-append, length-drop, none, refl, some, suc, sym, take, take-append-drop, zero, ℕ, ◌++◌,
  ◌<◌, ◌^◌, ◌∙◌, ◌∷◌, ◌≡◌, ◌≤◌,
}
use adbtest_ce.Io.{Acceptance, Arrival, written}
use adbtest_ce.Io.ReadLoop.{IsHealthy, readx_front, stream}
use adbtest_ce.Sync.{count_of, id_data, id_done, id_okay, message, write_chunks, write_data_buffer}
use adbtest_ce.Sync.Service.{
  Opening, Openings, PushResult, Pushed, contents, created, handle_send_file, not_opened, open_push,
  opened_file, push_done, push_loop, push_message, received, reopened, start_push,
}
use adbtest_ce.Sync.Blocks.{
  block_stored, chunk_sent, count-le, count_pos, done_message, write_data-open,
}

-- The device has stored the bytes, has answered that all is well, and goes on after the end.
abbrev pub Stores : Bytes → ℕ → Bytes → Pushed → Option PushResult → Type 0
Stores x mtime more p o =
    (rest : List Arrival) × (o
      ≡ some (record {
        end = received mtime;
        pushed = record p { file = some x; replied = p.replied ++ message id_okay 0 };
        rest = rest;
      }))
    × (stream rest ≡ more)

push_done-open :
    (mtime : ℕ) (p : Pushed) (y : Bytes) (rest : List Arrival)
    → p.file ≡ some y
    → push_done mtime p rest ≡ record {
      end = received mtime;
      pushed = record p { file = some y; replied = p.replied ++ message id_okay 0 };
      rest = rest;
    }
unfolding push_done
push_done-open mtime p y rest e = ground (arith, e)

end_stored :
    (why : Bytes) (fuel : ℕ) (evs : List Arrival) (p : Pushed) (y more : Bytes) (mtime : ℕ)
    → All IsHealthy evs
    → stream evs ≡ message id_done mtime ++ more
    → mtime < 2 ^ 32
    → p.file ≡ some y
    → Stores y mtime more p (push_loop why (suc fuel) evs p)
unfolding push_loop
end_stored why fuel evs p y more mtime h e small f =
    let (r, er, s, hr) = readx_front evs 8 (message id_done mtime) more h e refl in
    (
      r,
      ap (push_message why (push_loop why fuel) p) er
          ∙ done_message why (push_loop why fuel) p mtime r small
          ∙ ap some (push_done-open mtime p y r f),
      s,
    )

push_loop-chunks :
    (n fuel : ℕ) (ws : List Acceptance) (x y more why : Bytes) (mtime : ℕ) (evs : List Arrival)
    (p : Pushed)
    → length x ≤ n
    → n < fuel
    → (write_chunks n ws x).outcome ≡ written
    → All IsHealthy evs
    → stream evs ≡ (write_chunks n ws x).sent ++ (message id_done mtime ++ more)
    → mtime < 2 ^ 32
    → p.file ≡ some y
    → p.full ≡ []
    → Stores (y ++ x) mtime more p (push_loop why fuel evs p)
unfolding write_chunks
push_loop-chunks n zero ws x y more why mtime evs p le lt o h e small f u = absurd (omega arith)
push_loop-chunks zero (suc fuel) ws [] y more why mtime evs p le lt o h e small f u =
    end_stored why fuel evs p (y ++ []) more mtime h e small (f ∙ ap some (sym (append-nil y)))
push_loop-chunks zero (suc fuel) ws (b ∷ x) y more why mtime evs p le lt o h e small f u =
    absurd (omega arith)
push_loop-chunks (suc n) (suc fuel) ws [] y more why mtime evs p le lt o h e small f u =
    end_stored why fuel evs p (y ++ []) more mtime h e small (f ∙ ap some (sym (append-nil y)))
push_loop-chunks (suc n) (suc fuel) ws (b ∷ x) y more why mtime evs p le lt o h e small f u =
    let count = count_of (b ∷ x) in
    let piece = take count (b ∷ x) in
    let (fits, len) = count-le (b ∷ x) in
    let (ws', o', sent) = chunk_sent n ws b x o in
    let (rest, turn, s, hr) = block_stored why fuel evs p piece _ (omega arith) h (
      e
      ∙ ap (λ z. z ++ (message id_done mtime ++ more))
          (sent
            ∙ ap
                (λ k.
                  (message id_data k ++ piece) ++ (write_chunks n ws' (drop count (b ∷ x))).sent)
                (sym len))
      ∙ append_assoc (message id_data (length piece) ++ piece) _ _) in
    let opened = write_data-open why piece y p f u in
    let p' : Pushed = record p { file = some (y ++ piece) } in
    let (r, er, sr) =
      push_loop-chunks n fuel ws' (drop count (b ∷ x)) (y ++ piece) more why mtime rest p'
        (omega (arith, length-drop count (b ∷ x), count_pos b x)) (omega arith) o' hr s small refl
        u in
    (
      r,
      turn
          ∙ ap (push_loop why fuel rest) opened
          ∙ er
          ∙ ap
              (λ z. some (
                let res : PushResult = record {
                  end = received mtime;
                  pushed = record p { file = some z; replied = p.replied ++ message id_okay 0 };
                  rest = r;
                } in
                res))
              (append_assoc y piece (drop count (b ∷ x))
                ∙ ap (λ z. y ++ z) (take-append-drop count (b ∷ x))),
      sr,
    )

-- A message takes eight bytes, and a block has one byte at least.
chunks-length :
    (n : ℕ) (ws : List Acceptance) (x : Bytes)
    → length x ≤ n
    → (write_chunks n ws x).outcome ≡ written
    → length x ≤ length (write_chunks n ws x).sent
unfolding write_chunks
chunks-length zero ws [] le o = omega arith
chunks-length zero ws (b ∷ x) le o = absurd (omega arith)
chunks-length (suc n) ws [] le o = omega arith
chunks-length (suc n) ws (b ∷ x) le o =
    let count = count_of (b ∷ x) in
    let (ws', o', sent) = chunk_sent n ws b x o in
    let tail = drop count (b ∷ x) in
    omega (
      arith,
      ap length sent,
      length-append (message id_data count ++ take count (b ∷ x)) (write_chunks n ws' tail).sent,
      length-append (message id_data count) (take count (b ∷ x)),
      (count-le (b ∷ x)).1,
      count_pos b x,
      length-drop count (b ∷ x),
      chunks-length n ws' tail (omega (arith, length-drop count (b ∷ x), count_pos b x)) o',
    )

-- What is in the file at its opening.
abbrev pub kept_by : Opening → Option Bytes
kept_by created = some []
kept_by (reopened old) = some old
kept_by not_opened = none

kept_start :
    (why : Bytes) (full : List Bool) (old : Bytes) (o : Opening)
    → kept_by o ≡ some old
    → start_push why full o ≡ opened_file old full
kept_start why full old created e = cc
kept_start why full old (reopened x) e = cc
kept_start why full old not_opened e = cc

-- The whole handler, as the loop leaves it.
pub push-Stores :
    (ws : List Acceptance) (x old more why : Bytes) (o : Openings) (mtime : ℕ) (evs : List Arrival)
    → kept_by (open_push o) ≡ some old
    → (write_data_buffer ws x).outcome ≡ written
    → All IsHealthy evs
    → stream evs ≡ (write_data_buffer ws x).sent ++ (message id_done mtime ++ more)
    → mtime < 2 ^ 32
    → Stores x mtime more (opened_file old []) (handle_send_file why o [] evs)
unfolding handle_send_file write_data_buffer
push-Stores ws x old more why opening mtime evs k o h e small =
    rw (kept_start why [] old (open_push opening) k) (
      push_loop-chunks (length x) (suc (length (stream evs))) ws x [] more why mtime evs
        (opened_file old []) (omega arith)
        (omega (
          arith,
          chunks-length (length x) ws x (omega arith) o,
          ap length e,
          length-append (write_chunks (length x) ws x).sent (message id_done mtime ++ more),
        ))
        o h e small refl refl)

-- The client sends a file's bytes with its time, and all writes end well; the device gets the bytes of
-- its stream in any pieces, opens the file by one of its three calls, and has room for it: the device's
-- file then has these bytes, with nothing behind them where it is new and with what lay behind them where
-- an old file was opened; the client is told OKAY, and the stream goes on behind the last message.
pub handle_send_file-write_data_buffer :
    (ws : List Acceptance) (x old more why : Bytes) (o : Openings) (mtime : ℕ) (evs : List Arrival)
    → kept_by (open_push o) ≡ some old
    → (write_data_buffer ws x).outcome ≡ written
    → All IsHealthy evs
    → stream evs ≡ (write_data_buffer ws x).sent ++ (message id_done mtime ++ more)
    → mtime < 2 ^ 32
    → (r : PushResult) × (handle_send_file why o [] evs ≡ some r)
      × (r.end ≡ received mtime)
      × (contents r.pushed ≡ some (x ++ drop (length x) old))
      × (r.pushed.replied ≡ message id_okay 0)
      × (stream r.rest ≡ more)
unfolding contents
handle_send_file-write_data_buffer ws x old more why opening mtime evs k o h e small =
    let (rest, eq, s) = push-Stores ws x old more why opening mtime evs k o h e small in
    (_, eq, refl, refl, refl, s)
