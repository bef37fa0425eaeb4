-- ===== src/Sockets/Serve/Drain.antt =====
-- What `local_socket_event_func` (ADBTestCE/adb/sockets.cpp) writes from a socket's queue.
use mathlib.Core.Path.{subst}
use adbtest_ce.Prelude.{
  Bytes, List, [], ap, append_assoc, arith, concat, drop, length, length-append, refl, suc, sym,
  take, take-append-drop, take_of_length, zero, ◌++◌, ◌-◌, ◌∙◌, ◌∷◌, ◌≡◌,
}
use adbtest_ce.Io.{Acceptance, eagain, eintr, other_errno, write_failed, wrote}
use adbtest_ce.Sockets.Serve.{
  Drained, FlushEnd, broken, drain, flush_queued, flushed, gone, would_block,
}

-- What a write loop leaves is an end of the packet.
flush-suffix :
    (ws : List Acceptance) (x : Bytes) → (p : Bytes) × (x ≡ p ++ (flush_queued ws x).left)
unfolding flush_queued
flush-suffix ws [] = ([], refl)
flush-suffix [] (b ∷ x) = ([], refl)
flush-suffix (write_failed eagain ∷ ws) (b ∷ x) = ([], refl)
flush-suffix (write_failed eintr ∷ ws) (b ∷ x) = flush-suffix ws (b ∷ x)
flush-suffix (write_failed other_errno ∷ ws) (b ∷ x) = ([], refl)
flush-suffix (wrote zero ∷ ws) (b ∷ x) = ([], refl)
flush-suffix (wrote (suc r) ∷ ws) (b ∷ x) =
    let (p, e) = flush-suffix ws (drop r x) in
    (
      b ∷ (take r x ++ p),
      ap (◌∷◌ b) (
          sym (take-append-drop r x)
          ∙ ap (◌++◌ (take r x)) e
          ∙ sym (append_assoc (take r x) p (flush_queued ws (drop r x)).left)),
    )

gone-left :
    (ws : List Acceptance) (x : Bytes)
    → gone x (flush_queued ws x).left ++ (flush_queued ws x).left ≡ x
gone-left ws x =
    let y = (flush_queued ws x).left in
    let (p, e) = flush-suffix ws x in
    let n : length p ≡ length x - length y = omega (arith, ap length e, length-append p y) in
    ap (λ z. take (length x - length y) z ++ y) e ∙ ap (λ z. z ++ y) (take_of_length p y n) ∙ sym e

-- The bytes that went out and those of the queue that is left are the bytes of the queue, and
-- where the loop ends well, the queue is empty.
abbrev IsSplit : List Bytes → Drained → Type 0
IsSplit xs d =
    (d.delivered ++ concat d.queue_left ≡ concat xs) × (d.end ≡ flushed → d.queue_left ≡ [])

abbrev stopped : List Acceptance → Bytes → List Bytes → FlushEnd → Drained
stopped ws x xs why = record {
  queue_left = (flush_queued ws x).left ∷ xs;
  end = why;
  delivered = gone x (flush_queued ws x).left;
}

split_stopped :
    (ws : List Acceptance) (x : Bytes) (xs : List Bytes)
    → gone x (flush_queued ws x).left ++ ((flush_queued ws x).left ++ concat xs) ≡ x ++ concat xs
split_stopped ws x xs =
    sym (append_assoc (gone x (flush_queued ws x).left) _ (concat xs))
    ∙ ap (λ z. z ++ concat xs) (gone-left ws x)

drain_step :
    (ws : List Acceptance) (x : Bytes) (xs : List Bytes) (k : FlushEnd)
    → (flush_queued ws x).why ≡ k
    → IsSplit xs (drain (flush_queued ws x).later xs)
    → IsSplit (x ∷ xs) (drain ws (x ∷ xs))
unfolding drain
drain_step ws x xs flushed h (e, f) =
    let later = drain (flush_queued ws x).later xs in
    let d : Drained = record later { delivered = x ++ later.delivered } in
    let eq : drain ws (x ∷ xs) ≡ d = rw (h, drain) in
    subst (IsSplit (x ∷ xs)) (sym eq) (append_assoc x _ _ ∙ ap (◌++◌ x) e, f)
drain_step ws x xs would_block h _ =
    let d = stopped ws x xs would_block in
    let eq : drain ws (x ∷ xs) ≡ d = rw (h, drain) in
    subst (IsSplit (x ∷ xs)) (sym eq) (split_stopped ws x xs, λ k. cc)
drain_step ws x xs broken h _ =
    let d = stopped ws x xs broken in
    let eq : drain ws (x ∷ xs) ≡ d = rw (h, drain) in
    subst (IsSplit (x ∷ xs)) (sym eq) (split_stopped ws x xs, λ k. cc)

-- Whatever the writes give, the bytes that go out, followed by those of the queue that is left,
-- are the bytes of the queue: none is lost, doubled or moved. Where the loop ends well, the queue is
-- empty.
pub drain-concat :
    (ws : List Acceptance) (xs : List Bytes)
    → ((drain ws xs).delivered ++ concat (drain ws xs).queue_left ≡ concat xs)
      × ((drain ws xs).end ≡ flushed → (drain ws xs).queue_left ≡ [])
unfolding drain
drain-concat ws [] = (refl, λ h. refl)
drain-concat ws (x ∷ xs) =
    drain_step ws x xs (flush_queued ws x).why refl (drain-concat (flush_queued ws x).later xs)
