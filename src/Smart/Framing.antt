-- ===== src/Smart/Framing.antt =====
-- `smart_socket_enqueue` (ADBTestCE/adb/sockets.cpp) on the packets of a client's request.
use adbtest_ce.Prelude.{
  Bool-cases, Bytes, List, [], ap, append-nil, append_assoc, arith, concat, drop, drop_of_length,
  inl, inr, length, length-append, ltb, none, refl, some, sym, take, take_append_of_le, take_of_le,
  take_of_length, ◌++◌, ◌+◌, ◌<◌, ◌∙◌, ◌∷◌, ◌≡◌, ◌≤◌, ◌⊎◌,
}
use adbtest_ce.Smart.{decode, feed_request, feed_wait, smart_feed, smart_feed_all}
use adbtest_ce.Wire.{connect_request, hex4, unhex}
use adbtest_ce.Wire.Hex.{length-hex4, unhex-hex4}
use adbtest_ce.Packet.{max_payload}

-- `d` is the front of the frame of `service`, which `more` completes.
module _ (service d more : Bytes) (low : 1 ≤ length service) (high : length service ≤ 1024)
    (e : d ++ more ≡ hex4 (length service) ++ service) where
  front_length : length d + length more ≡ 4 + length service
  front_length = omega (
    arith,
    ap length e,
    length-append d more,
    length-append (hex4 (length service)) service,
    length-hex4 (length service),
  )

  front_header : 4 ≤ length d → unhex (take 4 d) ≡ length service
  front_header h =
      ap unhex (
        sym (take_append_of_le 4 d more h)
        ∙ ap (take 4) e
        ∙ take_of_length (hex4 (length service)) service (length-hex4 (length service)))
      ∙ unhex-hex4 (length service) (omega arith)

  decode_early : 0 < length more → decode d ≡ feed_wait d
  unfolding decode
  decode_early h = elim (Bool-cases (ltb (length d) 4)) [
    | inl short ↦ rw short
    | inr long ↦ ground (arith, front_header (ground arith), front_length)
  ]

  body_whole : more ≡ [] → take (length service) (drop 4 d) ≡ service
  body_whole h =
      ap (λ z. take (length service) (drop 4 z)) (sym (append-nil d) ∙ ap (◌++◌ d) (sym h) ∙ e)
      ∙ ap (take (length service))
          (drop_of_length (hex4 (length service)) service (length-hex4 (length service)))
      ∙ take_of_le (length service) service (omega arith)

  decode_whole : more ≡ [] → decode d ≡ feed_request service
  unfolding decode
  decode_whole h = ground (
    arith,
    front_header (omega (arith, front_length, ap length h)),
    front_length,
    ap length h,
    body_whole h,
  )

  -- What a packet up to `d` leads to.
  decode_step : (decode d ≡ feed_wait d) × (0 < length more) ⊎ (decode d ≡ feed_request service)
  decode_step = go more refl
    where
      go :
          (m : Bytes)
          → more ≡ m
          → (decode d ≡ feed_wait d) × (0 < length more) ⊎ (decode d ≡ feed_request service)
      go [] h = inr (decode_whole h)
      go (c ∷ m) h =
          let left : 0 < length more = rw h (omega arith) in inl (decode_early left, left)

smart_feed_append :
    (q p : Bytes) → length q + length p ≤ max_payload → smart_feed (some q) p ≡ decode (q ++ p)
unfolding smart_feed
smart_feed_append q p h = ground arith

-- The packets that are still to come lead to the request.
smart_feed_all_rest :
    (service : Bytes) (ps : List Bytes) (q : Bytes)
    → 1 ≤ length service
    → length service ≤ 1024
    → q ++ concat ps ≡ hex4 (length service) ++ service
    → 0 < length (concat ps)
    → smart_feed_all (some q) ps ≡ some (feed_request service)
unfolding smart_feed_all
smart_feed_all_rest service [] q low high e h = absurd (omega arith)
smart_feed_all_rest service (p ∷ ps) q low high e h =
    let e' = append_assoc q p (concat ps) ∙ e in
    let fed =
      smart_feed_append q p
        (omega (arith, length-append q p, front_length service (q ++ p) (concat ps) low high e')) in
    elim (decode_step service (q ++ p) (concat ps) low high e') [
      | inl (wait, left) ↦
          rw (fed, wait, smart_feed_all) (smart_feed_all_rest service ps (q ++ p) low high e' left)
      | inr found ↦ rw (fed, found, smart_feed_all)
    ]

smart_feed_all_first :
    (service : Bytes) (ps : List Bytes)
    → 1 ≤ length service
    → length service ≤ 1024
    → concat ps ≡ hex4 (length service) ++ service
    → smart_feed_all none ps ≡ some (feed_request service)
unfolding smart_feed_all smart_feed
smart_feed_all_first service [] low high e =
    absurd (omega (arith, ap length e, length-append (hex4 (length service)) service))
smart_feed_all_first service (p ∷ ps) low high e =
    elim (decode_step service p (concat ps) low high e) [
      | inl (wait, left) ↦
          rw (wait, smart_feed_all) (smart_feed_all_rest service ps p low high e left)
      | inr found ↦ rw (found, smart_feed_all)
    ]

connect_request-bounds :
    (service request : Bytes)
    → connect_request service ≡ some request
    → (1 ≤ length service) × (length service ≤ 1024) × (request ≡ hex4 (length service) ++ service)
unfolding connect_request
connect_request-bounds service request h = ground arith

-- However a client's request is cut into packets, the smart socket finds the service that
-- `_adb_connect` was called with.
pub smart_feed_all-connect_request :
    (service request : Bytes) (ps : List Bytes)
    → connect_request service ≡ some request
    → concat ps ≡ request
    → smart_feed_all none ps ≡ some (feed_request service)
smart_feed_all-connect_request service request ps h e =
    let (low, high, eq) = connect_request-bounds service request h in
    smart_feed_all_first service ps low high (e ∙ eq)
