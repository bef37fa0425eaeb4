-- ===== src/Listing/Fits.antt =====
-- The buffer of `list_transports` (ADBTestCE/adb/transport.cpp).
use adbtest_ce.Prelude.{
  Bytes, List, [], ap, append-nil, append_assoc, arith, concat, length, length-append, map, refl,
  some, sym, ℕ, ◌++◌, ◌+◌, ◌-◌, ◌<◌, ◌∙◌, ◌∷◌, ◌≡◌, ◌≢◌, ◌≤◌,
}
use adbtest_ce.Listing.{list_lines, list_transports, transport_line, without_last}
use adbtest_ce.Transport.{Atransport}

without_last-length : (s : Bytes) → length (without_last s) ≤ length s
unfolding without_last
without_last-length [] = omega arith
without_last-length (c ∷ []) = omega arith
without_last-length (c ∷ d ∷ s) = omega (arith, without_last-length (d ∷ s))

list_lines-lt :
    (bufsize : ℕ) (lines : List Bytes) (text out : Bytes)
    → length text < bufsize
    → list_lines bufsize lines text ≡ some out
    → length out < bufsize
unfolding list_lines
list_lines-lt bufsize [] text out lt h = ground (arith, h)
list_lines-lt bufsize (line ∷ lines) [] out lt h =
    ground (arith, h, list_lines-lt bufsize lines line out)
list_lines-lt bufsize (line ∷ lines) (c ∷ text) out lt h = ground (
  arith,
  h,
  lt,
  list_lines-lt bufsize lines (without_last (c ∷ text)) out,
  without_last-length (c ∷ text),
  list_lines-lt bufsize lines ((c ∷ text) ++ line) out,
  length-append (c ∷ text) line,
)

-- Lines that fit are put behind each other.
list_lines-append :
    (bufsize : ℕ) (lines more : List Bytes) (text : Bytes)
    → length text + length (concat lines) < bufsize
    → list_lines bufsize (lines ++ more) text ≡ list_lines bufsize more (text ++ concat lines)
unfolding list_lines
list_lines-append bufsize [] more text h = ap (list_lines bufsize more) (sym (append-nil text))
list_lines-append bufsize (line ∷ lines) more text h = ground (
  arith,
  list_lines-append bufsize lines more (text ++ line),
  length-append text line,
  length-append line (concat lines),
  append_assoc text line (concat lines),
)

-- All lines of the listing.
abbrev pub listing : List Atransport → Bytes
listing ts = concat (map transport_line ts)

-- Where `list_transports` keeps its pointer in the buffer, the listing and its NUL fit the buffer.
pub list_transports-lt :
    (bufsize : ℕ) (ts : List Atransport) (out : Bytes)
    → 0 < bufsize
    → list_transports bufsize ts ≡ some out
    → length out < bufsize
unfolding list_transports
list_transports-lt bufsize ts out pos h = list_lines-lt bufsize (map transport_line ts) [] out pos h

map_lines-append :
    (ts us : List Atransport)
    → map transport_line (ts ++ us) ≡ map transport_line ts ++ map transport_line us
map_lines-append [] us = refl
map_lines-append (t ∷ ts) us = ap (◌∷◌ (transport_line t)) (map_lines-append ts us)

-- The loop after the transports whose lines fit.
list_transports-append :
    (bufsize : ℕ) (ts us : List Atransport)
    → length (listing ts) < bufsize
    → list_transports bufsize (ts ++ us) ≡ list_lines bufsize (map transport_line us) (listing ts)
unfolding list_transports
list_transports-append bufsize ts us h =
    ap (λ l. list_lines bufsize l []) (map_lines-append ts us)
    ∙ list_lines-append bufsize (map transport_line ts) (map transport_line us) [] (omega arith)

-- Where all lines and a NUL fit the buffer, the listing is these lines.
pub list_transports-fit :
    (bufsize : ℕ) (ts : List Atransport)
    → length (listing ts) < bufsize
    → list_transports bufsize ts ≡ some (listing ts)
unfolding list_lines
list_transports-fit bufsize ts h =
    ap (list_transports bufsize) (sym (append-nil ts)) ∙ list_transports-append bufsize ts [] h

last_too_long :
    (bufsize : ℕ) (line text : Bytes)
    → bufsize - length text < length line
    → text ≢ []
    → list_lines bufsize (line ∷ []) text ≡ some (without_last text)
unfolding list_lines
last_too_long bufsize line [] h ne = absurd (ne refl)
last_too_long bufsize line (c ∷ text) h ne = ground arith

-- Where the last line is longer than the room that is left, the listing is not that of the other
-- transports, but that without its last byte.
pub list_transports-cut :
    (bufsize : ℕ) (ts : List Atransport) (t : Atransport)
    → length (listing ts) < bufsize
    → bufsize - length (listing ts) < length (transport_line t)
    → listing ts ≢ []
    → list_transports bufsize (ts ++ t ∷ []) ≡ some (without_last (listing ts))
list_transports-cut bufsize ts t h long ne =
    list_transports-append bufsize ts (t ∷ []) h
    ∙ last_too_long bufsize (transport_line t) (listing ts) long ne
