-- ===== src/Pair/Steps.antt =====
-- The two ends of a pair (`adb_socketpair`, `_fh_socketpair_read`, `_fh_socketpair_write` and
-- `_fh_socketpair_close` of ADBTestCE/adb/sysdeps_win32.cpp), used in any order.
pub mod Order
use mathlib.Core.Path.{subst}
use adbtest_ce.Prelude.{Bool, Bytes, List, [], false, if◌then◌else◌, take, true, ℕ, ◌++◌, ◌∷◌}
use adbtest_ce.Pair.{
  BipBuffer, bip_buffer_close, bip_buffer_init, bip_buffer_read, bip_buffer_write, moved,
}

-- One direction: its buffer, and what was written to it and read from it so far.
pub record Line : Type 0 where
  pub bip : BipBuffer
  pub written : Bytes
  pub was_read : Bytes

unfoldable pub line_write : Bytes → Line → Line
line_write src l = elim (bip_buffer_write l.bip src) [
  | moved (b, k) ↦ record l { bip = b; written = l.written ++ take k src }
  | _ ↦ l
]

unfoldable pub line_read : ℕ → Line → Line
line_read len l = elim (bip_buffer_read l.bip len) [
  | moved (b, x) ↦ record l { bip = b; was_read = l.was_read ++ x }
  | _ ↦ l
]

unfoldable pub line_close : Line → Line
line_close l = record l { bip = bip_buffer_close l.bip }

-- The two descriptors keep the pair until they are closed.
pub record SocketPair : Type 0 where
  pub a2b : Line
  pub b2a : Line
  pub a_used : Bool
  pub b_used : Bool

abbrev pub new_line : (ℕ → ℕ) → Line
new_line buff = record { bip = bip_buffer_init buff; written = []; was_read = [] }

-- The arrays come from `malloc`, with any content.
unfoldable pub adb_socketpair : (ℕ → ℕ) → (ℕ → ℕ) → SocketPair
adb_socketpair f g = record { a2b = new_line f; b2a = new_line g; a_used = true; b_used = true }

-- A call on one of the two descriptors; the first one is `a_fd`.
pub data End : Type 0 where
  a_fd b_fd : End

pub data PairUse : Type 0 where
  pair_write : End → Bytes → PairUse
  pair_read : End → ℕ → PairUse
  pair_close : End → PairUse

-- Where the descriptor has the pair.
unfoldable pub use_open : PairUse → SocketPair → SocketPair
use_open (pair_write a_fd buf) p = record p { a2b = line_write buf p.a2b }
use_open (pair_write b_fd buf) p = record p { b2a = line_write buf p.b2a }
use_open (pair_read a_fd len) p = record p { b2a = line_read len p.b2a }
use_open (pair_read b_fd len) p = record p { a2b = line_read len p.a2b }
use_open (pair_close a_fd) p = record p {
  a2b = line_close p.a2b;
  b2a = line_close p.b2a;
  a_used = false;
}
use_open (pair_close b_fd) p = record p {
  a2b = line_close p.a2b;
  b2a = line_close p.b2a;
  b_used = false;
}

abbrev pub has_pair : PairUse → SocketPair → Bool
has_pair (pair_write a_fd _) p = p.a_used
has_pair (pair_read a_fd _) p = p.a_used
has_pair (pair_close a_fd) p = p.a_used
has_pair _ p = p.b_used

-- `if (!pair) return -1`.
unfoldable pub use_pair : PairUse → SocketPair → SocketPair
use_pair u p = let q = use_open u p in if has_pair u p then q else p

unfoldable pub use_all : List PairUse → SocketPair → SocketPair
use_all [] p = p
use_all (u ∷ us) p = use_all us (use_pair u p)
