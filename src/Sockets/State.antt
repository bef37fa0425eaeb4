-- ===== src/Sockets/State.antt =====
-- `asocket` (ADBTestCE/adb/adb.h), the two lists of local sockets, their ids, and the elementary
-- operations on them.
use adbtest_ce.Prelude.{
  Bool, Bool-cases, Bytes, List, Option, [], arith, false, if◌then◌else◌, inl, inr, none, refl,
  some, true, ℕ, ◌%◌, ◌++◌, ◌+◌, ◌==◌, ◌^◌, ◌||◌, ◌∷◌, ◌≡◌, ◌≢◌, ◌⊎◌,
}

pub data EnqueueFunc : Type 0 where
  local_socket_enqueue remote_socket_enqueue smart_socket_enqueue : EnqueueFunc

pub data ReadyFunc : Type 0 where
  local_socket_ready local_socket_ready_notify remote_socket_ready smart_socket_ready : ReadyFunc

pub data CloseFunc : Type 0 where
  local_socket_close local_socket_close_notify remote_socket_close smart_socket_close : CloseFunc

-- `reads` and `writes` are FDE_READ and FDE_WRITE of the socket's `fde`; `pkts` is the queue from
-- `pkt_first` to `pkt_last`, each packet as the bytes from `ptr` that are still to go.
pub record Asocket : Type 0 where
  pub id : ℕ
  pub closing : Bool
  pub exit_on_close : Bool
  pub peer : Option ℕ
  pub fd : ℕ
  pub reads : Bool
  pub writes : Bool
  pub pkts : List Bytes
  pub enqueue : EnqueueFunc
  pub ready : ReadyFunc
  pub close : CloseFunc
  pub transport : Option ℕ

pub data Command : Type 0 where
  a_sync a_cnxn a_open a_okay a_clse a_wrte : Command

-- A packet that was given to `send_packet`.
pub record Outgoing : Type 0 where
  pub command : Command
  pub arg0 : ℕ
  pub arg1 : ℕ
  pub payload : Bytes
  pub via : Option ℕ

-- The heap; the next pointer that `calloc` gives; the lists and the id counter of the file; the
-- remote sockets that wait for a transport to be disconnected; and what went out, newest last:
-- packets, and bytes for the descriptors.
pub record State : Type 0 where
  pub cell : ℕ → Option Asocket
  pub break : ℕ
  pub local_socket_list : List ℕ
  pub local_socket_closing_list : List ℕ
  pub local_socket_next_id : ℕ
  pub disconnects : List ℕ
  pub packets : List Outgoing
  pub told : List (ℕ × Bytes)
  pub exited : Bool

abbrev pub update : (ℕ → Option Asocket) → ℕ → Option Asocket → ℕ → Option Asocket
update cell s v q = if q == s then v else cell q

abbrev pub store : ℕ → Asocket → State → State
store s a w = record w { cell = update w.cell s (some a) }

abbrev pub free : ℕ → State → State
free s w = record w { cell = update w.cell s none }

unfoldable pub member : ℕ → List ℕ → Bool
member s [] = false
member s (q ∷ l) = q == s || member s l

unfoldable pub remove : ℕ → List ℕ → List ℕ
remove s [] = []
remove s (q ∷ l) = if q == s then remove s l else q ∷ remove s l

-- `s->prev && s->next`: the socket is in one of the two lists.
abbrev pub linked : ℕ → State → Bool
linked s w = member s w.local_socket_list || member s w.local_socket_closing_list

-- `remove_socket`, for the socket `a` at `s`.
unfoldable pub remove_socket : ℕ → Asocket → State → State
remove_socket s a w =
    if linked s w
    then record w {
      cell = update w.cell s (some (record a { id = 0 }));
      local_socket_list = remove s w.local_socket_list;
      local_socket_closing_list = remove s w.local_socket_closing_list;
    }
    else w

-- `install_local_socket`: the id counter is a 32-bit `unsigned`; new sockets go to the end.
unfoldable pub install_local_socket : ℕ → Asocket → State → State
install_local_socket s a w = record w {
  cell = update w.cell s (some (record a { id = w.local_socket_next_id }));
  local_socket_list = w.local_socket_list ++ s ∷ [];
  local_socket_next_id = (w.local_socket_next_id + 1) % 2 ^ 32;
}

-- `find_local_socket`: the first socket of the list with that id. A freed socket in the list would be
-- a fault.
unfoldable pub find_in : ℕ → (ℕ → Option Asocket) → List ℕ → Option (Option ℕ)
find_in id cell [] = some none
find_in id cell (s ∷ l) =
    let later = find_in id cell l in
    elim (cell s) [ none ↦ none | some a ↦ if a.id == id then some (some s) else later ]

unfoldable pub find_local_socket : ℕ → State → Option (Option ℕ)
unfolding find_in
find_local_socket id w = find_in id w.cell w.local_socket_list

abbrev pub send : Outgoing → State → State
send p w = record w { packets = w.packets ++ p ∷ [] }

abbrev pub tell : ℕ → Bytes → State → State
tell fd x w = record w { told = w.told ++ (fd, x) ∷ [] }

pub member-remove :
    (s q : ℕ) (l : List ℕ) → member q (remove s l) ≡ true → (member q l ≡ true) × (q ≢ s)
unfolding member remove
member-remove s q [] h = cc
member-remove s q (r ∷ l) h = ground (arith, member-remove s q l)

pub member_ne : (s q : ℕ) (l : List ℕ) → member s l ≡ false → member q l ≡ true → q ≢ s
member_ne s q l no_s yes_q = λ e. ground (arith, no_s, yes_q, e)

pub member-concat :
    (s q : ℕ) (l : List ℕ) → member q (l ++ s ∷ []) ≡ true → (member q l ≡ true) ⊎ (s ≡ q)
unfolding member
member-concat s q [] h = ground arith
member-concat s q (r ∷ l) h = ground (arith, member-concat s q l)

-- No socket is twice in the list.
unfoldable pub Distinct : List ℕ → Type 0
Distinct [] = Unit
Distinct (s ∷ l) = (member s l ≡ false) × Distinct l

absent-remove : (s q : ℕ) (l : List ℕ) → member q l ≡ false → member q (remove s l) ≡ false
unfolding member remove
absent-remove s q [] h = refl
absent-remove s q (r ∷ l) h = ground (arith, absent-remove s q l)

pub Distinct-remove : (s : ℕ) (l : List ℕ) → Distinct l → Distinct (remove s l)
unfolding remove Distinct
Distinct-remove s [] d = d
Distinct-remove s (q ∷ l) d = elim (Bool-cases (q == s)) [
  | inl at ↦ rw at (Distinct-remove s l d.1)
  | inr other ↦ rw other ((absent-remove s q l d.0, Distinct-remove s l d.1))
]

absent-concat : (s q : ℕ) (l : List ℕ) → member q l ≡ false → q ≢ s → member q (l ++ s ∷ []) ≡ false
unfolding member
absent-concat s q [] h n = ground (arith, n)
absent-concat s q (r ∷ l) h n = ground (arith, absent-concat s q l, n)

pub Distinct-concat :
    (s : ℕ) (l : List ℕ) → member s l ≡ false → Distinct l → Distinct (l ++ s ∷ [])
unfolding member Distinct
Distinct-concat s [] h d = (refl, d)
Distinct-concat s (q ∷ l) h d =
    (absent-concat s q l d.0 (ground (arith, h)), Distinct-concat s l (ground (arith, h)) d.1)

-- In a list of live sockets the search ends, and finds a socket of the list with the id.
pub find_in-member :
    (id : ℕ) (cell : ℕ → Option Asocket) (l : List ℕ)
    → ((q : ℕ) → member q l ≡ true → (a : Asocket) × (cell q ≡ some a))
    → (find_in id cell l ≡ some none)
      ⊎ ((s : ℕ) × (find_in id cell l ≡ some (some s)) × (member s l ≡ true))
unfolding find_in member
find_in-member id cell [] live = inl refl
find_in-member id cell (s ∷ l) live =
    let (a, e) = live s (ground arith) in
    let later = find_in-member id cell l (λ q m. live q (ground (arith, m))) in
    elim (Bool-cases (a.id == id)) [
      | inl found ↦ inr (s, ground (arith, e), ground arith)
      | inr other ↦ elim later [
        | inl absent ↦ inl (ground (arith, e))
        | inr (r, er, mr) ↦ inr (r, ground (arith, e, er), ground (arith, mr))
      ]
    ]
