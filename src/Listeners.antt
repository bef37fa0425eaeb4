-- ===== src/Listeners.antt =====
-- The listeners of ADBTestCE/adb/adb.cpp, which forward ports of the host: `install_listener`,
-- `remove_listener`, `listener_disconnect` and `free_listener`. Allocation does not fail, and
-- `local_name_to_fd` gives a descriptor or none.
pub mod Installed
mod Examples
use adbtest_ce.Prelude.{
  Bool, Bytes, List, Option, [], codes, equal, false, if◌then◌else◌, none, some, true, ℕ, ◌&&◌,
  ◌==◌, ◌∷◌,
}

-- `waits_at` is the transport in whose list the listener's `disconnect` stands, and `is_smart` says
-- which of the two callbacks its `fde` has.
pub record Alistener : Type 0 where
  pub local_name : Bytes
  pub connect_to : Bytes
  pub transport : Option ℕ
  pub waits_at : Option ℕ
  pub fd : ℕ
  pub is_smart : Bool

unfoldable pub same_transport : Option ℕ → Option ℕ → Bool
same_transport none none = true
same_transport (some t) (some u) = t == u
same_transport _ _ = false

-- `connect_to[0] == '*'`.
unfoldable pub is_special : Bytes → Bool
is_special [] = false
is_special (c ∷ x) = c == b'*'

-- What `install_listener` gives: 0, -1 or -2; `bad_pointer` where it goes through a null pointer.
pub data Installing : Type 0 where
  installed : List Alistener → Installing
  not_repurposed cannot_bind bad_pointer : Installing

-- A listener that gets another target. Where the transport changes, `remove_transport_disconnect` and
-- `add_transport_disconnect` read both the old and the new one.
unfoldable pub rebind : Bytes → Option ℕ → Alistener → Option Alistener
unfolding same_transport
rebind connect_to transport l =
    if same_transport l.transport transport
    then some (record l { connect_to = connect_to })
    else elim l.transport [
      | none ↦ none
      | some _ ↦ elim transport [
        | none ↦ none
        | some t ↦
            some (record l { connect_to = connect_to; transport = some t; waits_at = some t })
      ]
    ]

abbrev pub new_listener : Bytes → Bytes → Option ℕ → ℕ → Alistener
new_listener local_name connect_to transport fd = record {
  local_name = local_name;
  connect_to = connect_to;
  transport = transport;
  waits_at = transport;
  fd = fd;
  is_smart = equal connect_to (codes "*smartsocket*");
}

abbrev pub behind : Alistener → Installing → Installing
behind l (installed ls) = installed (l ∷ ls)
behind l other = other

-- The first listener of the name is rebound; without one, a new listener goes to the end.
unfoldable pub install_listener : Option ℕ → Bytes → Bytes → Option ℕ → List Alistener → Installing
unfolding is_special
install_listener fd local_name connect_to transport [] = elim fd [
  | none ↦ cannot_bind
  | some n ↦ installed (new_listener local_name connect_to transport n ∷ [])
]
install_listener fd local_name connect_to transport (l ∷ ls) =
    let later = install_listener fd local_name connect_to transport ls in
    if equal local_name l.local_name
    then if is_special l.connect_to then not_repurposed else elim (rebind connect_to transport l) [
      | none ↦ bad_pointer
      | some l' ↦ installed (l' ∷ ls)
    ]
    else behind l later

abbrev pub names_transport : Option ℕ → Option ℕ → Bool
names_transport none _ = false
names_transport (some u) transport = same_transport (some u) transport

-- The first listener with the name, the target and the transport is freed; none is -1.
unfoldable pub remove_listener : Bytes → Bytes → Option ℕ → List Alistener → Option (List Alistener)
unfolding same_transport
remove_listener local_name connect_to transport [] = none
remove_listener local_name connect_to transport (l ∷ ls) =
    let later = remove_listener local_name connect_to transport ls in
    if equal local_name l.local_name
      && equal connect_to l.connect_to
      && names_transport l.transport transport
    then some ls
    else elim later [ none ↦ none | some ls' ↦ some (l ∷ ls') ]

-- When the transport goes away, each listener that waits for that is freed by
-- `listener_disconnect`.
unfoldable pub transport_lost : ℕ → List Alistener → List Alistener
unfolding same_transport
transport_lost t [] = []
transport_lost t (l ∷ ls) =
    let later = transport_lost t ls in
    if same_transport l.waits_at (some t) then later else l ∷ later
