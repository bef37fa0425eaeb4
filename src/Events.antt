-- ===== src/Events.antt =====
-- The event loop of ADBTestCE/adb/sysdeps_win32.cpp: what is wanted of each `fdevent`, the events that
-- wait, and the list of pending ones. The hooks of the handles, which report events, are outside: a
-- report is `event_hook_signal` with the hook's mask. Taking a node out of a list that it is not in
-- is the fault `none`.
pub mod Linked
pub mod Served
mod Examples
use adbtest_ce.Prelude.{
  Bool, List, Option, [], false, if◌then◌else◌, none, not, some, true, ℕ, ◌&&◌, ◌++◌, ◌==◌, ◌||◌,
  ◌∷◌,
}
use adbtest_ce.Sockets.State.{member, remove}

-- The bits of FDE_EVENTMASK.
pub record Mask : Type 0 where
  pub fde_read : Bool
  pub fde_write : Bool
  pub fde_error : Bool
  pub fde_timeout : Bool
  pub fde_dont_close : Bool

abbrev pub no_events : Mask
no_events = record {
  fde_read = false;
  fde_write = false;
  fde_error = false;
  fde_timeout = false;
  fde_dont_close = false;
}

-- `m | k`, and `m & (~k)`.
abbrev pub union : Mask → Mask → Mask
union m k = record {
  fde_read = m.fde_read || k.fde_read;
  fde_write = m.fde_write || k.fde_write;
  fde_error = m.fde_error || k.fde_error;
  fde_timeout = m.fde_timeout || k.fde_timeout;
  fde_dont_close = m.fde_dont_close || k.fde_dont_close;
}

abbrev pub minus : Mask → Mask → Mask
minus m k = record {
  fde_read = m.fde_read && not k.fde_read;
  fde_write = m.fde_write && not k.fde_write;
  fde_error = m.fde_error && not k.fde_error;
  fde_timeout = m.fde_timeout && not k.fde_timeout;
  fde_dont_close = m.fde_dont_close && not k.fde_dont_close;
}

same_bit : Bool → Bool → Bool
same_bit true b = b
same_bit false b = not b

unfoldable pub same_mask : Mask → Mask → Bool
unfolding same_bit
same_mask m k =
    same_bit m.fde_read k.fde_read
    && same_bit m.fde_write k.fde_write
    && same_bit m.fde_error k.fde_error
    && same_bit m.fde_timeout k.fde_timeout
    && same_bit m.fde_dont_close k.fde_dont_close

-- The state bits ACTIVE and PENDING, the event bits of `state`, and `events`.
pub record Fdevent : Type 0 where
  pub active : Bool
  pub pending : Bool
  pub wanted : Mask
  pub events : Mask

pub record Loop : Type 0 where
  pub fdes : ℕ → Fdevent
  pub list_pending : List ℕ

abbrev pub put : ℕ → Fdevent → (ℕ → Fdevent) → ℕ → Fdevent
put f x fdes g = if g == f then x else fdes g

unfoldable pub fdevent_plist_remove : ℕ → List ℕ → Option (List ℕ)
fdevent_plist_remove f l = let rest = remove f l in if member f l then some rest else none

-- The end of `fdevent_set`, for an `x` with its new wants: what waits loses the events `m`.
unfoldable pub unsignal : ℕ → Mask → Fdevent → Loop → Option Loop
unsignal f m x l =
    let y = record x { events = minus x.events m } in
    let idle = record y { pending = false } in
    if same_mask y.events no_events
    then elim (fdevent_plist_remove f l.list_pending) [
      | none ↦ none
      | some rest ↦ some (record { fdes = put f idle l.fdes; list_pending = rest })
    ]
    else some (record l { fdes = put f y l.fdes })

unfoldable pub fdevent_set : ℕ → Mask → Loop → Option Loop
fdevent_set f m l =
    let x = record (l.fdes f) { wanted = m } in
    let shown = unsignal f m x l in
    if same_mask (l.fdes f).wanted m
    then some l
    else if (l.fdes f).pending
    then shown
    else some (record l { fdes = put f x l.fdes })

unfoldable pub fdevent_add : ℕ → Mask → Loop → Option Loop
fdevent_add f m l = fdevent_set f (union (l.fdes f).wanted m) l

unfoldable pub fdevent_del : ℕ → Mask → Loop → Option Loop
fdevent_del f m l = fdevent_set f (minus (l.fdes f).wanted m) l

unfoldable pub event_hook_signal : ℕ → Mask → Loop → Loop
event_hook_signal f m l =
    let x = l.fdes f in
    let y = record x { pending = true; events = union x.events m } in
    record {
      fdes = put f y l.fdes;
      list_pending = if x.pending then l.list_pending else l.list_pending ++ f ∷ [];
    }

-- The node is taken off the list before its state is cleared.
unfoldable pub fdevent_remove : ℕ → Loop → Option Loop
fdevent_remove f l =
    let cleared : Fdevent = record {
      active = false;
      pending = false;
      wanted = no_events;
      events = no_events;
    } in
    if (l.fdes f).pending
    then elim (fdevent_plist_remove f l.list_pending) [
      | none ↦ none
      | some rest ↦ some (record { fdes = put f cleared l.fdes; list_pending = rest })
    ]
    else some (record l { fdes = put f cleared l.fdes })

-- One turn of the inner loop of `fdevent_loop`: the `fdevent` whose function is called, and with
-- which events.
unfoldable pub dispatch_next : Loop → Option (ℕ × Mask × Loop)
dispatch_next l = elim l.list_pending [
  | [] ↦ none
  | f ∷ rest ↦
      let x = l.fdes f in
      let y = record x { events = no_events; pending = false } in
      some (f, x.events, record { fdes = put f y l.fdes; list_pending = rest })
]

-- What happens to the loop, in its order.
pub data Request : Type 0 where
  set_events add_events del_events signal_events : ℕ → Mask → Request
  remove_fde : ℕ → Request
  dispatch : Request

unfoldable pub serve : Request → Loop → Option Loop
serve (set_events f m) l = fdevent_set f m l
serve (add_events f m) l = fdevent_add f m l
serve (del_events f m) l = fdevent_del f m l
serve (signal_events f m) l = some (event_hook_signal f m l)
serve (remove_fde f) l = fdevent_remove f l
serve dispatch l = elim (dispatch_next l) [ none ↦ some l | some (f, m, v) ↦ some v ]

unfoldable pub serve_all : List Request → Loop → Option Loop
serve_all [] l = some l
serve_all (r ∷ rs) l = elim (serve r l) [ none ↦ none | some v ↦ serve_all rs v ]
