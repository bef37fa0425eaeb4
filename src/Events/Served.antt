-- ===== src/Events/Served.antt =====
-- Sequences of requests to the loop of ADBTestCE/adb/sysdeps_win32.cpp, and `fdevent_add` of a
-- pending `fdevent`.
use adbtest_ce.Prelude.{List, [], arith, false, refl, some, true, ℕ, ◌∙◌, ◌∷◌, ◌≡◌}
use adbtest_ce.Sockets.State.{remove}
use adbtest_ce.Events.{
  Fdevent, Loop, Mask, Request, add_events, del_events, dispatch, event_hook_signal, fdevent_add,
  fdevent_del, minus, no_events, put, remove_fde, same_mask, serve, serve_all, set_events,
  signal_events, union, unsignal,
}
use adbtest_ce.Events.Linked.{
  IsLinked, Keeps, dispatch-Keeps, plist_remove_pending, remove-Keeps, set-Keeps, set_waiting,
  signal-IsLinked,
}

serve-Keeps : (r : Request) (l : Loop) → IsLinked l → Keeps (serve r l)
unfolding serve fdevent_add fdevent_del
serve-Keeps (set_events f m) l i = set-Keeps f m l i
serve-Keeps (add_events f m) l i = set-Keeps f (union (l.fdes f).wanted m) l i
serve-Keeps (del_events f m) l i = set-Keeps f (minus (l.fdes f).wanted m) l i
serve-Keeps (signal_events f m) l i = (event_hook_signal f m l, refl, signal-IsLinked f m l i)
serve-Keeps (remove_fde f) l i = remove-Keeps f l i
serve-Keeps dispatch l i = dispatch-Keeps l.fdes l.list_pending i

-- From a loop whose pending list has each flagged `fdevent` once and no other, any sequence of
-- changes, reports, removals and callbacks takes no node out of a list that it is not in, and leaves
-- such a loop.
pub serve_all-IsLinked :
    (rs : List Request) (l : Loop)
    → IsLinked l
    → (v : Loop) × (serve_all rs l ≡ some v) × IsLinked v
unfolding serve_all
serve_all-IsLinked [] l i = (l, refl, i)
serve_all-IsLinked (r ∷ rs) l i =
    let (v, e, iv) = serve-Keeps r l i in
    let (u, eq, iu) = serve_all-IsLinked rs v iv in (u, rw (e, serve_all) eq, iu)

minus-union :
    (e w m : Mask)
    → same_mask (minus e w) no_events ≡ true
    → same_mask (minus e (union w m)) no_events ≡ true
unfolding same_mask
minus-union e w m h = ground (arith, h)

-- Where only wanted events wait, wanting one more drops all of them: the `fdevent` is pending no
-- more.
pub fdevent_add-pending :
    (f : ℕ) (m : Mask) (l : Loop)
    → IsLinked l
    → (l.fdes f).pending ≡ true
    → same_mask (minus (l.fdes f).events (l.fdes f).wanted) no_events ≡ true
    → same_mask (l.fdes f).wanted (union (l.fdes f).wanted m) ≡ false
    → (v : Loop) × (fdevent_add f m l ≡ some v) × ((v.fdes f).pending ≡ false)
unfolding fdevent_add unsignal
fdevent_add-pending f m l i waits h other =
    let k = union (l.fdes f).wanted m in
    let idle : Fdevent = record (l.fdes f) {
      wanted = k;
      events = minus (l.fdes f).events k;
      pending = false;
    } in
    let none_left = minus-union (l.fdes f).events (l.fdes f).wanted m h in
    (
      record { fdes = put f idle l.fdes; list_pending = remove f l.list_pending },
      set_waiting f k l other waits ∙ rw (none_left, unsignal, plist_remove_pending f l i waits),
      ground arith,
    )
