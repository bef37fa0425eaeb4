-- ===== src/Events/Examples.antt =====
-- Loops at which the theorems of Events/Served apply.
use adbtest_ce.Prelude.{[], arith, false, if◌then◌else◌, refl, some, true, ◌==◌, ◌∷◌, ◌≡◌}
use adbtest_ce.Sockets.State.{member}
use adbtest_ce.Events.{
  Fdevent, Loop, Mask, add_events, dispatch, fdevent_add, minus, no_events, remove_fde, same_mask,
  serve_all, signal_events, union,
}
use adbtest_ce.Events.Linked.{IsLinked}
use adbtest_ce.Events.Served.{fdevent_add-pending, serve_all-IsLinked}

abbrev readable : Mask
readable = record no_events { fde_read = true }

abbrev writable : Mask
writable = record no_events { fde_write = true }

-- A socket with a read event that waits, and nothing else.
abbrev reader : Fdevent
reader = record { active = true; pending = true; wanted = readable; events = readable }

abbrev quiet : Fdevent
quiet = record { active = false; pending = false; wanted = no_events; events = no_events }

abbrev loop : Loop
loop = record { fdes = λ f. if f == 3 then reader else quiet; list_pending = 3 ∷ [] }

loop-IsLinked : IsLinked loop
unfolding member
loop-IsLinked = record { once = (refl, tt); flagged = λ f. ground arith }

serve_all-IsLinked_example :
    (v : Loop) × (serve_all
        (signal_events 4 writable ∷ add_events 3 writable ∷ dispatch ∷ remove_fde 4 ∷ [])
        loop
      ≡ some v)
    × IsLinked v
serve_all-IsLinked_example =
    serve_all-IsLinked
      (signal_events 4 writable ∷ add_events 3 writable ∷ dispatch ∷ remove_fde 4 ∷ []) loop
      loop-IsLinked

-- What waits is wanted, and writing is not.
waits_wanted : same_mask (minus readable readable) no_events ≡ true
unfolding same_mask
waits_wanted = refl

writes_unwanted : same_mask readable (union readable writable) ≡ false
unfolding same_mask
writes_unwanted = refl

fdevent_add-pending_example :
    (v : Loop) × (fdevent_add 3 writable loop ≡ some v) × ((v.fdes 3).pending ≡ false)
fdevent_add-pending_example =
    fdevent_add-pending 3 writable loop loop-IsLinked refl waits_wanted writes_unwanted
