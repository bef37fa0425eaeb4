-- ===== src/Events/Linked.antt =====
-- The pending list and the PENDING flags of ADBTestCE/adb/sysdeps_win32.cpp, per operation.
use adbtest_ce.Prelude.{
  Bool-cases, List, Option, [], arith, false, if◌then◌else◌, inl, inr, refl, some, sym, true, ℕ,
  ◌++◌, ◌==◌, ◌∙◌, ◌∷◌, ◌≡◌,
}
use adbtest_ce.Sockets.State.{member, remove}
use adbtest_ce.Events.{
  Fdevent, Loop, Mask, dispatch, dispatch_next, event_hook_signal, fdevent_plist_remove,
  fdevent_remove, fdevent_set, minus, no_events, put, same_mask, serve, unsignal,
}

abbrev pub NoDup : List ℕ → Type 0
NoDup [] = Unit
NoDup (f ∷ l) = (member f l ≡ false) × NoDup l

-- An `fdevent` is flagged exactly where it is in the list, which has it once.
pub record IsLinked (l : Loop) : Type 0 where
  pub once : NoDup l.list_pending
  pub flagged : (f : ℕ) → (l.fdes f).pending ≡ member f l.list_pending

remove-member :
    (f g : ℕ) (l : List ℕ) → member g (remove f l) ≡ (if g == f then false else member g l)
unfolding member remove
remove-member f g [] = ground arith
remove-member f g (h ∷ l) = ground (arith, remove-member f g l)

NoDup-remove : (f : ℕ) (l : List ℕ) → NoDup l → NoDup (remove f l)
unfolding remove
NoDup-remove f [] n = tt
NoDup-remove f (h ∷ l) n = elim (Bool-cases (h == f)) [
  | inl at ↦ rw at (NoDup-remove f l n.1)
  | inr other ↦ rw other (ground (arith, remove-member f h l, n.0), NoDup-remove f l n.1)
]

append-member :
    (f g : ℕ) (l : List ℕ) → member g (l ++ f ∷ []) ≡ (if f == g then true else member g l)
unfolding member
append-member f g [] = ground arith
append-member f g (h ∷ l) = ground (arith, append-member f g l)

NoDup-append : (f : ℕ) (l : List ℕ) → NoDup l → member f l ≡ false → NoDup (l ++ f ∷ [])
unfolding member
NoDup-append f [] n h = (refl, tt)
NoDup-append f (g ∷ l) n h =
    (ground (arith, append-member f g l, n.0, h), NoDup-append f l n.1 (ground (arith, h)))

-- The call meets no fault, and the list agrees with the flags.
abbrev pub Keeps : Option Loop → Type 0
Keeps m = (v : Loop) × (m ≡ some v) × IsLinked v

-- A change that does not touch the flag.
put-IsLinked :
    (f : ℕ) (x : Fdevent) (l : Loop)
    → IsLinked l
    → x.pending ≡ (l.fdes f).pending
    → IsLinked (record l { fdes = put f x l.fdes })
put-IsLinked f x l i h = record { once = i.once; flagged = λ g. ground (arith, h, i.flagged g) }

-- Off the list, with the flag cleared.
unlink-IsLinked :
    (f : ℕ) (x : Fdevent) (l : Loop)
    → IsLinked l
    → x.pending ≡ false
    → IsLinked (record { fdes = put f x l.fdes; list_pending = remove f l.list_pending })
unlink-IsLinked f x l i h = record {
  once = NoDup-remove f l.list_pending i.once;
  flagged = λ g. ground (arith, h, i.flagged g, remove-member f g l.list_pending);
}

pub plist_remove_pending :
    (f : ℕ) (l : Loop)
    → IsLinked l
    → (l.fdes f).pending ≡ true
    → fdevent_plist_remove f l.list_pending ≡ some (remove f l.list_pending)
unfolding fdevent_plist_remove
plist_remove_pending f l i h = ground (arith, h, i.flagged f)

unsignal-Keeps :
    (f : ℕ) (m : Mask) (x : Fdevent) (l : Loop)
    → IsLinked l
    → (l.fdes f).pending ≡ true
    → x.pending ≡ true
    → Keeps (unsignal f m x l)
unfolding unsignal
unsignal-Keeps f m x l i h k = elim (Bool-cases (same_mask (minus x.events m) no_events)) [
  | inl none_left ↦
      let idle : Fdevent = record x { events = minus x.events m; pending = false } in
      (
        record { fdes = put f idle l.fdes; list_pending = remove f l.list_pending },
        rw (none_left, plist_remove_pending f l i h),
        unlink-IsLinked f idle l i refl,
      )
  | inr some_left ↦
      let y : Fdevent = record x { events = minus x.events m } in
      (record l { fdes = put f y l.fdes }, rw some_left, put-IsLinked f y l i (k ∙ sym h))
]

abbrev pub wanting : ℕ → Mask → Loop → Fdevent
wanting f m l = record (l.fdes f) { wanted = m }

pub set_waiting :
    (f : ℕ) (m : Mask) (l : Loop)
    → same_mask (l.fdes f).wanted m ≡ false
    → (l.fdes f).pending ≡ true
    → fdevent_set f m l ≡ unsignal f m (wanting f m l) l
unfolding fdevent_set
set_waiting f m l other waits = ground (arith, other, waits)

set_idle :
    (f : ℕ) (m : Mask) (l : Loop)
    → same_mask (l.fdes f).wanted m ≡ false
    → (l.fdes f).pending ≡ false
    → fdevent_set f m l ≡ some (record l { fdes = put f (wanting f m l) l.fdes })
unfolding fdevent_set
set_idle f m l other idle = ground (arith, other, idle)

set_same :
    (f : ℕ) (m : Mask) (l : Loop)
    → same_mask (l.fdes f).wanted m ≡ true
    → fdevent_set f m l ≡ some l
unfolding fdevent_set
set_same f m l same = ground (arith, same)

pub set-Keeps : (f : ℕ) (m : Mask) (l : Loop) → IsLinked l → Keeps (fdevent_set f m l)
set-Keeps f m l i = elim (Bool-cases (same_mask (l.fdes f).wanted m)) [
  | inl same ↦ (l, set_same f m l same, i)
  | inr other ↦ elim (Bool-cases (l.fdes f).pending) [
    | inl waits ↦
        let (v, e, iv) = unsignal-Keeps f m (wanting f m l) l i waits waits in
        (v, set_waiting f m l other waits ∙ e, iv)
    | inr idle ↦ (
      record l { fdes = put f (wanting f m l) l.fdes },
      set_idle f m l other idle,
      put-IsLinked f (wanting f m l) l i refl,
    )
  ]
]

pub signal-IsLinked :
    (f : ℕ) (m : Mask) (l : Loop) → IsLinked l → IsLinked (event_hook_signal f m l)
unfolding event_hook_signal
signal-IsLinked f m l i = elim (Bool-cases (l.fdes f).pending) [
  | inl waits ↦ record {
    once = rw waits i.once;
    flagged = λ g. ground (arith, waits, i.flagged g, i.flagged f);
  }
  | inr idle ↦ record {
    once = rw idle (NoDup-append f l.list_pending i.once (sym (i.flagged f) ∙ idle));
    flagged = λ g. ground (arith, idle, i.flagged g, append-member f g l.list_pending);
  }
]

pub remove-Keeps : (f : ℕ) (l : Loop) → IsLinked l → Keeps (fdevent_remove f l)
unfolding fdevent_remove
remove-Keeps f l i =
    let cleared : Fdevent = record {
      active = false;
      pending = false;
      wanted = no_events;
      events = no_events;
    } in
    elim (Bool-cases (l.fdes f).pending) [
      | inl waits ↦ (
        record { fdes = put f cleared l.fdes; list_pending = remove f l.list_pending },
        rw (waits, plist_remove_pending f l i waits),
        unlink-IsLinked f cleared l i refl,
      )
      | inr idle ↦
          (record l { fdes = put f cleared l.fdes }, rw idle, put-IsLinked f cleared l i (sym idle))
    ]

next-IsLinked :
    (f : ℕ) (rest : List ℕ) (fdes : ℕ → Fdevent)
    → IsLinked (record { fdes = fdes; list_pending = f ∷ rest })
    → (y : Fdevent) → y.pending ≡ false
    → IsLinked (record { fdes = put f y fdes; list_pending = rest })
unfolding member
next-IsLinked f rest fdes i y h = record {
  once = i.once.1;
  flagged = λ g. ground (arith, h, i.flagged g, i.once.0);
}

pub dispatch-Keeps :
    (fdes : ℕ → Fdevent) (l : List ℕ)
    → IsLinked (record { fdes = fdes; list_pending = l })
    → Keeps (serve dispatch (record { fdes = fdes; list_pending = l }))
unfolding serve dispatch_next
dispatch-Keeps fdes [] i = (_, refl, i)
dispatch-Keeps fdes (f ∷ rest) i =
    let y : Fdevent = record (fdes f) { events = no_events; pending = false } in
    (record { fdes = put f y fdes; list_pending = rest }, refl, next-IsLinked f rest fdes i y refl)
