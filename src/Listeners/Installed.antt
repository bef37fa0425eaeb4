-- ===== src/Listeners/Installed.antt =====
-- `install_listener` and `remove_listener` (ADBTestCE/adb/adb.cpp) and where a port leads.
use adbtest_ce.Prelude.{
  All, Bool-cases, Bytes, List, Option, [], ap, arith, equal, false, if◌then◌else◌, inl, inr, none,
  refl, some, sym, true, ℕ, ◌∙◌, ◌∷◌, ◌≡◌, ◌≢◌, ◌⊎◌,
}
use adbtest_ce.Listeners.{
  Alistener, Installing, bad_pointer, behind, cannot_bind, install_listener, installed, is_special,
  new_listener, not_repurposed, rebind, remove_listener, same_transport,
}

-- Where the clients of a local name go: the target and the transport of its listener.
unfoldable pub target_of : Bytes → List Alistener → Option (Bytes × Option ℕ)
target_of local_name [] = none
target_of local_name (l ∷ ls) =
    let later = target_of local_name ls in
    if equal local_name l.local_name then some (l.connect_to, l.transport) else later

-- A listener waits for its own transport to go away; only that of the smart sockets has none.
abbrev pub IsListener : Alistener → Type 0
IsListener l =
    (l.waits_at ≡ l.transport)
    × ((is_special l.connect_to ≡ true) ⊎ ((u : ℕ) × (l.transport ≡ some u)))

-- What `install_listener` has done, on each of its ways out.
abbrev pub Installs : Option ℕ → Bytes → Bytes → ℕ → List Alistener → Installing → Type 0
Installs fd name connect_to t ls (installed ls') =
    All IsListener ls'
    × (target_of name ls' ≡ some (connect_to, some t))
    × ((other : Bytes) → other ≢ name → target_of other ls' ≡ target_of other ls)
Installs fd name connect_to t ls not_repurposed =
    (x : Bytes × Option ℕ) × (target_of name ls ≡ some x) × (is_special x.0 ≡ true)
Installs fd name connect_to t ls cannot_bind = (target_of name ls ≡ none) × (fd ≡ none)
Installs fd name connect_to t ls bad_pointer = ⊥

equal_eq : (x y : Bytes) → equal x y ≡ true → x ≡ y
unfolding equal
equal_eq [] [] h = refl
equal_eq [] (d ∷ y) h = cc
equal_eq (c ∷ x) [] h = cc
equal_eq (c ∷ x) (d ∷ y) h =
    let head : c ≡ d = ground (arith, h) in let tail = equal_eq x y (ground (arith, h)) in cc

equal_self : (x : Bytes) → equal x x ≡ true
unfolding equal
equal_self [] = refl
equal_self (c ∷ x) = ground (arith, equal_self x)

equal_ne : (x y : Bytes) → x ≢ y → equal x y ≡ false
equal_ne x y ne = elim (Bool-cases (equal x y)) [
  | inl same ↦ absurd (ne (equal_eq x y same))
  | inr other ↦ other
]

same_transport_eq : (o : Option ℕ) (t : ℕ) → same_transport o (some t) ≡ true → o ≡ some t
unfolding same_transport
same_transport_eq none t h = cc
same_transport_eq (some u) t h = let same : u ≡ t = ground (arith, h) in ap some same

-- A listener that waits for its transport is rebound with no fault, and does so afterwards.
rebind_safe :
    (connect_to : Bytes) (t : ℕ) (l : Alistener)
    → IsListener l
    → is_special l.connect_to ≡ false
    → (l' : Alistener) × (rebind connect_to (some t) l ≡ some l')
      × IsListener l'
      × (l'.local_name ≡ l.local_name)
      × (l'.connect_to ≡ connect_to)
      × (l'.transport ≡ some t)
unfolding rebind
rebind_safe connect_to t l (w, k) plain = elim (Bool-cases (same_transport l.transport (some t))) [
  | inl same ↦
      let at = same_transport_eq l.transport t same in
      (record l { connect_to = connect_to }, rw same refl, (w, inr (t, at)), refl, refl, at)
  | inr moved ↦ elim k [
    | inl special ↦ let no : true ≡ false = sym special ∙ plain in cc
    | inr (u, has) ↦ (
      record l { connect_to = connect_to; transport = some t; waits_at = some t },
      rw (moved, has) refl,
      (refl, inr (t, refl)),
      refl,
      refl,
      refl,
    )
  ]
]

-- One step past a listener of another name.
passed_by :
    (fd : Option ℕ) (name connect_to : Bytes) (t : ℕ) (l : Alistener) (ls : List Alistener)
    (r : Installing)
    → IsListener l
    → equal name l.local_name ≡ false
    → Installs fd name connect_to t ls r
    → Installs fd name connect_to t (l ∷ ls) (behind l r)
unfolding target_of
passed_by fd name connect_to t l ls (installed ls') i e (all, found, others) = (
  (i, all),
  rw e found,
  λ other n. elim (Bool-cases (equal other l.local_name)) [
    | inl here ↦ rw here refl
    | inr there ↦ rw there (others other n)
  ],
)
passed_by fd name connect_to t l ls not_repurposed i e (x, found, special) =
    (x, rw e found, special)
passed_by fd name connect_to t l ls cannot_bind i e (absent, no_fd) = (rw e absent, no_fd)
passed_by fd name connect_to t l ls bad_pointer i e impossible = impossible

-- The listener of the name itself.
rebound :
    (fd : Option ℕ) (name connect_to : Bytes) (t : ℕ) (l l' : Alistener) (ls : List Alistener)
    → All IsListener ls
    → equal name l.local_name ≡ true
    → IsListener l'
    → l'.local_name ≡ l.local_name
    → l'.connect_to ≡ connect_to
    → l'.transport ≡ some t
    → Installs fd name connect_to t (l ∷ ls) (installed (l' ∷ ls))
unfolding target_of
rebound fd name connect_to t l l' ls all e i' same to at =
    let here : equal name l'.local_name ≡ true = ap (equal name) same ∙ e in
    let name_is = equal_eq name l.local_name e in
    (
      (i', all),
      rw here (ap (λ c. some (c, l'.transport)) to ∙ ap (λ o. some (connect_to, o)) at),
      λ other n.
          let e₀ : equal other l.local_name ≡ false =
            equal_ne other l.local_name (λ z. n (z ∙ sym name_is)) in
          let e₁ : equal other l'.local_name ≡ false = ap (equal other) same ∙ e₀ in
          rw (e₀, e₁) refl,
    )

-- `install_listener` for a target of a device, on listeners that wait for their transports: it goes
-- through no null pointer. Where it installs, the listeners are still such, the name leads to the new
-- target, and every other name leads where it did. It refuses to repurpose only where the name
-- leads to a smart socket, and fails to bind only for a new name without a descriptor.
pub install_listener-Installs :
    (fd : Option ℕ) (name connect_to : Bytes) (t : ℕ) (ls : List Alistener)
    → All IsListener ls
    → Installs fd name connect_to t ls (install_listener fd name connect_to (some t) ls)
unfolding install_listener target_of
install_listener-Installs none name connect_to t [] all = (refl, refl)
install_listener-Installs (some n) name connect_to t [] all = (
  ((refl, inr (t, refl)), all),
  rw (equal_self name) refl,
  λ other ne. rw (equal_ne other name ne) refl,
)
install_listener-Installs fd name connect_to t (l ∷ ls) (i, all) =
    elim (Bool-cases (equal name l.local_name)) [
      | inr other ↦
          rw (other, install_listener)
            (passed_by fd name connect_to t l ls (install_listener fd name connect_to (some t) ls) i
              other (install_listener-Installs fd name connect_to t ls all))
      | inl here ↦ elim (Bool-cases (is_special l.connect_to)) [
        | inl special ↦
            rw (here, install_listener, special)
              ((l.connect_to, l.transport), rw here refl, special)
        | inr plain ↦
            let (l', eq, i', same, to, at) = rebind_safe connect_to t l i plain in
            rw (here, install_listener, plain, eq)
              (rebound fd name connect_to t l l' ls all here i' same to at)
      ]
    ]

same_transport_self : (t : ℕ) → same_transport (some t) (some t) ≡ true
unfolding same_transport
same_transport_self t = ground arith

-- A name that leads nowhere is installed, and then removed: the listeners are as before.
pub remove_listener-install_listener :
    (n : ℕ) (name connect_to : Bytes) (t : ℕ) (ls : List Alistener)
    → target_of name ls ≡ none
    → (ls' : List Alistener) × (install_listener (some n) name connect_to (some t) ls
        ≡ installed ls')
      × (remove_listener name connect_to (some t) ls' ≡ some ls)
unfolding install_listener remove_listener target_of
remove_listener-install_listener n name connect_to t [] free = (
  new_listener name connect_to (some t) n ∷ [],
  refl,
  rw (equal_self name, equal_self connect_to, same_transport_self t) refl,
)
remove_listener-install_listener n name connect_to t (l ∷ ls) free =
    elim (Bool-cases (equal name l.local_name)) [
      | inl here ↦ let no : some (l.connect_to, l.transport) ≡ none = rw here at free in cc
      | inr other ↦
          let rest : target_of name ls ≡ none = rw other at free in
          let (ls', done, back) = remove_listener-install_listener n name connect_to t ls rest in
          (
            l ∷ ls',
            rw (other, install_listener) (ap (behind l) done),
            rw (other, remove_listener, back) refl,
          )
    ]
