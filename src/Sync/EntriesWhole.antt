-- ===== src/Sync/EntriesWhole.antt =====
-- A directory that is listed: `do_list` (ADBTestCE/adb/file_sync_service.c) and the loop of `sync_ls`
-- (ADBTestCE/adb/file_sync_client.cpp).
use adbtest_ce.Prelude.{
  All, Bool-cases, Bytes, List, Option, Option-cases, [], ap, append_assoc, ap₂, arith, codes,
  equal, false, if◌then◌else◌, inl, inr, le32, length, length-append, ltb, none, refl, some, subst,
  suc, sym, word32, zero, ℕ, ◌++◌, ◌+◌, ◌<◌, ◌^◌, ◌∙◌, ◌∷◌, ◌≡◌, ◌≤◌, ◌⊎◌,
}
use adbtest_ce.Io.{Acceptance, Arrival, read_all, readx, write_both, written}
use adbtest_ce.Sync.{id_done, id_list, message, word_of}
use adbtest_ce.Sync.Commands.{
  Disk, FileStat, both_parts, do_list, list_entries, list_entry, no_stat, stat_words, tmp_size,
}
use adbtest_ce.Sync.Entries.{
  Dent, LsResult, calls_func, ls_done, ls_loop, ls_message, ls_name, stat_of, sync_ls, word_at,
}
use adbtest_ce.Io.ReadLoop.{IsHealthy, readx_front, stream}
use adbtest_ce.Sync.Delivered.{c_string-clean}
use adbtest_ce.Zip.Lookup.{HasNoNul}

-- What `msg.stat` and `msg.dent` have room for.
abbrev pub IsWords : FileStat → Type 0
IsWords st = (st.mode < 2 ^ 32) × (st.size < 2 ^ 32) × (st.time < 2 ^ 32)

-- A name that is not too long, of a file that is there.
abbrev pub shown_entry : Disk → Bytes → Bytes → List Dent
shown_entry disk path name =
    if ltb 256 (length name) then [] else elim (disk.lstat (path ++ (b'/' ∷ name))) [
      | none ↦ []
      | some st ↦ record { stat = st; name = name } ∷ []
    ]

-- The entries of a directory, in its order.
abbrev pub shown : Disk → Bytes → List Bytes → List Dent
shown disk path [] = []
shown disk path (name ∷ names) = shown_entry disk path name ++ shown disk path names

abbrev pub dent_head : FileStat → ℕ → Bytes
dent_head st n = codes "DENT" ++ (stat_words st ++ le32 n)

stat_words_back : (st : FileStat) (n : ℕ) → IsWords st → stat_of (dent_head st n) ≡ st
unfolding word_of
stat_words_back st n h = λ i. record {
  mode = word32 st.mode h.0 i;
  size = word32 st.size h.1 i;
  time = word32 st.time h.2 i;
}

length_back : (st : FileStat) (n : ℕ) → n < 2 ^ 32 → word_at 4 (dent_head st n) ≡ n
unfolding word_of
length_back st n h = word32 n h

dent_turn :
    (go : List Arrival → Option LsResult) (st : FileStat) (n : ℕ) (rest : List Arrival)
    → IsWords st
    → n ≤ 256
    → ls_message go (read_all (dent_head st n) rest) ≡ ls_name go st (readx rest n)
unfolding equal
dent_turn go st n rest h fits =
    rw (length_back st n (omega arith), stat_words_back st n h) (ground arith)

-- What the device sends of a name and of a directory, where nothing leaves its buffer.
unfoldable sent_entry : Disk → Bytes → Bytes → Bytes
sent_entry disk path name =
    if ltb 256 (length name) then [] else elim (disk.lstat (path ++ (b'/' ∷ name))) [
      | none ↦ []
      | some st ↦ codes "DENT" ++ (stat_words st ++ (le32 (length name) ++ name))
    ]

unfoldable sent_entries : Disk → Bytes → List Bytes → Bytes
sent_entries disk path [] = []
sent_entries disk path (name ∷ names) = sent_entry disk path name ++ sent_entries disk path names

entry_fits :
    (disk : Disk) (path name : Bytes)
    → length path < 1024
    → list_entry disk path name ≡ some (sent_entry disk path name)
unfolding list_entry sent_entry
entry_fits disk path name room = elim (Bool-cases (ltb 256 (length name))) [
  | inl long ↦ rw long refl
  | inr short ↦
      let fits : ltb tmp_size (length path + 1 + length name + 1) ≡ false = ground (arith, short) in
      elim (Option-cases (disk.lstat (path ++ (b'/' ∷ name)))) [
        | inl gone ↦ rw (short, fits, gone) refl
        | inr (st, e) ↦ rw (short, fits, e) refl
      ]
]

entries_fit :
    (disk : Disk) (path : Bytes) (names : List Bytes)
    → length path < 1024
    → list_entries disk path names ≡ some (sent_entries disk path names)
unfolding list_entries sent_entries
entries_fit disk path [] room = refl
entries_fit disk path (name ∷ names) room =
    ap₂ both_parts (entry_fits disk path name room) (entries_fit disk path names room)

-- A name that `do_list` passes by, or its entry.
entry_cases :
    (disk : Disk) (path name : Bytes)
    → ((sent_entry disk path name ≡ []) × (shown_entry disk path name ≡ []))
      ⊎ ((st : FileStat) × (disk.lstat (path ++ (b'/' ∷ name)) ≡ some st)
          × (length name ≤ 256)
          × (sent_entry disk path name ≡ dent_head st (length name) ++ name)
          × (shown_entry disk path name ≡ record { stat = st; name = name } ∷ []))
unfolding sent_entry
entry_cases disk path name = elim (Bool-cases (ltb 256 (length name))) [
  | inl long ↦ inl (rw long refl, rw long refl)
  | inr short ↦ elim (Option-cases (disk.lstat (path ++ (b'/' ∷ name)))) [
    | inl gone ↦ inl (rw (short, gone) refl, rw (short, gone) refl)
    | inr (st, e) ↦ inr (st, e, ground (arith, short), rw (short, e) refl, rw (short, e) refl)
  ]
]

-- One round of the client.
entry_fetched :
    (fuel : ℕ) (evs : List Arrival) (st : FileStat) (name y : Bytes)
    → IsWords st
    → HasNoNul name
    → length name ≤ 256
    → All IsHealthy evs
    → stream evs ≡ (dent_head st (length name) ++ name) ++ y
    → (rest : List Arrival) × (ls_loop (suc fuel) evs
        ≡ calls_func (record { stat = st; name = name }) (ls_loop fuel rest))
      × (stream rest ≡ y)
      × All IsHealthy rest
unfolding ls_loop
entry_fetched fuel evs st name y words nul fits h e =
    let head = dent_head st (length name) in
    let (r₁, e₁, s₁, h₁) =
      readx_front evs 20 head (name ++ y) h (e ∙ append_assoc head name y) refl in
    let (r₂, e₂, s₂, h₂) = readx_front r₁ (length name) name y h₁ s₁ refl in
    (
      r₂,
      ap (ls_message (ls_loop fuel)) e₁
          ∙ dent_turn (ls_loop fuel) st (length name) r₁ words fits
          ∙ ap (ls_name (ls_loop fuel) st) e₂
          ∙ ap (λ z. calls_func (record { stat = st; name = z }) (ls_loop fuel r₂))
              (c_string-clean name nul),
      s₂,
      h₂,
    )

-- The client has called `func` for these entries, and goes on behind the list.
abbrev pub Lists : List Dent → Bytes → Option LsResult → Type 0
Lists ds more o =
    (rest : List Arrival) × (o ≡ some (record { end = ls_done; calls = ds; rest = rest }))
    × (stream rest ≡ more)

calls_func-Lists :
    (d : Dent) (ds : List Dent) (more : Bytes) (o : Option LsResult)
    → Lists ds more o
    → Lists (d ∷ ds) more (calls_func d o)
calls_func-Lists d ds more o (rest, e, s) = (rest, rw e refl, s)

list_done :
    (fuel : ℕ) (evs : List Arrival) (more : Bytes)
    → All IsHealthy evs
    → stream evs ≡ (id_done ++ (stat_words no_stat ++ le32 0)) ++ more
    → Lists [] more (ls_loop (suc fuel) evs)
unfolding ls_loop equal
list_done fuel evs more h e =
    let (r, er, s, hr) =
      readx_front evs 20 (id_done ++ (stat_words no_stat ++ le32 0)) more h e refl in
    (r, ap (ls_message (ls_loop fuel)) er, s)

entries_fetched :
    (names : List Bytes) (disk : Disk) (path more : Bytes) (fuel : ℕ) (evs : List Arrival)
    → All HasNoNul names
    → ((p : Bytes) (st : FileStat) → disk.lstat p ≡ some st → IsWords st)
    → length (sent_entries disk path names) < fuel
    → All IsHealthy evs
    → stream evs
      ≡ sent_entries disk path names ++ ((id_done ++ (stat_words no_stat ++ le32 0)) ++ more)
    → Lists (shown disk path names) more (ls_loop fuel evs)
unfolding sent_entries
entries_fetched names disk path more zero evs nul words lt h e = absurd (omega arith)
entries_fetched [] disk path more (suc fuel) evs nul words lt h e = list_done fuel evs more h e
entries_fetched (name ∷ names) disk path more (suc fuel) evs nul words lt h e =
    let later = sent_entries disk path names in
    let after = (id_done ++ (stat_words no_stat ++ le32 0)) ++ more in
    elim (entry_cases disk path name) [
      | inl (none_sent, none_shown) ↦
          subst (λ ds. Lists (ds ++ shown disk path names) more (ls_loop (suc fuel) evs))
            (sym none_shown)
            (entries_fetched names disk path more (suc fuel) evs nul.1 words
              (subst (λ z. length (z ++ later) < suc fuel) none_sent lt) h
              (e ∙ ap (λ z. (z ++ later) ++ after) none_sent))
      | inr (st, there, fits, sent, seen) ↦
          let (rest, turn, s, hr) =
            entry_fetched fuel evs st name _ (words _ st there) nul.0 fits h (
              e
              ∙ ap (λ z. (z ++ later) ++ after) sent
              ∙ append_assoc (dent_head st (length name) ++ name) later _) in
          let fewer : length later < fuel = omega (
            arith,
            subst (λ z. length (z ++ later) < suc fuel) sent lt,
            length-append (dent_head st (length name) ++ name) later,
            length-append (dent_head st (length name)) name,
          ) in
          subst (λ ds. Lists (ds ++ shown disk path names) more (ls_loop (suc fuel) evs)) (sym seen)
            (subst (Lists (record { stat = st; name = name } ∷ shown disk path names) more)
              (sym turn)
              (calls_func-Lists _ _ more _
                (entries_fetched names disk path more fuel rest nul.1 words fewer hr s)))
    ]

-- What was written, if there was no fault.
abbrev pub written_by : Option Bytes → Bytes
written_by none = []
written_by (some x) = x

-- The device lists a directory whose path has less than 1024 bytes, and whose names have no NUL byte, with
-- modes, sizes and times of 32 bits; the client's request goes out whole, and the answer comes in any
-- pieces: do_list does not leave its buffer, and sync_ls ends well, with one call of func for each file
-- that is there and whose name has 256 bytes at most, in the directory's order, with its name, mode, size
-- and time; the stream goes on behind the list.
pub sync_ls-do_list :
    (disk : Disk) (path more : Bytes) (ws : List Acceptance) (evs : List Arrival)
    → length path < 1024
    → (write_both ws (message id_list (length path)) path).outcome ≡ written
    → All HasNoNul (disk.names path)
    → ((p : Bytes) (st : FileStat) → disk.lstat p ≡ some st → IsWords st)
    → All IsHealthy evs
    → stream evs ≡ written_by (do_list disk path) ++ more
    → (x : Bytes) × (do_list disk path ≡ some x)
      × Lists (shown disk path (disk.names path)) more (sync_ls path ws evs).answer
unfolding sync_ls do_list
sync_ls-do_list disk path more ws evs fits o nul words h e =
    let entries = sent_entries disk path (disk.names path) in
    let done = id_done ++ (stat_words no_stat ++ le32 0) in
    let small : ltb tmp_size (length path + 1) ≡ false = ground arith in
    let sent : do_list disk path ≡ some (entries ++ done) =
      rw (do_list, small, entries_fit disk path (disk.names path) fits) refl in
    let split : stream evs ≡ entries ++ (done ++ more) =
      e ∙ ap (λ z. written_by z ++ more) sent ∙ append_assoc entries done more in
    let here =
      entries_fetched (disk.names path) disk path more (suc (length (stream evs))) evs nul words
        (omega (arith, ap length split, length-append entries (done ++ more))) h split in
    let short : ltb 1024 (length path) ≡ false = ground arith in (_, sent, rw (short, o) here)
