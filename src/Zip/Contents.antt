-- ===== src/Zip/Contents.antt =====
-- What the entries of an opened archive say of its members: `init_zipfile`, `get_zipentry_name` and
-- `get_zipentry_size` (ADBTestCE/adb/zipfile.cpp).
use adbtest_ce.Prelude.{
  ==_iff, All, Bool-cases, Bytes, List, [], ap, append_assoc, arith, drop, drop-add, drop-append,
  inl, inr, length, length_zero, refl, reverse, reverse-append, subst, sym, take, take-append, ℕ,
  ◌++◌, ◌+◌, ◌==◌, ◌∙◌, ◌∷◌, ◌≡◌,
}
use adbtest_ce.Zip.Archive.{Holds, Member, central_header, directory, local_header}
use adbtest_ce.Zip.{
  Zipentry, Zipfile, byte, copy_bytes, get_zipentry_name, get_zipentry_size, init_zipfile, ok,
}
use adbtest_ce.Zip.Directory.{after_header, entries_at, entry_of, length-local_header}
use adbtest_ce.Zip.Fields.{byte-drop_at}
use adbtest_ce.Zip.Whole.{IsArchive, directory_at, file_buf, file_entries, file_of, read_lem}

-- Two lists of the same length, with related items in the same places.
abbrev pub Pairwise {ℓ κ} : {A : Type ℓ} {B : Type κ} → (A → B → Type 0) → List A → List B → Type 0
Pairwise P [] [] = Unit
Pairwise P (x ∷ xs) (y ∷ ys) = P x y × Pairwise P xs ys
Pairwise P xs ys = ⊥

module _ {ℓ κ} {A : Type ℓ} {B : Type κ} (P : A → B → Type 0) where
  Pairwise-append :
      (xs : List A) (ys : List B) (vs : List A) (ws : List B)
      → Pairwise P xs ys
      → Pairwise P vs ws
      → Pairwise P (xs ++ vs) (ys ++ ws)
  Pairwise-append [] [] vs ws h k = k
  Pairwise-append [] (y ∷ ys) vs ws h k = absurd h
  Pairwise-append (x ∷ xs) [] vs ws h k = absurd h
  Pairwise-append (x ∷ xs) (y ∷ ys) vs ws h k = (h.0, Pairwise-append xs ys vs ws h.1 k)

  Pairwise-reverse :
      (xs : List A) (ys : List B) → Pairwise P xs ys → Pairwise P (reverse xs) (reverse ys)
  Pairwise-reverse [] [] h = tt
  Pairwise-reverse [] (y ∷ ys) h = absurd h
  Pairwise-reverse (x ∷ xs) [] h = absurd h
  Pairwise-reverse (x ∷ xs) (y ∷ ys) h =
      rw (reverse-append (x ∷ []) xs, reverse-append (y ∷ []) ys)
        (Pairwise-append (reverse xs) (reverse ys) (x ∷ []) (y ∷ []) (Pairwise-reverse xs ys h.1)
          (h.0, tt))

-- An entry gives a member's name, size, method and packed content.
pub record Describes (file : Zipfile) (e : Zipentry) (m : Member) : Type 0 where
  pub named : get_zipentry_name file e ≡ ok m.name
  pub sized : get_zipentry_size e ≡ m.unpacked_size
  pub by_method : e.compression_method ≡ m.method
  pub packed : take e.compressed_size (drop e.data_at file.buf) ≡ m.content

-- The bytes of a part of the archive.
pub copy_bytes-drop :
    (buf : Bytes) (at : ℕ) (x rest : Bytes)
    → drop at buf ≡ x ++ rest
    → copy_bytes buf at (length x) ≡ ok x
unfolding copy_bytes byte
copy_bytes-drop buf at [] rest e = refl
copy_bytes-drop buf at (c ∷ x) rest e =
    let next : drop (at + 1) buf ≡ x ++ rest = drop-add at 1 buf ∙ ap (drop 1) e in
    rw
      (
        byte-drop_at buf at 0 at (omega arith) ∙ ap (λ z. byte z 0) e,
        copy_bytes-drop buf (at + 1) x rest next,
      )
      refl

-- The content follows the local header.
content_at :
    (buf : Bytes) (m : Member) (rest : Bytes)
    → drop m.local_offset buf ≡ local_header m ++ (m.content ++ rest)
    → drop (m.local_offset + 30 + length m.name + length m.local_extra) buf ≡ m.content ++ rest
content_at buf m rest e =
    ap (λ k. drop k buf) (omega (arith, length-local_header m))
    ∙ drop-add m.local_offset (length (local_header m)) buf
    ∙ ap (drop (length (local_header m))) e
    ∙ drop-append (local_header m) (m.content ++ rest)

content_lem :
    (buf : Bytes) (m : Member)
    → Holds buf m
    → take
        (length m.content)
        (drop (m.local_offset + 30 + length m.name + length m.local_extra) buf)
      ≡ m.content
content_lem buf m (rest, e) =
    ap (take (length m.content)) (content_at buf m rest e) ∙ take-append m.content rest

-- The name follows the 46 bytes of fixed length.
name_at :
    (buf : Bytes) (p : ℕ) (m : Member) (rest : Bytes)
    → drop p buf ≡ central_header m ++ rest
    → drop (p + 46) buf ≡ m.name ++ ((m.extra ++ m.remark) ++ rest)
unfolding central_header
name_at buf p m rest e =
    drop-add p 46 buf ∙ ap (drop 46) e ∙ append_assoc m.name (m.extra ++ m.remark) rest

name_lem :
    (file : Zipfile) (p : ℕ) (m : Member) (rest : Bytes)
    → drop p file.buf ≡ central_header m ++ rest
    → get_zipentry_name file (entry_of p m) ≡ ok m.name
unfolding get_zipentry_name
name_lem file p m rest e = elim (Bool-cases (length m.name == 0)) [
  | inl none_left ↦
      rw none_left (ap ok (sym (length_zero m.name ((==_iff (length m.name) 0).0 none_left))))
  | inr some_left ↦ rw some_left (
      copy_bytes-drop file.buf (p + 46) m.name ((m.extra ++ m.remark) ++ rest)
        (name_at file.buf p m rest e))
]

entry_of-Describes :
    (file : Zipfile) (p : ℕ) (m : Member) (rest : Bytes)
    → Holds file.buf m
    → drop p file.buf ≡ central_header m ++ rest
    → Describes file (entry_of p m) m
unfolding get_zipentry_size
entry_of-Describes file p m rest holds e = record {
  named = name_lem file p m rest e;
  sized = refl;
  by_method = refl;
  packed = content_lem file.buf m holds;
}

entries_at-Describes :
    (file : Zipfile) (p : ℕ) (ms : List Member) (rest : Bytes)
    → All (Holds file.buf) ms
    → drop p file.buf ≡ directory ms ++ rest
    → Pairwise (Describes file) (entries_at p ms) ms
unfolding entries_at directory
entries_at-Describes file p [] rest holds e = tt
entries_at-Describes file p (m ∷ ms) rest holds e =
    let here = e ∙ append_assoc (central_header m) (directory ms) rest in
    (
      entry_of-Describes file p m (directory ms ++ rest) holds.0 here,
      entries_at-Describes file (p + length (central_header m)) ms rest holds.1
          (after_header file.buf p m (directory ms ++ rest) here),
    )

-- An archive of the format is opened, with no read outside it, and its entries, the last one first,
-- give the names, sizes, methods and packed contents of its members.
pub init_zipfile-archive :
    (buf : Bytes) (ms : List Member) (remark : Bytes)
    → IsArchive buf ms remark
    → (file : Zipfile) × (init_zipfile buf ≡ ok file)
      × (file.buf ≡ buf)
      × Pairwise (Describes file) file.entries (reverse ms)
init_zipfile-archive buf ms remark a =
    let file = file_of buf ms remark a in
    let es = entries_at (length a.before) ms in
    (
      file,
      read_lem buf ms remark a,
      file_buf buf ms remark a,
      subst (λ l. Pairwise (Describes file) l (reverse ms)) (sym (file_entries buf ms remark a))
          (Pairwise-reverse (Describes file) es ms (
            entries_at-Describes file (length a.before) ms _
              (subst (λ b. All (Holds b) ms) (sym (file_buf buf ms remark a)) a.holds)
              (ap (drop (length a.before)) (file_buf buf ms remark a)
                ∙ directory_at buf ms remark a))),
    )
