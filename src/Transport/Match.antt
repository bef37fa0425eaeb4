-- ===== src/Transport/Match.antt =====
-- `qual_match` of ADBTestCE/adb/transport.cpp.
use adbtest_ce.Prelude.{
  Bool, Bytes, Option-cases, [], after_prefix, ap, arith, false, inl, inr, map, refl, some, sym,
  true, ℕ, ◌++◌, ◌↔◌, ◌∙◌, ◌∷◌, ◌≡◌,
}
use adbtest_ce.Transport.{qual_char, qual_loop, qual_loops, qual_match}

-- The loop compares the qualifier, cleaned where that is asked for, with the whole string.
qual_loop_iff :
    (san : Bool) (qual to_test : Bytes)
    → (qual_loop san qual to_test ≡ true) ↔ (to_test ≡ map (qual_char san) qual)
unfolding qual_loop
qual_loop_iff san [] [] = ((λ _. refl), λ _. refl)
qual_loop_iff san [] (c ∷ s) = ((λ e. cc), λ e. cc)
qual_loop_iff san (q ∷ qual) [] = ((λ e. cc), λ e. cc)
qual_loop_iff san (q ∷ qual) (c ∷ s) = ground (arith, qual_loop_iff san qual s)

after_prefix_iff :
    (prefix s rest : Bytes) → (after_prefix prefix s ≡ some rest) ↔ (s ≡ prefix ++ rest)
unfolding after_prefix
after_prefix_iff [] s rest = ((λ e. cc), λ e. cc)
after_prefix_iff (p ∷ ps) [] rest = ((λ e. cc), λ e. cc)
after_prefix_iff (p ∷ ps) (c ∷ s) rest = ground (arith, after_prefix_iff ps s rest)

-- For a string that is not empty, a qualifier matches exactly where the string is the prefix followed
-- by the qualifier, in which each character but letters and digits is an underscore where that is
-- asked for.
pub qual_match_iff :
    (c : ℕ) (s prefix qual : Bytes) (san : Bool)
    → (qual_match (some (c ∷ s)) prefix (some qual) san ≡ true)
      ↔ (c ∷ s ≡ prefix ++ map (qual_char san) qual)
unfolding qual_match qual_loops
qual_match_iff c s prefix qual san = elim (Option-cases (after_prefix prefix (c ∷ s))) [
  | inl e ↦
      let eq : qual_match (some (c ∷ s)) prefix (some qual) san ≡ false = rw (e, qual_loops) in
      (
        λ h. let no_match : false ≡ true = sym eq ∙ h in cc,
        λ h. let found = (after_prefix_iff prefix (c ∷ s) (map (qual_char san) qual)).1 h in cc,
      )
  | inr (rest, e) ↦
      let eq : qual_match (some (c ∷ s)) prefix (some qual) san ≡ qual_loop san qual rest =
        rw (e, qual_loops) in
      (
        λ h.
            (after_prefix_iff prefix (c ∷ s) rest).0 e
            ∙ ap (◌++◌ prefix) ((qual_loop_iff san qual rest).0 (sym eq ∙ h)),
        λ h.
            let found = (after_prefix_iff prefix (c ∷ s) (map (qual_char san) qual)).1 h in
            let same : rest ≡ map (qual_char san) qual = cc in
            eq ∙ (qual_loop_iff san qual rest).1 same,
      )
]
