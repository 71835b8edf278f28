-- ===== src/Strings/Trim.antt =====
-- What `connector_chomp` takes away.
use substance_3d_connector.Base.{
  ℕ, zero, suc, ◌+◌, ◌≤◌, ◌≡◌, ◌≢◌, refl, arith, ==_refl, ne→==, ◌∙◌, sym, ap, ℕ_discrete, List, [],
  ◌∷◌, ◌++◌, get_or, take, take-suc, take-length, append_nil, length, replicate,
}
use mathlib.Core.List.{append_assoc}
use substance_3d_connector.Strings.{chomp, chomp_from}

-- The string does not end in the byte.
abbrev pub EndsOtherwise : ℕ → List ℕ → Type 0
EndsOtherwise delim [] = Unit
EndsOtherwise delim (b ∷ s) = get_or (b ∷ s) (length s) 0 ≢ delim

replicate-plus : (n c : ℕ) → replicate (n + 1) c ≡ replicate (suc n) c
replicate-plus n c = ap (λ k. replicate k c) {x = n + 1} {y = suc n} (omega arith)

length-take : (n : ℕ) (s : List ℕ) → n ≤ length s → length (take n s) ≡ n
length-take zero s h = refl
length-take (suc n) [] h = absurd (omega arith)
length-take (suc n) (b ∷ s) h = ap suc (length-take n s (omega arith))

-- A list is what comes before its last element, and that one.
last_apart : (s : List ℕ) (n : ℕ) → length s ≡ suc n → s ≡ take n s ++ (get_or s n 0 ∷ [])
last_apart s n e = sym (take-length s) ∙ ap (λ k. take k s) e ∙ take-suc n s 0 (omega arith)

replicate-suc : (n c : ℕ) → replicate (suc n) c ≡ replicate n c ++ (c ∷ [])
replicate-suc zero c = refl
replicate-suc (suc n) c = ap (λ l. c ∷ l) (replicate-suc n c)

-- A string is what is left of it, with the bytes that were counted behind.
record Trimmed (delim : ℕ) (s : List ℕ) (r : ℕ × List ℕ) : Type 0 where
  whole : s ≡ r.1 ++ replicate r.0 delim
  rest : EndsOtherwise delim r.1

chomp_from-trims :
    (delim n : ℕ) (s : List ℕ) → length s ≡ n → Trimmed delim s (chomp_from delim n s)
unfolding chomp_from
chomp_from-trims delim zero [] e = record { whole = refl; rest = tt }
chomp_from-trims delim zero (b ∷ s) e = absurd (omega arith)
chomp_from-trims delim (suc n) [] e = absurd (omega arith)
chomp_from-trims delim (suc n) (b ∷ s) e = elim (ℕ_discrete (get_or (b ∷ s) n 0) delim) [
  | yes same ↦
      let ih = chomp_from-trims delim n (take n (b ∷ s)) (length-take n (b ∷ s) (omega arith)) in
      rw (same, ==_refl delim)
        (record {
          whole =
              last_apart (b ∷ s) n e
              ∙ ap (λ l. l ++ (get_or (b ∷ s) n 0 ∷ [])) ih.whole
              ∙ append_assoc (chomp_from delim n (take n (b ∷ s))).1 _ _
              ∙ ap (λ l. (chomp_from delim n (take n (b ∷ s))).1 ++ l)
                  (ap (λ c. replicate (chomp_from delim n (take n (b ∷ s))).0 delim ++ (c ∷ []))
                      same
                    ∙ sym (
                        replicate-plus (chomp_from delim n (take n (b ∷ s))).0 delim
                        ∙ replicate-suc (chomp_from delim n (take n (b ∷ s))).0 delim));
          rest = ih.rest;
        })
  | no other ↦ rw (ne→== (get_or (b ∷ s) n 0) delim other) (record {
    whole = sym (append_nil (b ∷ s));
    rest = λ f. other (ap (λ k. get_or (b ∷ s) k 0) (omega arith) ∙ f);
  })
]

-- `connector_chomp` takes away all of the given bytes at the end of a string, gives their number,
-- and leaves the rest as it was.
chomp-trims :
    (s : List ℕ) (delim : ℕ)
    → let (amount, rest) = chomp s delim in
      (s ≡ rest ++ replicate amount delim) × EndsOtherwise delim rest
unfolding chomp
chomp-trims s delim = let w = chomp_from-trims delim (length s) s refl in (w.whole, w.rest)
