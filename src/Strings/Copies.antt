-- ===== src/Strings/Copies.antt =====
-- What the searches and the copies give.
use substance_3d_connector.Base.{
  ℕ, zero, suc, ◌+◌, ◌<◌, ◌≡◌, ◌≢◌, arith, dec_lt, leb, ◌==◌, ==_refl, if◌then◌else◌, List, [], ◌∷◌,
  ◌++◌, Option, none, some, get_or, take, length, ℕ_discrete, ne→==, subst, sym, ap, ◌∙◌,
  take-length, take-append_le, length-append,
}
use substance_3d_connector.Strings.{memrchr, strndup}

-- The index is the one of the last such byte, or there is none.
pub data LastOf (buffer : List ℕ) (c n : ℕ) : Option ℕ → Type 0 where
  at :
      (i : ℕ)
      → i < n
      → get_or buffer i 0 ≡ c
      → ((j : ℕ) → i < j → j < n → get_or buffer j 0 ≢ c)
      → LastOf buffer c n (some i)
  nowhere : ((j : ℕ) → j < n → get_or buffer j 0 ≢ c) → LastOf buffer c n none

beyond :
    (buffer : List ℕ) (c n : ℕ) (r : Option ℕ)
    → get_or buffer n 0 ≢ c
    → LastOf buffer c n r
    → LastOf buffer c (suc n) r
beyond buffer c n _ apart (at i h e later) = at i (omega arith) e (λ j low high.
    elim (ℕ_discrete j n) [
      | yes same ↦ subst (λ k. get_or buffer k 0 ≢ c) (sym same) apart
      | no other ↦ later j low (omega arith)
    ])
beyond buffer c n _ apart (nowhere never) = nowhere (λ j high. elim (ℕ_discrete j n) [
  | yes same ↦ subst (λ k. get_or buffer k 0 ≢ c) (sym same) apart
  | no other ↦ never j (omega arith)
])

-- `connector_memrchr` gives the index of the last occurrence of the byte among the first ones of
-- the buffer, and nothing exactly when there is none.
pub memrchr-last : (buffer : List ℕ) (c n : ℕ) → LastOf buffer c n (memrchr buffer c n)
unfolding memrchr
memrchr-last buffer c zero = nowhere (λ j h. absurd (omega arith))
memrchr-last buffer c (suc n) = elim (ℕ_discrete (get_or buffer n 0) c) [
  | yes e ↦ rw (e, ==_refl c) (at n (omega arith) e (λ j low high. absurd (omega arith)))
  | no e ↦ rw (ne→== (get_or buffer n 0) c e) (beyond buffer c n _ e (memrchr-last buffer c n))
]

take_all : (s : List ℕ) → take (length s + 1) (s ++ (0 ∷ [])) ≡ s ++ (0 ∷ [])
take_all s =
    ap (λ k. take k (s ++ (0 ∷ []))) (sym (length-append s (0 ∷ []))) ∙ take-length (s ++ (0 ∷ []))

-- A copy of `connector_strndup` is a C string only when the given number counts the string and its
-- terminator: a smaller number gives a buffer without a terminator, a larger one reads behind the
-- string.
strndup-terminated :
    (s : List ℕ) (n : ℕ)
    → strndup (some s) n ≡ (
        if n == length s + 1
        then some (some (s ++ (0 ∷ [])))
        else if leb n (length s)
        then some (some (take n s))
        else none)
unfolding strndup
strndup-terminated s n = elim (dec_lt n (length s + 1)) [
  | yes h ↦ ground (arith, take-append_le n s (0 ∷ []) (omega arith))
  | no h ↦ elim (ℕ_discrete n (length s + 1)) [
    | yes e ↦ ground (arith, take_all s, e)
    | no e ↦ ground arith
  ]
]
