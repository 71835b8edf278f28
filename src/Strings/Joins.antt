-- ===== src/Strings/Joins.antt =====
-- Joined paths.
use substance_3d_connector.Base.{
  ℕ, zero, suc, ◌+◌, ◌-◌, ◌≡◌, refl, arith, ◌∙◌, sym, ap, List, [], ◌∷◌, ◌++◌, some, length,
  length-append, append_nil, replicate,
}
use mathlib.Core.List.{append_assoc}
use substance_3d_connector.Retcode.{Retcode}
use substance_3d_connector.Wire.{fill}
use substance_3d_connector.Strings.{path_join, path_delim, sizes, written}

-- The parts with a delimiter between each two.
abbrev pub intercalated : List (List ℕ) → List ℕ
intercalated [] = []
intercalated (part ∷ []) = part
intercalated (part ∷ next ∷ parts) = part ++ (path_delim ∷ intercalated (next ∷ parts))

written-intercalated :
    (part : List ℕ) (parts : List (List ℕ))
    → written (part ∷ parts) ≡ intercalated (part ∷ parts) ++ (0 ∷ [])
written-intercalated part [] = refl
written-intercalated part (next ∷ parts) =
    ap (λ l. part ++ (path_delim ∷ l)) (written-intercalated next parts)
    ∙ sym (append_assoc part (path_delim ∷ intercalated (next ∷ parts)) (0 ∷ []))

length-written :
    (part : List ℕ) (parts : List (List ℕ))
    → length (written (part ∷ parts)) ≡ sizes (part ∷ parts) + length parts + 1
length-written part [] = omega (arith, length-append part (0 ∷ []))
length-written part (next ∷ parts) =
    omega
      (arith, length-append part (path_delim ∷ written (next ∷ parts)), length-written next parts)

replicate_none : (n : ℕ) → n ≡ 0 → replicate {A = ℕ} n 0 ≡ []
replicate_none zero e = refl
replicate_none (suc n) e = absurd (omega arith)

fill-exact : (size : ℕ) (bytes : List ℕ) → length bytes ≡ size → fill size bytes ≡ some bytes
fill-exact size bytes e = ground (arith, append_nil bytes, replicate_none (size - length bytes))

-- `connector_path_join` succeeds on at least one part: the buffer that it allocates is exactly what
-- it writes, the parts with a delimiter between each two and the terminator.
pub path_join-intercalated :
    (part : List ℕ) (parts : List (List ℕ))
    → path_join (part ∷ parts)
      ≡ some (Retcode.success, some (intercalated (part ∷ parts) ++ (0 ∷ [])))
unfolding path_join
path_join-intercalated part parts =
    let size : ℕ = sizes (part ∷ parts) + (length (part ∷ parts) - 1) + 1 in
    rw
      (
        fill-exact size (written (part ∷ parts)) (length-written part parts ∙ omega arith),
        written-intercalated part parts,
      )
      refl
