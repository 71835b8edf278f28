-- ===== src/Base/Count.antt =====
-- How often a number stands in a list.
use Prim.Native.Nat.{ℕ, zero, suc, ◌+◌, ◌≤◌, ◌<◌}
use mathlib.Core.Path.{◌≡◌, refl}
use mathlib.Core.List.{List, [], ◌∷◌, ◌++◌}
use native.Mathlib.Omega.{arith}
use substance_3d_connector.Base.Tests.{◌==◌, if◌then◌else◌, ==_refl}
use substance_3d_connector.Base.Lists.{get_or, length, set, take, take-suc}

abbrev pub count : ℕ → List ℕ → ℕ
count t [] = 0
count t (u ∷ us) = if u == t then count t us + 1 else count t us

count-append : (t : ℕ) (xs ys : List ℕ) → count t (xs ++ ys) ≡ count t xs + count t ys
count-append t [] ys = omega arith
count-append t (x ∷ xs) ys = ground (arith, count-append t xs ys)

-- A list whose counts are all zero is empty.
pub empty_of_count : (xs : List ℕ) → ((t : ℕ) → count t xs ≡ 0) → xs ≡ []
empty_of_count [] h = refl
empty_of_count (x ∷ xs) h = absurd (ground (arith, h x, ==_refl x))

pub count-take-suc :
    (t i : ℕ) (xs : List ℕ)
    → i < length xs
    → count t (take (suc i) xs) ≡ count t (take i xs) + (if get_or xs i 0 == t then 1 else 0)
count-take-suc t i xs h = rw (take-suc i xs 0 h, count-append t (take i xs)) (ground arith)

pub take-set_le : (n i v : ℕ) (xs : List ℕ) → n ≤ i → take n (set xs i v) ≡ take n xs
take-set_le zero i v xs h = refl
take-set_le (suc n) i v [] h = refl
take-set_le (suc n) zero v (x ∷ xs) h = absurd (omega arith)
take-set_le (suc n) (suc i) v (x ∷ xs) h = rw (take-set_le n i v xs (omega arith)) refl

-- Overwriting an element in the prefix exchanges one occurrence for another.
pub count-take-set :
    (t n i v : ℕ) (xs : List ℕ)
    → i < n
    → n ≤ length xs
    → count t (take n (set xs i v)) + (if get_or xs i 0 == t then 1 else 0)
      ≡ count t (take n xs) + (if v == t then 1 else 0)
count-take-set t zero i v xs h l = absurd (omega arith)
count-take-set t (suc n) i v [] h l = absurd (omega arith)
count-take-set t (suc n) zero v (x ∷ xs) h l = ground arith
count-take-set t (suc n) (suc i) v (x ∷ xs) h l =
    ground (arith, count-take-set t n i v xs (omega arith) (omega arith))
