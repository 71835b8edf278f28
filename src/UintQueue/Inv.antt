-- ===== src/UintQueue/Inv.antt =====
-- The queue between calls: its representation invariant, and the list of elements that it holds.

use native.Mathlib.Nat.{mod-add-mod, mod-eq_of_lt, mod-eq-sub-mod, mod-lt}
use substance_3d_connector.Base.{
  ℕ, zero, suc, ◌+◌, ◌-◌, ◌%◌, ◌^◌, ◌≤◌, ◌<◌, ◌≡◌, refl, ap, ap₂, ◌∙◌, ◌≢◌, List, [], ◌∷◌, ◌++◌,
  arith, dec_lt, length, get_or, set, get_or-set_self, get_or-set_ne,
}
use substance_3d_connector.UintQueue.{UintQueue}

-- No call is under way, and no index has wrapped.
pub record IsQuiet (q : UintQueue) : Type 0 where
  pub committed : q.max_index ≡ q.write_index
  pub ordered : q.read_index ≤ q.write_index
  pub room : q.write_index < q.read_index + q.size
  pub storage : length q.array ≡ q.size
  pub small : q.write_index < 2 ^ 32

-- Fewer than `n` steps forward do not come back to the same slot.
pub add-mod-ne : (r d n : ℕ) → 0 < d → d < n → (r + d) % n ≢ r % n
add-mod-ne r d n hd hn = elim (dec_lt (r % n + d) n) [
  | yes p ↦ omega (arith, mod-add-mod r n d, mod-eq_of_lt p)
  | no p ↦ omega (
    arith,
    mod-add-mod r n d,
    mod-eq-sub-mod {n = r % n + d} {m = n} (omega arith),
    mod-eq_of_lt {n = r % n + d - n} {m = n} (omega arith),
  )
]

-- The `n` elements of the tickets from `t` on.
abbrev pub window : List ℕ → ℕ → ℕ → ℕ → List ℕ
window array size t zero = []
window array size t (suc n) = get_or array (t % size) 0 ∷ window array size (suc t) n

-- The elements held, oldest first.
abbrev pub contents : UintQueue → List ℕ
contents q = window q.array q.size q.read_index (q.write_index - q.read_index)

pub length-window : (array : List ℕ) (size t n : ℕ) → length (window array size t n) ≡ n
length-window array size t zero = refl
length-window array size t (suc n) = ap suc (length-window array size (suc t) n)

-- A write to a slot outside the window leaves it alone.
window-set_ne :
    (array : List ℕ) (size v t n k : ℕ)
    → t + n ≤ k
    → k < t + size
    → window (set array (k % size) v) size t n ≡ window array size t n
window-set_ne array size v t zero k h l = refl
window-set_ne array size v t (suc n) k h l =
    ap₂ ◌∷◌ (get_or-set_ne array (k % size) (t % size) v 0 apart)
      (window-set_ne array size v (suc t) n k (omega arith) (omega arith))
  where
    apart : k % size ≢ t % size
    apart e =
        add-mod-ne t (k - t) size (omega arith) (omega arith) (ap (λ j. j % size) (omega arith) ∙ e)

-- Writing the slot just past a window extends the window by that element.
pub window-set :
    (array : List ℕ) (size v t n k : ℕ)
    → k ≡ t + n
    → k < t + size
    → length array ≡ size
    → window (set array (k % size) v) size t (suc n) ≡ window array size t n ++ (v ∷ [])
window-set array size v t zero k e l s =
    ap (λ x. x ∷ [])
      (ap (λ x. get_or (set array (k % size) v) (x % size) 0) (omega arith)
        ∙ get_or-set_self array (k % size) v 0 (omega (arith, mod-lt k {m = size} (omega arith))))
window-set array size v t (suc n) k e l s =
    ap₂ ◌∷◌ (get_or-set_ne array (k % size) (t % size) v 0 apart)
      (window-set array size v (suc t) n k (omega arith) (omega arith) s)
  where
    apart : k % size ≢ t % size
    apart h =
        add-mod-ne t (k - t) size (omega arith) (omega arith) (ap (λ j. j % size) (omega arith) ∙ h)
