-- ===== src/Framework/Uuids/Hex.antt =====
-- Numbers in base 16 with a fixed number of digits, and what a stream prints and reads.
use substance_3d_connector.Base.{
  ℕ, zero, suc, ◌+◌, ◌-◌, ◌*◌, ◌/◌, ◌%◌, ◌<◌, ◌≤◌, ◌≡◌, ◌≢◌, refl, arith, ◌∙◌, ap, sym, List, [],
  ◌∷◌, ◌++◌, some, length, replicate, ℕ_discrete, leb, ne→==, Bool, true, false, ◌&&◌,
}
use substance_3d_connector.Framework.Uuids.{
  hex_digit, hex_digits, print_hex, digit_value, read_digits, read_prefixed, read_hex,
}

-- The given number of digits, before the given ones.
abbrev pub fixed : ℕ → ℕ → List ℕ → List ℕ
fixed zero n rest = rest
fixed (suc k) n rest = fixed k (n / 16) (hex_digit (n % 16) ∷ rest)

-- The powers of 16.
abbrev pub sixteens : ℕ → ℕ
sixteens zero = 1
sixteens (suc k) = 16 * sixteens k

replicate-front :
    (k : ℕ) (rest : List ℕ) → replicate k 48 ++ (48 ∷ rest) ≡ replicate (suc k) 48 ++ rest
replicate-front zero rest = refl
replicate-front (suc k) rest = ap (λ l. 48 ∷ l) (replicate-front k rest)

fixed-zero : (k : ℕ) (rest : List ℕ) → fixed k 0 rest ≡ replicate k 48 ++ rest
fixed-zero zero rest = refl
fixed-zero (suc k) rest = fixed-zero k (48 ∷ rest) ∙ replicate-front k rest

hex_digits-stop :
    (fuel n : ℕ) (rest : List ℕ)
    → n / 16 ≡ 0
    → hex_digits (suc fuel) n rest ≡ hex_digit (n % 16) ∷ rest
unfolding hex_digits
hex_digits-stop fuel n rest e = ground arith

hex_digits-more :
    (fuel n : ℕ) (rest : List ℕ)
    → n / 16 ≢ 0
    → hex_digits (suc fuel) n rest ≡ hex_digits fuel (n / 16) (hex_digit (n % 16) ∷ rest)
unfolding hex_digits
hex_digits-more fuel n rest e = ground arith

replicate_by : (m k : ℕ) (rest : List ℕ) → m ≡ k → replicate m 48 ++ rest ≡ replicate k 48 ++ rest
replicate_by m k rest e = ap (λ i. replicate i 48 ++ rest) e

-- Digits without zeros in front, with the zeros.
padded :
    (w fuel n : ℕ) (rest : List ℕ)
    → w ≤ fuel
    → n < sixteens (suc w)
    → replicate (suc w + length rest - length (hex_digits (suc fuel) n rest)) 48
        ++ hex_digits (suc fuel) n rest
      ≡ fixed (suc w) n rest
padded zero fuel n rest h small =
    rw (hex_digits-stop fuel n rest (omega arith)) (
      replicate_by (1 + length rest - suc (length rest)) 0 (hex_digit (n % 16) ∷ rest)
        (omega arith))
padded (suc w) zero n rest h small = absurd (omega arith)
padded (suc w) (suc fuel) n rest h small = elim (ℕ_discrete (n / 16) 0) [
  | yes e ↦ rw (hex_digits-stop (suc fuel) n rest e) (
      replicate_by (suc (suc w) + length rest - suc (length rest)) (suc w)
        (hex_digit (n % 16) ∷ rest) (omega arith)
      ∙ sym (fixed-zero (suc w) (hex_digit (n % 16) ∷ rest))
      ∙ ap (λ m. fixed (suc w) m (hex_digit (n % 16) ∷ rest)) (sym e))
  | no e ↦ rw (hex_digits-more (suc fuel) n rest e) (
      replicate_by
        (suc (suc w)
          + length rest
          - length (hex_digits (suc fuel) (n / 16) (hex_digit (n % 16) ∷ rest)))
        (suc w
          + suc (length rest)
          - length (hex_digits (suc fuel) (n / 16) (hex_digit (n % 16) ∷ rest)))
        _ (omega arith)
      ∙ padded w fuel (n / 16) (hex_digit (n % 16) ∷ rest) (omega arith) (omega arith))
]

-- A number that fits into the width is printed with that many digits.
pub print_hex-fixed :
    (w n : ℕ) → w ≤ 7 → n < sixteens (suc w) → print_hex (suc w) n ≡ fixed (suc w) n []
unfolding print_hex
print_hex-fixed w n h small =
    replicate_by (suc w - length (hex_digits 8 n [])) (suc w + 0 - length (hex_digits 8 n [])) _
      (omega arith)
    ∙ padded w 7 n [] h small

digit_value-digit : (d : ℕ) → d < 16 → digit_value (hex_digit d) ≡ some d
digit_value-digit d h = ground arith

read_digits_step :
    (m d : ℕ) (rest : List ℕ)
    → d < 16
    → read_digits m (hex_digit d ∷ rest) ≡ read_digits (m * 16 + d) rest
unfolding read_digits
read_digits_step m d rest h = rw (digit_value-digit d h, read_digits) refl

-- Reading the digits of a number goes on with the number.
pub read_digits-fixed :
    (k n : ℕ) (rest : List ℕ) → n < sixteens k → read_digits 0 (fixed k n rest) ≡ read_digits n rest
read_digits-fixed zero n rest small = ap (λ m. read_digits m rest) (omega arith)
read_digits-fixed (suc k) n rest small =
    read_digits-fixed k (n / 16) (hex_digit (n % 16) ∷ rest) (omega arith)
    ∙ read_digits_step (n / 16) (n % 16) rest (omega arith)
    ∙ ap (λ m. read_digits m rest) (omega arith)

pub hex_digit_range :
    (d : ℕ) → d < 16 → (48 ≤ hex_digit d) × (hex_digit d ≤ 102) × (hex_digit d ≢ 88)
hex_digit_range d h = (ground arith, ground arith, ground arith)

and_false : (b : Bool) → (b && false) ≡ false
and_false true = refl
and_false false = refl

pub lt→leb : (a b : ℕ) → b < a → leb a b ≡ false
lt→leb a b h = ground arith

read_prefixed-digits :
    (x y : ℕ) (s : List ℕ)
    → y ≤ 102
    → y ≢ 88
    → read_prefixed (x ∷ y ∷ s) ≡ read_digits 0 (x ∷ y ∷ s)
read_prefixed-digits x y s high other = ground arith

read_hex_step : (x : ℕ) (s : List ℕ) → 48 ≤ x → read_hex (x ∷ s) ≡ read_prefixed (x ∷ s)
unfolding read_hex
read_hex_step x s low =
    rw
      (
        ne→== x 32 (omega arith),
        ne→== x 43 (omega arith),
        lt→leb x 13 (omega arith),
        and_false (leb 9 x),
      )
      refl

read_digits-nil : (n : ℕ) → read_digits n [] ≡ n
unfolding read_digits
read_digits-nil n = refl

pub read_hex-fixed : (n : ℕ) → n < sixteens 8 → read_hex (fixed 8 n []) ≡ n
read_hex-fixed n small =
    let (low, _, _) = hex_digit_range _ (omega arith) in
    let (_, high, other) = hex_digit_range _ (omega arith) in
    read_hex_step _ _ low
    ∙ read_prefixed-digits _ _ _ high other
    ∙ read_digits-fixed 8 n [] small
    ∙ read_digits-nil n
