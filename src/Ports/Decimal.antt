-- ===== src/Ports/Decimal.antt =====
-- Decimal numbers.
use substance_3d_connector.Base.{
  ℕ, zero, suc, ◌+◌, ◌-◌, ◌*◌, ◌/◌, ◌%◌, ◌^◌, ◌<◌, ◌≤◌, ◌≡◌, ◌≢◌, refl, arith, ◌∙◌, ap, List, [],
  ◌∷◌, take, length, get_or, some, ℕ_discrete,
}
use substance_3d_connector.Strings.{path_delim}
use substance_3d_connector.Ports.{digits, print_port, number, atoi}

-- The powers of ten.
abbrev tens : ℕ → ℕ
tens zero = 1
tens (suc k) = 10 * tens k

number_step :
    (m d : ℕ) (rest : List ℕ) → d < 10 → number m ((48 + d) ∷ rest) ≡ number (m * 10 + d) rest
number_step m d rest h =
    ground (arith, ap (λ (x : ℕ). number (m * 10 + x) rest) {x = 48 + d - 48} {y = d} (omega arith))

digits_stop :
    (fuel n : ℕ) (rest : List ℕ) → n / 10 ≡ 0 → digits (suc fuel) n rest ≡ (48 + n % 10) ∷ rest
unfolding digits
digits_stop fuel n rest e = ground arith

digits_more :
    (fuel n : ℕ) (rest : List ℕ)
    → n / 10 ≢ 0
    → digits (suc fuel) n rest ≡ digits fuel (n / 10) ((48 + n % 10) ∷ rest)
unfolding digits
digits_more fuel n rest e = ground arith

-- Reading the digits of a number goes on with the number.
pub number-digits :
    (fuel n : ℕ) (rest : List ℕ)
    → n < tens (suc fuel)
    → number 0 (digits (suc fuel) n rest) ≡ number n rest
number-digits zero n rest h =
    rw (digits_stop 0 n rest (omega arith))
      (number_step 0 (n % 10) rest (omega arith) ∙ ap (λ m. number m rest) (omega arith))
number-digits (suc fuel) n rest h = elim (ℕ_discrete (n / 10) 0) [
  | yes e ↦
      rw (digits_stop (suc fuel) n rest e)
        (number_step 0 (n % 10) rest (omega arith) ∙ ap (λ m. number m rest) (omega arith))
  | no e ↦ rw (digits_more (suc fuel) n rest e) (
      number-digits fuel (n / 10) ((48 + n % 10) ∷ rest) (omega arith)
      ∙ number_step (n / 10) (n % 10) rest (omega arith)
      ∙ ap (λ m. number m rest) (omega arith))
]

-- Every byte is the one of a digit.
abbrev pub Digits : List ℕ → Type 0
Digits [] = Unit
Digits (b ∷ bytes) = (48 ≤ b) × (b ≤ 57) × Digits bytes

pub digits-Digits : (fuel n : ℕ) (rest : List ℕ) → Digits rest → Digits (digits fuel n rest)
unfolding digits
digits-Digits zero n rest d = d
digits-Digits (suc fuel) n rest d =
    let ih = digits-Digits fuel (n / 10) ((48 + n % 10) ∷ rest) (omega arith, omega arith, d) in
    ground arith

pub atoi-Digits :
    (bytes : List ℕ) → Digits bytes → number 0 bytes < 2 ^ 31 → atoi bytes ≡ some (number 0 bytes)
atoi-Digits [] d h = refl
atoi-Digits (b ∷ bytes) (low, high, d) h = ground arith

-- A byte that is not a digit is not there.
pub no_delim : (bytes : List ℕ) (j : ℕ) → Digits bytes → get_or bytes j 0 ≢ path_delim
no_delim [] j d e = absurd (omega (arith, e))
no_delim (b ∷ bytes) zero (low, high, d) e = absurd (omega (arith, e))
no_delim (b ∷ bytes) (suc j) (low, high, d) e = no_delim bytes j d e

length-digits : (fuel n : ℕ) (rest : List ℕ) → length (digits fuel n rest) ≤ fuel + length rest
unfolding digits
length-digits zero n rest = omega arith
length-digits (suc fuel) n rest = ground (arith, length-digits fuel (n / 10) ((48 + n % 10) ∷ rest))

take_long : (n : ℕ) (xs : List ℕ) → length xs ≤ n → take n xs ≡ xs
take_long zero [] h = refl
take_long zero (x ∷ xs) h = absurd (omega arith)
take_long (suc n) [] h = refl
take_long (suc n) (x ∷ xs) h = ap (λ l. x ∷ l) (take_long n xs (omega arith))

pub print_port-digits : (port : ℕ) → print_port port ≡ digits 10 port []
print_port-digits port = take_long 15 (digits 10 port []) (omega (arith, length-digits 10 port []))
