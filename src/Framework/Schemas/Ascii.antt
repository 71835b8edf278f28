-- ===== src/Framework/Schemas/Ascii.antt =====
-- The texts that the schemas make themselves are ASCII.
use substance_3d_connector.Base.{
  ℕ, zero, suc, ◌-◌, ◌/◌, ◌%◌, ◌^◌, ◌<◌, ◌≡◌, refl, arith, true, List, [], ◌∷◌, ◌++◌, length,
  replicate,
}
use substance_3d_connector.Uuid.{Uuid}
use substance_3d_connector.Framework.Uuids.{hex_digit, hex_digits, print_hex, uuid_to_string, dash}
use substance_3d_connector.Framework.Json.{is_ascii}

hex_digit-is_ascii :
    (d : ℕ) (rest : List ℕ) → d < 16 → is_ascii rest ≡ true → is_ascii (hex_digit d ∷ rest) ≡ true
hex_digit-is_ascii d rest h e = ground arith

hex_digits-is_ascii :
    (fuel n : ℕ) (rest : List ℕ) → is_ascii rest ≡ true → is_ascii (hex_digits fuel n rest) ≡ true
unfolding hex_digits
hex_digits-is_ascii zero n rest e = e
hex_digits-is_ascii (suc fuel) n rest e =
    let d = hex_digit-is_ascii (n % 16) rest (omega arith) e in
    ground (arith, d, hex_digits-is_ascii fuel (n / 16) (hex_digit (n % 16) ∷ rest) d)

zeros-is_ascii : (k : ℕ) (s : List ℕ) → is_ascii s ≡ true → is_ascii (replicate k 48 ++ s) ≡ true
zeros-is_ascii zero s e = e
zeros-is_ascii (suc k) s e = zeros-is_ascii k s e

append-is_ascii : (s t : List ℕ) → is_ascii s ≡ true → is_ascii t ≡ true → is_ascii (s ++ t) ≡ true
append-is_ascii [] t e e' = e'
append-is_ascii (b ∷ s) t e e' = ground (arith, append-is_ascii s t)

print_hex-is_ascii : (width n : ℕ) → is_ascii (print_hex width n) ≡ true
unfolding print_hex
print_hex-is_ascii width n =
    zeros-is_ascii (width - length (hex_digits 8 n [])) (hex_digits 8 n [])
      (hex_digits-is_ascii 8 n [] refl)

append_hex :
    (width n : ℕ) (t : List ℕ) → is_ascii t ≡ true → is_ascii (print_hex width n ++ t) ≡ true
append_hex width n t e = append-is_ascii (print_hex width n) t (print_hex-is_ascii width n) e

pub uuid_to_string-is_ascii : (u : Uuid) → is_ascii (uuid_to_string u) ≡ true
unfolding uuid_to_string
uuid_to_string-is_ascii u =
    let end = append_hex 4 (u.e2 % 2 ^ 16) (print_hex 8 u.e3) (print_hex-is_ascii 8 u.e3) in
    let end' = append_hex 4 (u.e2 / 2 ^ 16) (dash ∷ _) end in
    append_hex 8 u.e0 (dash ∷ _)
      (append_hex 4 (u.e1 / 2 ^ 16) (dash ∷ _) (append_hex 4 (u.e1 % 2 ^ 16) (dash ∷ _) end'))
