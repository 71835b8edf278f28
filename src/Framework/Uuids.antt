-- ===== src/Framework/Uuids.antt =====
-- module-cpp/src/framework/uuid.cpp: the order of identifiers, and their texts. A text is the list of
-- its bytes. A stream prints and reads numbers in base 16 as the standard says. `Hex` has the numbers,
-- `Texts` the round trip, `Order` the comparison with the one of the core.
pub mod Hex
pub mod Texts
pub mod Order
mod Tests
use substance_3d_connector.Base.{
  ℕ, zero, suc, ◌+◌, ◌-◌, ◌*◌, ◌/◌, ◌%◌, ◌^◌, ltb, leb, ◌==◌, ◌&&◌, ◌||◌, not, if◌then◌else◌, Bool,
  true, false, List, [], ◌∷◌, ◌++◌, Option, none, some, length, replicate, set, get_or, u32,
}
use substance_3d_connector.Uuid.{Uuid}

-- operator< of tuples is lexicographic.
unfoldable pub less_elements : List (ℕ × ℕ) → Bool
less_elements [] = false
less_elements ((x, y) ∷ rest) =
    if ltb x y then true else if ltb y x then false else less_elements rest

-- `operator<`
unfoldable pub less : Uuid → Uuid → Bool
unfolding less_elements
less x y = less_elements ((x.e0, y.e0) ∷ (x.e1, y.e1) ∷ (x.e2, y.e2) ∷ (x.e3, y.e3) ∷ [])

-- `operator==`
unfoldable pub equal : Uuid → Uuid → Bool
equal x y = x.e0 == y.e0 && x.e1 == y.e1 && x.e2 == y.e2 && x.e3 == y.e3

-- A digit of std::hex.
abbrev pub hex_digit : ℕ → ℕ
hex_digit d = if ltb d 10 then 48 + d else 87 + d

-- The digits of a number, without zeros in front, before the given ones.
unfoldable pub hex_digits : ℕ → ℕ → List ℕ → List ℕ
hex_digits zero n rest = rest
hex_digits (suc fuel) n rest =
    let more = hex_digits fuel (n / 16) (hex_digit (n % 16) ∷ rest) in
    if n / 16 == 0 then hex_digit (n % 16) ∷ rest else more

-- A uint32_t under std::hex, std::setw and std::setfill('0').
unfoldable pub print_hex : ℕ → ℕ → List ℕ
unfolding hex_digits
print_hex width n = let s = hex_digits 8 n [] in replicate (width - length s) 48 ++ s

abbrev pub dash : ℕ
dash = 45

-- `uuidToString`
unfoldable pub uuid_to_string : Uuid → List ℕ
unfolding print_hex
uuid_to_string u =
    let end =
      print_hex 4 (u.e2 / 2 ^ 16) ++ (dash ∷ (print_hex 4 (u.e2 % 2 ^ 16) ++ print_hex 8 u.e3)) in
    print_hex 8 u.e0
    ++ (dash
        ∷ (print_hex 4 (u.e1 / 2 ^ 16) ++ (dash ∷ (print_hex 4 (u.e1 % 2 ^ 16) ++ (dash ∷ end)))))

-- The value of a digit of base 16.
abbrev pub digit_value : ℕ → Option ℕ
digit_value c =
    if leb 48 c && leb c 57
    then some (c - 48)
    else if leb 97 c && leb c 102
    then some (c - 87)
    else if leb 65 c && leb c 70
    then some (c - 55)
    else none

-- The digits at the front.
unfoldable pub read_digits : ℕ → List ℕ → ℕ
read_digits n [] = n
read_digits n (c ∷ s) =
    let rest = λ (d : ℕ). read_digits (n * 16 + d) s in
    elim (digit_value c) [ none ↦ n | some d ↦ rest d ]

-- A prefix 0x is passed over, also where no digit follows it.
abbrev pub read_prefixed : List ℕ → ℕ
read_prefixed (a ∷ b ∷ s) =
    if a == 48 && (b == 120 || b == 88) then read_digits 0 s else read_digits 0 (a ∷ b ∷ s)
read_prefixed s = read_digits 0 s

-- The reading of a uint32_t from a text under std::setbase(16): white space, and a sign; the texts
-- hold no dash, and are too short to overflow.
unfoldable pub read_hex : List ℕ → ℕ
unfolding read_digits
read_hex [] = 0
read_hex (c ∷ s) =
    let rest = read_hex s in
    if c == 32 || (leb 9 c && leb c 13)
    then rest
    else if c == 43
    then read_prefixed s
    else read_prefixed (c ∷ s)

-- What `uuidFromString` keeps: the elements read so far, and the text of the current one.
pub record Reading : Type 0 where
  pub elements : List ℕ
  pub index : ℕ
  pub current : List ℕ

-- The body of its loop for a character that is not a dash.
unfoldable pub take_character : ℕ → Reading → Reading
unfolding read_hex
take_character c r =
    let current = r.current ++ (c ∷ []) in
    if length current == 8
    then record {
      elements = set r.elements r.index (read_hex current);
      index = r.index + 1;
      current = [];
    }
    else record r { current = current }

-- The loop, which ends early after four elements.
unfoldable pub read_characters : List ℕ → Reading → Reading
unfolding take_character
read_characters [] r = r
read_characters (c ∷ s) r =
    let next = take_character c r in
    let skipped = read_characters s r in
    let taken = read_characters s next in
    if c == dash
    then skipped
    else if length next.current == 0 && leb 4 next.index
    then next
    else taken

abbrev pub to_uuid : List ℕ → Uuid
to_uuid es = record {
  e0 = get_or es 0 0;
  e1 = get_or es 1 0;
  e2 = get_or es 2 0;
  e3 = get_or es 3 0;
}

-- `uuidFromString`
unfoldable pub uuid_from_string : List ℕ → Uuid
unfolding read_characters
uuid_from_string s =
    to_uuid
      (read_characters s (record { elements = replicate 4 0; index = 0; current = [] })).elements
