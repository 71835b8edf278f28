-- ===== src/Ports.antt =====
-- The names of the files of open TCP ports: `create_tcp_filepath` of
-- core/src/details/system/connectiondirectory.c, and the reading of a port from a path by
-- `connect_tcp_path_impl` of core/src/details/network/autoconnect.c, with what the C library says of
-- snprintf for "%u", strrchr and atoi.
pub mod Decimal
pub mod Roundtrip
mod Tests
use substance_3d_connector.Base.{
  ℕ, zero, suc, ◌+◌, ◌-◌, ◌*◌, ◌/◌, ◌%◌, ◌^◌, ltb, leb, ◌==◌, ◌&&◌, ◌>>=◌, if◌then◌else◌, Bool,
  true, false, List, [], ◌∷◌, ◌++◌, Option, none, some, drop, take, length, u32,
}
use substance_3d_connector.Retcode.{Retcode}
use substance_3d_connector.Strings.{memrchr, path_join, path_delim}
use substance_3d_connector.Wire.{c_string}

-- The decimal digits of a number in front of the given ones, for the digits that are left.
unfoldable pub digits : ℕ → ℕ → List ℕ → List ℕ
digits zero n rest = rest
digits (suc fuel) n rest =
    let more = digits fuel (n / 10) ((48 + n % 10) ∷ rest) in
    if n / 10 == 0 then (48 + n % 10) ∷ rest else more

-- snprintf of "%u" into a buffer of CONNECTOR_PORT_SPRINTF_SIZE bytes; an unsigned int has at most
-- ten digits.
abbrev port_sprintf_size : ℕ
port_sprintf_size = 16

abbrev pub print_port : ℕ → List ℕ
print_port port = take (port_sprintf_size - 1) (digits 10 port [])

-- `create_tcp_filepath` in a directory.
unfoldable pub create_tcp_filepath : List ℕ → ℕ → Option (Option (List ℕ))
create_tcp_filepath directory port = do
  (code, buffer) ← path_join (directory ∷ print_port port ∷ [])
  some buffer

-- strrchr: the index of the last such byte.
abbrev strrchr : List ℕ → ℕ → Option ℕ
strrchr s c = memrchr s c (length s)

-- The digits at the front, as atoi reads them.
abbrev pub number : ℕ → List ℕ → ℕ
number n [] = n
number n (b ∷ bytes) = if leb 48 b && leb b 57 then number (n * 10 + (b - 48)) bytes else n

-- A number below a bound, and its value as an unsigned int.
abbrev pub in_int : ℕ → ℕ → ℕ → Option ℕ
in_int bound n value = if leb n bound then some value else none

-- A sign and a number, as an unsigned int; an int holds the numbers from `- 2 ^ 31` to `2 ^ 31 - 1`.
abbrev pub signed : List ℕ → Option ℕ
signed [] = some 0
signed (b ∷ bytes) =
    if b == 45
    then in_int (2 ^ 31) (number 0 bytes) (u32 (2 ^ 32 - number 0 bytes))
    else if b == 43
    then in_int (2 ^ 31 - 1) (number 0 bytes) (number 0 bytes)
    else in_int (2 ^ 31 - 1) (number 0 (b ∷ bytes)) (number 0 (b ∷ bytes))

-- (unsigned int) of atoi: white space is skipped. `none` is a number that an int does not hold, for
-- which the C library defines nothing.
abbrev pub atoi : List ℕ → Option ℕ
atoi [] = some 0
atoi (b ∷ bytes) =
    if b == 32 then atoi bytes else if leb 9 b && leb b 13 then atoi bytes else signed (b ∷ bytes)

-- The port that `connect_tcp_path_impl` pulls out of a path; `none` for a path without a delimiter,
-- where a null pointer is read, and for a number that an int does not hold.
unfoldable pub port_of_path : List ℕ → Option ℕ
port_of_path path = strrchr path path_delim >>= λ i. atoi (drop (i + 1) path)
