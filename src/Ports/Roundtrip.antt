-- ===== src/Ports/Roundtrip.antt =====
-- The port of a file's name is read back.
use substance_3d_connector.Base.{
  ℕ, zero, suc, ◌+◌, ◌-◌, ◌^◌, ◌<◌, ◌≤◌, ◌≡◌, refl, arith, ◌∙◌, sym, ap, List, [], ◌∷◌, ◌++◌,
  Option, some, drop, length, get_or, ℕ_discrete, dec_lt, length-append,
}
use substance_3d_connector.Strings.{path_delim}
use substance_3d_connector.Strings.Copies.{LastOf, memrchr-last}
use substance_3d_connector.Strings.Joins.{path_join-intercalated}
use substance_3d_connector.Wire.{c_string}
use substance_3d_connector.Ports.Decimal.{
  Digits, digits-Digits, atoi-Digits, no_delim, number-digits, print_port-digits,
}
use substance_3d_connector.Wire.Roundtrip.{NoZero}
use substance_3d_connector.Ports.{digits, number, print_port, create_tcp_filepath, port_of_path}

get_or-behind :
    (xs ys : List ℕ) (j : ℕ) → length xs ≤ j → get_or (xs ++ ys) j 0 ≡ get_or ys (j - length xs) 0
get_or-behind [] ys j h = ap (λ k. get_or ys k 0) {x = j} {y = j - 0} (omega arith)
get_or-behind (x ∷ xs) ys zero h = absurd (omega arith)
get_or-behind (x ∷ xs) ys (suc j) h =
    get_or-behind xs ys j (omega arith)
    ∙ ap (λ k. get_or ys k 0) {x = j - length xs} {y = suc j - suc (length xs)} (omega arith)

LastOf-delim :
    (dir bytes : List ℕ) (r : Option ℕ)
    → Digits bytes
    → LastOf (dir ++ (path_delim ∷ bytes)) path_delim (length (dir ++ (path_delim ∷ bytes))) r
    → r ≡ some (length dir)
LastOf-delim dir bytes _ d (LastOf.nowhere never) = absurd (
    never (length dir) (omega (arith, length-append dir (path_delim ∷ bytes))) (
      get_or-behind dir (path_delim ∷ bytes) (length dir) (omega arith)
      ∙ ap (λ k. get_or (path_delim ∷ bytes) k 0) {x = length dir - length dir} {y = 0}
          (omega arith)))
LastOf-delim dir bytes _ d (LastOf.at i h e later) = elim (dec_lt i (length dir)) [
  | yes low ↦ absurd (
      later (length dir) low (omega (arith, length-append dir (path_delim ∷ bytes))) (
        get_or-behind dir (path_delim ∷ bytes) (length dir) (omega arith)
        ∙ ap (λ k. get_or (path_delim ∷ bytes) k 0) {x = length dir - length dir} {y = 0}
            (omega arith)))
  | no high ↦ elim (ℕ_discrete i (length dir)) [
    | yes same ↦ ap some same
    | no apart ↦ absurd (
        no_delim bytes (i - length dir - 1) d (
          ap (λ k. get_or (path_delim ∷ bytes) k 0) {x = suc (i - length dir - 1)}
            {y = i - length dir} (omega arith)
          ∙ sym (get_or-behind dir (path_delim ∷ bytes) i (omega arith))
          ∙ e))
  ]
]

drop-behind : (dir bytes : List ℕ) → drop (length dir + 1) (dir ++ (path_delim ∷ bytes)) ≡ bytes
drop-behind dir bytes =
    ap (λ k. drop k (dir ++ (path_delim ∷ bytes))) {x = length dir + 1} {y = suc (length dir)}
      (omega arith)
    ∙ go dir
  where
    go : (dir : List ℕ) → drop (suc (length dir)) (dir ++ (path_delim ∷ bytes)) ≡ bytes
    go [] = refl
    go (x ∷ dir) = go dir

-- The port of a path that ends in a printed port.
port_of_path-printed :
    (dir : List ℕ) (port : ℕ)
    → port < 2 ^ 31
    → port_of_path (dir ++ (path_delim ∷ digits 10 port [])) ≡ some port
unfolding port_of_path
port_of_path-printed dir port small =
    let bytes = digits 10 port [] in
    let d = digits-Digits 10 port [] tt in
    let found = LastOf-delim dir bytes _ d (memrchr-last _ path_delim _) in
    let read : number 0 bytes ≡ port = number-digits 9 port [] (omega arith) in
    rw (found, drop-behind dir bytes) (atoi-Digits bytes d (omega (arith, read)) ∙ ap some read)

NoZero-append : (xs ys : List ℕ) → NoZero xs → NoZero ys → NoZero (xs ++ ys)
NoZero-append [] ys p q = q
NoZero-append (x ∷ xs) ys (h, p) q = (h, NoZero-append xs ys p q)

NoZero-Digits : (bytes : List ℕ) → Digits bytes → NoZero bytes
NoZero-Digits [] d = tt
NoZero-Digits (b ∷ bytes) (low, high, d) = (λ e. absurd (omega (arith, e)), NoZero-Digits bytes d)

c_string-terminated : (bytes : List ℕ) → NoZero bytes → c_string (bytes ++ (0 ∷ [])) ≡ bytes
c_string-terminated [] p = refl
c_string-terminated (b ∷ bytes) p = ground (arith, c_string-terminated bytes p.1)

-- The path of the file that an open port is committed to is built within its buffer, and the port
-- that an automatic connection pulls out of that path with atoi is the same one, for a port below
-- `2 ^ 31`, which an int holds, and a directory that is a C string.
pub port_file_roundtrip :
    (directory : List ℕ) (port : ℕ)
    → port < 2 ^ 31
    → NoZero directory
    → (buffer : List ℕ) × (create_tcp_filepath directory port ≡ some (some buffer))
      × (port_of_path (c_string buffer) ≡ some port)
unfolding create_tcp_filepath
port_file_roundtrip directory port small clean =
    let bytes = digits 10 port [] in
    let path = directory ++ (path_delim ∷ bytes) in
    let d = digits-Digits 10 port [] tt in
    let joined = path_join-intercalated directory (print_port port ∷ []) in
    (
      path ++ (0 ∷ []),
      rw (joined, print_port-digits port) refl,
      rw
          (c_string-terminated path (
            NoZero-append directory _ clean
              (λ e. absurd (omega (arith, e)), NoZero-Digits bytes d)))
          (port_of_path-printed directory port small),
    )
