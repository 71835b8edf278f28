-- ===== src/Strings.antt =====
-- core/src/details/string_utils.c and core/src/details/system/pathutils.c. A C string is the list of
-- its bytes before the terminator; what reads or writes outside of a buffer gives `none`. The
-- allocator has memory.
pub mod Copies
pub mod Trim
pub mod Joins
use substance_3d_connector.Base.{
  ℕ, zero, suc, ◌+◌, ◌-◌, leb, ◌==◌, ◌>>=◌, Bool, true, false, if◌then◌else◌, List, [], ◌∷◌, ◌++◌,
  Option, none, some, get_or, take, length,
}
use substance_3d_connector.Retcode.{Retcode}
use substance_3d_connector.Wire.{fill}

-- `connector_memrchr` on the given number of bytes: the index of the last occurrence.
unfoldable pub memrchr : List ℕ → ℕ → ℕ → Option ℕ
memrchr buffer c zero = none
memrchr buffer c (suc n) =
    let rest = memrchr buffer c n in if get_or buffer n 0 == c then some n else rest

-- The end of `connector_untrusted_strlen`; the flag says whether the out parameter is not null.
abbrev found_length : Bool → Option ℕ → Retcode × Option ℕ
found_length wanted none = (Retcode.error, none)
found_length false (some index) = (Retcode.error, none)
found_length true (some index) = (Retcode.success, some index)

-- `connector_untrusted_strlen`
unfoldable untrusted_strlen : List ℕ → ℕ → Bool → Retcode × Option ℕ
unfolding memrchr
untrusted_strlen buffer buffer_length wanted = found_length wanted (memrchr buffer 0 buffer_length)

-- `connector_strndup`: the bytes of the copy.
unfoldable pub strndup : Option (List ℕ) → ℕ → Option (Option (List ℕ))
strndup none n = some none
strndup (some s) n =
    let length = length s + 1 in
    let bytes = s ++ (0 ∷ []) in if leb n length then some (some (take n bytes)) else none

-- The loop of `connector_chomp` from the given number of bytes on: a terminator in place of the last
-- byte ends the string there.
unfoldable pub chomp_from : ℕ → ℕ → List ℕ → ℕ × List ℕ
chomp_from delim zero s = (0, s)
chomp_from delim (suc i) s =
    let (amount, rest) = chomp_from delim i (take i s) in
    if get_or s i 0 == delim then (amount + 1, rest) else (0, s)

-- `connector_chomp`: the amount, and the string.
unfoldable pub chomp : List ℕ → ℕ → ℕ × List ℕ
unfolding chomp_from
chomp s delim = chomp_from delim (length s) s

-- CONNECTOR_PATH_DELIM
abbrev pub path_delim : ℕ
path_delim = 47

-- The first loop of `connector_path_join`: the size of the parts.
abbrev pub sizes : List (List ℕ) → ℕ
sizes [] = 0
sizes (part ∷ parts) = length part + sizes parts

-- The second loop: what is written.
abbrev pub written : List (List ℕ) → List ℕ
written [] = []
written (part ∷ []) = part ++ (0 ∷ [])
written (part ∷ next ∷ parts) = part ++ (path_delim ∷ written (next ∷ parts))

-- `connector_path_join`: the code and the buffer.
unfoldable pub path_join : List (List ℕ) → Option (Retcode × Option (List ℕ))
path_join [] = some (Retcode.error, none)
path_join (part ∷ parts) =
    let size = sizes (part ∷ parts) + (length (part ∷ parts) - 1) in
    fill (size + 1) (written (part ∷ parts)) >>= λ buffer. some (Retcode.success, some buffer)
