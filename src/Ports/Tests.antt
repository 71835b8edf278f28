-- ===== src/Ports/Tests.antt =====
-- A port in a concrete directory.
use substance_3d_connector.Base.{ℕ, ◌≡◌, arith, List, [], ◌∷◌, none, some, ◌^◌, refl}
use substance_3d_connector.Strings
use substance_3d_connector.Wire.{c_string}
use substance_3d_connector.Wire.Roundtrip.{NoZero}
use substance_3d_connector.Ports.{create_tcp_filepath, digits, port_of_path}
use substance_3d_connector.Ports.Roundtrip.{port_file_roundtrip}

-- "/tmp" and the port 4000
tmp-NoZero : NoZero (47 ∷ 116 ∷ 109 ∷ 112 ∷ [])
tmp-NoZero = (
  λ e. absurd (omega (arith, e)),
  (
    λ e. absurd (omega (arith, e)),
    (λ e. absurd (omega (arith, e)), (λ e. absurd (omega (arith, e)), tt)),
  ),
)

port_file_roundtrip_example :
    (buffer : List ℕ) × (create_tcp_filepath (47 ∷ 116 ∷ 109 ∷ 112 ∷ []) 4000 ≡ some (some buffer))
    × (port_of_path (c_string buffer) ≡ some 4000)
port_file_roundtrip_example =
    port_file_roundtrip (47 ∷ 116 ∷ 109 ∷ 112 ∷ []) 4000 (omega arith) tmp-NoZero

-- A port from `2 ^ 31` on is printed, but an int does not hold it.
port_overflow : port_of_path (47 ∷ digits 10 (2 ^ 31) []) ≡ none
unfolding port_of_path digits Strings.memrchr
port_overflow = refl
