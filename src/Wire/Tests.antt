-- ===== src/Wire/Tests.antt =====
-- The theorems at the platform and the socket of Wire.Sample.
use substance_3d_connector.Base.{
  ℕ, ◌≤◌, ◌≡◌, ◌≢◌, refl, arith, List, [], ◌∷◌, true, false, none, some, length, length-take_le,
}
use substance_3d_connector.Retcode.{Retcode}
use substance_3d_connector.Uuid.{internal_handshake_uuid}
use substance_3d_connector.Message.{Message}
use substance_3d_connector.Wire.{
  Socket, Fits, htonheader, ntohheader, send_message_generic, read_message_generic, send_allocated,
  read_message_data,
}
use substance_3d_connector.Wire.Sample.{little_endian, loopback}
use substance_3d_connector.Wire.Bounds.{read_message_data-bounded}
use substance_3d_connector.Wire.Roundtrip.{ntohheader-htonheader, Delivers, read_message-send}

abbrev loopback-Delivers : Delivers loopback
loopback-Delivers = record {
  queue = λ w fd. w;
  sends = λ w fd bytes. (refl, refl);
  receives = λ w fd n h. (refl, refl);
}

abbrev hello : List ℕ
hello = 104 ∷ 101 ∷ 108 ∷ 108 ∷ 111 ∷ []

abbrev greeting : Message
greeting = record {
  header = record {
    description = 0x03c9;
    message_length = 5;
    message_id = internal_handshake_uuid;
  };
  message = some hello;
  context = 3;
}

greeting-Fits : Fits greeting.header
greeting-Fits = omega arith

abbrev blank : Message
blank = record {
  header = record {
    description = 0;
    message_length = 0;
    message_id = record { e0 = 0; e1 = 0; e2 = 0; e3 = 0 };
  };
  message = none;
  context = 7;
}

abbrev oversized : Message
oversized = record greeting { header = record (greeting.header) { message_length = 4294967295 } }

ntohheader-htonheader_example :
    ntohheader little_endian (htonheader little_endian greeting.header) ≡ greeting.header
ntohheader-htonheader_example = ntohheader-htonheader little_endian greeting.header greeting-Fits

read_message-send_example :
    (v : List ℕ) × (z : List ℕ) × (send_message_generic little_endian loopback [] 4 greeting
      ≡ some (Retcode.success, v))
    × (read_message_generic little_endian loopback v 4 blank
        ≡ some
            (Retcode.success, record blank { header = greeting.header; message = some hello }, z))
    × (z ≡ [])
read_message-send_example =
    read_message-send little_endian loopback loopback-Delivers 4 [] greeting blank hello
      greeting-Fits (omega arith) refl refl refl (omega arith) refl

-- The other end gives two bytes, whatever it is asked for.
abbrev stingy : Socket (List ℕ)
stingy = record loopback { recv = λ w fd n. (some (1 ∷ 2 ∷ []), w) }

asked : (n : ℕ) (b : List ℕ) → (loopback.recv hello 4 n).0 ≡ some b → length b ≤ n
asked n b e = ground (arith, length-take_le n hello)

read_message_data-bounded_example :
    (read_message_data little_endian loopback true hello 4 greeting ≢ none)
    × (read_message_data little_endian loopback false hello 4 greeting ≡ none)
read_message_data-bounded_example =
    read_message_data-bounded little_endian loopback hello 4 greeting (omega arith) asked

-- Without memory a send writes through a null pointer.
send_without_memory : send_allocated little_endian loopback false [] 4 greeting ≡ none
unfolding send_allocated
send_without_memory = refl
