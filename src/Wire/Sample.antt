-- ===== src/Wire/Sample.antt =====
-- A little-endian platform with padded headers, and a loopback socket.
use substance_3d_connector.Base.{
  ℕ, ◌+◌, ◌*◌, ◌/◌, ◌%◌, ◌^◌, ◌<◌, ◌≡◌, refl, arith, List, [], ◌∷◌, ◌++◌, some, length, get_or,
  take, drop,
}
use substance_3d_connector.Message.{Header}
use substance_3d_connector.Wire.{Platform, Socket, Fits}

abbrev pub swap2 : ℕ → ℕ
swap2 x = x % 256 * 256 + x / 256

abbrev pub swap4 : ℕ → ℕ
swap4 x = x % 256 * 16777216 + x / 256 % 256 * 65536 + x / 65536 % 256 * 256 + x / 16777216

pub swap2-swap2 : (x : ℕ) → x < 2 ^ 16 → swap2 (swap2 x) ≡ x
swap2-swap2 x h = omega arith

pub swap4-swap4 : (x : ℕ) → x < 2 ^ 32 → swap4 (swap4 x) ≡ x
swap4-swap4 x h = omega arith

pub swap2-lt : (x : ℕ) → x < 2 ^ 16 → swap2 x < 2 ^ 16
swap2-lt x h = omega arith

pub swap4-lt : (x : ℕ) → x < 2 ^ 32 → swap4 x < 2 ^ 32
swap4-lt x h = omega arith

abbrev pub bytes4 : ℕ → List ℕ → List ℕ
bytes4 x l = x % 256 ∷ x / 256 % 256 ∷ x / 65536 % 256 ∷ x / 16777216 % 256 ∷ l

-- Two bytes, two of padding, and five times four bytes.
abbrev pub encode : Header → List ℕ
encode h =
    h.description % 256
    ∷ h.description / 256 % 256
    ∷ 0
    ∷ 0
    ∷ bytes4 h.message_length (
        bytes4 h.message_id.e0
          (bytes4 h.message_id.e1 (bytes4 h.message_id.e2 (bytes4 h.message_id.e3 []))))

abbrev pub word4 : List ℕ → ℕ → ℕ
word4 l i =
    get_or l i 0
    + get_or l (i + 1) 0 * 256
    + get_or l (i + 2) 0 * 65536
    + get_or l (i + 3) 0 * 16777216

abbrev pub decode : List ℕ → Header
decode l = record {
  description = get_or l 0 0 + get_or l 1 0 * 256;
  message_length = word4 l 4;
  message_id = record { e0 = word4 l 8; e1 = word4 l 12; e2 = word4 l 16; e3 = word4 l 20 };
}

pub decode-encode : (h : Header) → Fits h → decode (encode h) ≡ h
decode-encode h f = ground arith

abbrev pub little_endian : Platform
little_endian = record {
  htons = swap2;
  htonl = swap4;
  ntohs = swap2;
  ntohl = swap4;
  header_size = 24;
  encode = encode;
  decode = decode;
  ntohs-htons = swap2-swap2;
  ntohl-htonl = swap4-swap4;
  length-encode = λ h. refl;
  htons-lt = swap2-lt;
  htonl-lt = swap4-lt;
  decode-encode = decode-encode;
}

-- The state of the outside is the list of bytes on their way.
abbrev pub loopback : Socket (List ℕ)
loopback = record {
  recv = λ w fd n. (some (take n w), drop n w);
  send = λ w fd bytes. (some (length bytes), w ++ bytes);
}
