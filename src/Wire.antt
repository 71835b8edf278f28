-- ===== src/Wire.antt =====
-- core/src/details/connection_utils.c (byte order) and core/src/details/network/readwriteutils.c:
-- a message written to a socket and read back.
-- The byte order functions, the layout of the header in memory and the socket are not part of the
-- repository: `Platform` and `Socket` have them. A call gives `none` where the code would read or
-- write outside of a buffer.
pub mod Roundtrip
pub mod Bounds
pub mod Sample
mod Tests
use substance_3d_connector.Base.{
  ℕ, ◌+◌, ◌-◌, ◌%◌, ◌^◌, ◌<◌, ◌≤◌, ◌≡◌, ◌==◌, ltb, leb, Bool, true, false, if◌then◌else◌, List, [],
  ◌∷◌, ◌++◌, Option, none, some, length, replicate, take, u32,
}
use substance_3d_connector.Retcode.{Retcode}
use substance_3d_connector.Uuid.{Uuid}
use substance_3d_connector.Message.{Header, Message, identify_message}

-- The fields fit their C types.
pub record Fits (h : Header) : Type 0 where
  pub description : h.description < 2 ^ 16
  pub message_length : h.message_length < 2 ^ 32
  pub e0 : h.message_id.e0 < 2 ^ 32
  pub e1 : h.message_id.e1 < 2 ^ 32
  pub e2 : h.message_id.e2 < 2 ^ 32
  pub e3 : h.message_id.e3 < 2 ^ 32

pub record Platform : Type 0 where
  pub htons : ℕ → ℕ
  pub htonl : ℕ → ℕ
  pub ntohs : ℕ → ℕ
  pub ntohl : ℕ → ℕ
  -- The bytes of a header structure, and the structure that bytes are read as.
  pub header_size : ℕ
  pub encode : Header → List ℕ
  pub decode : List ℕ → Header
  pub ntohs-htons : (x : ℕ) → x < 2 ^ 16 → ntohs (htons x) ≡ x
  pub ntohl-htonl : (x : ℕ) → x < 2 ^ 32 → ntohl (htonl x) ≡ x
  pub length-encode : (h : Header) → length (encode h) ≡ header_size
  pub htons-lt : (x : ℕ) → x < 2 ^ 16 → htons x < 2 ^ 16
  pub htonl-lt : (x : ℕ) → x < 2 ^ 32 → htonl x < 2 ^ 32
  pub decode-encode : (h : Header) → Fits h → decode (encode h) ≡ h

-- `recv` and `send` on a descriptor, over a state `W` of the outside. `none` is a negative result;
-- a read gives the bytes that it put into the buffer.
pub record Socket (W : Type 0) : Type 0 where
  pub recv : W → ℕ → ℕ → Option (List ℕ) × W
  pub send : W → ℕ → List ℕ → Option ℕ × W

module _ (p : Platform) where
  open p use {htons, htonl, ntohs, ntohl, encode, decode, header_size}

  abbrev htonuuid : Uuid → Uuid
  htonuuid u = record { e0 = htonl u.e0; e1 = htonl u.e1; e2 = htonl u.e2; e3 = htonl u.e3 }

  abbrev ntohuuid : Uuid → Uuid
  ntohuuid u = record { e0 = ntohl u.e0; e1 = ntohl u.e1; e2 = ntohl u.e2; e3 = ntohl u.e3 }

  abbrev pub htonheader : Header → Header
  htonheader h = record {
    description = htons h.description;
    message_length = htonl h.message_length;
    message_id = htonuuid h.message_id;
  }

  abbrev pub ntohheader : Header → Header
  ntohheader h = record {
    description = ntohs h.description;
    message_length = ntohl h.message_length;
    message_id = ntohuuid h.message_id;
  }

-- `size_t` subtraction
abbrev pub sub_size : ℕ → ℕ → ℕ
sub_size a b = (a + 2 ^ 64 - b) % 2 ^ 64

-- Bytes put at the front of a zeroed buffer of the given size; `none` is a write past its end.
abbrev pub fill : ℕ → List ℕ → Option (List ℕ)
fill size bytes =
    if leb (length bytes) size then some (bytes ++ replicate (size - length bytes) 0) else none

-- The C string in a buffer: the bytes before the first zero.
abbrev pub c_string : List ℕ → List ℕ
c_string [] = []
c_string (b ∷ bytes) = if b == 0 then [] else b ∷ c_string bytes

-- The end of `read_message_data`, on what the read put into its buffer.
unfoldable pub take_over {ℓ} :
    {W : Type ℓ} → ℕ → Message → Option (List ℕ) × W → Option (Retcode × Message × W)
take_over size m (none, w) = some (Retcode.read_fail, m, w)
take_over size m (some bytes, w) = elim (fill size bytes) [
  | none ↦ none
  | some buffer ↦ some (Retcode.success, record m { message = some (c_string buffer) }, w)
]

-- The bytes that a copy of the given length takes from the buffer of a string.
abbrev pub copy_string : ℕ → Option (List ℕ) → Option (List ℕ)
copy_string n none = if n == 0 then some [] else none
copy_string n (some text) =
    if leb n (length text + 1) then some (take n (text ++ (0 ∷ []))) else none

module _ (p : Platform) {W : Type 0} (s : Socket W) where
  open p use {header_size, encode, decode}
  open s use {recv, send}

  -- `read_message_data`: a buffer of the length in the header and one more byte, in 32-bit
  -- arithmetic, of which all but one are asked for. The flag says whether the allocator has memory
  -- for the buffer, which is zeroed before its pointer is tested.
  unfoldable pub read_message_data : Bool → W → ℕ → Message → Option (Retcode × Message × W)
  unfolding take_over
  read_message_data memory w fd m =
      let size = u32 (m.header.message_length + 1) in
      if memory
      then take_over size m (recv w fd (sub_size size 1))
      else if size == 0
      then some (Retcode.error, m, w)
      else none

  -- From here on the allocator has memory.
  unfoldable pub read_identified : W → ℕ → Message → Option (Retcode × Message × W)
  unfolding read_message_data
  read_identified w fd m =
      if identify_message m.header.description
      then read_message_data true w fd m
      else some (Retcode.read_fail, m, w)

  -- The rest of `connector_read_message_generic`, on what the read of the header gave.
  unfoldable pub read_body : ℕ → Message → Option (List ℕ) × W → Option (Retcode × Message × W)
  unfolding read_identified
  read_body fd m (none, w) = some (Retcode.read_fail, m, w)
  read_body fd m (some bytes, w) =
      if length bytes == header_size
      then read_identified w fd (record m { header = ntohheader p (decode bytes) })
      else some (Retcode.read_fail, m, w)

  unfoldable pub read_message_generic : W → ℕ → Message → Option (Retcode × Message × W)
  unfolding read_body
  read_message_generic w fd m = read_body fd m (recv w fd header_size)

  -- `connector_send_message_generic` with memory for its buffer.
  unfoldable pub send_message_generic : W → ℕ → Message → Option (Retcode × W)
  send_message_generic w fd m = elim (copy_string m.header.message_length m.message) [
    | none ↦ none
    | some payload ↦
        let (result, w') = send w fd (encode (htonheader p m.header) ++ payload) in
        elim result [ none ↦ some (Retcode.conn_fail, w') | some n ↦ some (Retcode.success, w') ]
  ]

  -- The same with the flag that says whether the allocator has that memory: the header is written to
  -- the buffer without a test of its pointer.
  unfoldable pub send_allocated : Bool → W → ℕ → Message → Option (Retcode × W)
  unfolding send_message_generic
  send_allocated memory w fd m = if memory then send_message_generic w fd m else none
