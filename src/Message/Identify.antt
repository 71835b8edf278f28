-- ===== src/Message/Identify.antt =====
-- Which messages are taken for internal ones.
use substance_3d_connector.Base.{ℕ, ◌≡◌, ◌<◌, ◌^◌, arith, true, false, List, some, length, bit_or}
use substance_3d_connector.Uuid.{Uuid}
use substance_3d_connector.Message.{
  Message, build_message, identify_message, identify_internal, internal_identifier,
}

-- A built message carries its text, context and length, is identified as a message and not as an
-- internal one; marked as internal, as for a handshake, it is identified as both.
pub build_message-identified :
    (context : ℕ) (id : Uuid) (text : List ℕ) {m : Message}
    → length text < 2 ^ 32
    → build_message true context (some id) (some text) ≡ some m
    → (m.message ≡ some text)
      × (m.context ≡ context)
      × (m.header.message_length ≡ length text)
      × (m.header.message_id ≡ id)
      × (identify_message m.header.description ≡ true)
      × (identify_internal m.header.description ≡ false)
      × (identify_message (bit_or m.header.description internal_identifier) ≡ true)
      × (identify_internal (bit_or m.header.description internal_identifier) ≡ true)
unfolding build_message
build_message-identified context id text h e = ground arith
