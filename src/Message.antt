-- ===== src/Message.antt =====
-- core/src/details/message.c and core/include/substance/connector/details/message_header.h:
-- messages and their headers. A C string is the list of its bytes before the terminator.
pub mod Identify
use substance_3d_connector.Base.{
  ℕ, ◌==◌, Bool, true, false, ◌&&◌, if◌then◌else◌, List, [], ◌∷◌, Option, none, some, length, u32,
  bit_and, bit_or,
}
use substance_3d_connector.Uuid.{Uuid}

-- `connector_message_header_r1_t`: uint16_t, uint32_t and the identifier.
pub record Header : Type 0 where
  pub description : ℕ
  pub message_length : ℕ
  pub message_id : Uuid

-- `connector_message_t`; the buffer pointer is null in a message that has been cleared.
pub record Message : Type 0 where
  pub header : Header
  pub message : Option (List ℕ)
  pub context : ℕ

abbrev pub message_identifier : ℕ
message_identifier = 0x03c9

abbrev pub internal_identifier : ℕ
internal_identifier = 0x03db

abbrev header_r1 : ℕ
header_r1 = 0x0000

-- CONNECTOR_IDENTIFY_MESSAGE and CONNECTOR_IDENTIFY_INTERNAL
abbrev pub identify_message : ℕ → Bool
identify_message x = bit_and (bit_and x 0x0fff) message_identifier == message_identifier

abbrev pub identify_internal : ℕ → Bool
identify_internal x = bit_and (bit_and x 0x0fff) internal_identifier == internal_identifier

-- `connector_build_message`; the flag says whether the allocator has memory for the message.
unfoldable pub build_message : Bool → ℕ → Option Uuid → Option (List ℕ) → Option Message
build_message memory context (some id) (some text) =
    if memory
    then some (record {
      header = record {
        description = bit_or (bit_or 0 header_r1) message_identifier;
        message_length = u32 (length text);
        message_id = id;
      };
      message = some text;
      context = context;
    })
    else none
build_message memory context _ _ = none

-- `connector_message_t` as memory, where each pointer can be null.
pub record MessageStructure : Type 0 where
  pub header_pointer : Option Header
  pub message_pointer : Option (List ℕ)
  pub context_value : ℕ

-- `connector_clear_message`, with the pointers that it releases.
unfoldable clear_message :
    Option MessageStructure → List (Option (List ℕ)) × Option MessageStructure
clear_message none = ([], none)
clear_message (some m) = (
  m.message_pointer ∷ [],
  some (record { header_pointer = none; message_pointer = none; context_value = 0 }),
)
