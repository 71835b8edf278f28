-- ===== src/Contexts/Config.antt =====
-- The bits of a configuration, by a table of its values.
use substance_3d_connector.Base.{
  ℕ, ◌+◌, ◌<◌, ◌≡◌, refl, ◌==◌, ◌&&◌, ◌||◌, not, Bool, true, arith, passes, test_of_passes, bit_and,
  bit_or,
}
use substance_3d_connector.Contexts.Types.{
  comm_mask, conn_open, conn_connected, conn_shutdown, conn_mask, not_conn_mask, handshake_sent,
  handshake_mask,
}

-- What a reader of the fields sees of a prepared configuration.
open_test : ℕ → Bool
open_test c =
    bit_and (bit_or c conn_open) conn_mask == conn_open
    && bit_and (bit_or c conn_open) comm_mask == c
    && bit_and (bit_or c conn_open) handshake_mask == 0
    && bit_and (bit_or (bit_and (bit_or c conn_open) not_conn_mask) conn_connected) conn_mask
      == conn_connected
    && bit_and (bit_or (bit_and (bit_or c conn_open) not_conn_mask) conn_connected) comm_mask == c
    && bit_and (bit_or c conn_connected) conn_mask == conn_connected
    && bit_and (bit_or c conn_connected) comm_mask == c

open_table : passes open_test 256 ≡ true
unfolding passes open_test
open_table = refl

-- For each of the 256 values of the type field.
pub record Fields (c : ℕ) : Type 0 where
  pub open_state : bit_and (bit_or c conn_open) conn_mask ≡ conn_open
  pub open_type : bit_and (bit_or c conn_open) comm_mask ≡ c
  pub connected_state :
      bit_and (bit_or (bit_and (bit_or c conn_open) not_conn_mask) conn_connected) conn_mask
      ≡ conn_connected
  pub connected_type :
      bit_and (bit_or (bit_and (bit_or c conn_open) not_conn_mask) conn_connected) comm_mask ≡ c
  pub accepted_state : bit_and (bit_or c conn_connected) conn_mask ≡ conn_connected
  pub accepted_type : bit_and (bit_or c conn_connected) comm_mask ≡ c

pub fields : (c : ℕ) → c < 256 → Fields c
unfolding open_test
fields c h = ground (arith, test_of_passes open_test 256 open_table c h)

-- What a close does to a configuration of twelve bits.
close_test : ℕ → Bool
close_test c =
    let closed = bit_or c conn_shutdown in
    (not (bit_and c conn_mask == conn_open)
      || (bit_and closed conn_mask == conn_open + conn_shutdown))
    && (not (bit_and c conn_mask == conn_connected)
        || (bit_and closed conn_mask == conn_connected + conn_shutdown))
    && bit_and (bit_or c handshake_sent) handshake_mask == handshake_sent

close_table : passes close_test 4096 ≡ true
unfolding passes close_test
close_table = refl

pub record Closes (c : ℕ) : Type 0 where
  pub of_open :
      bit_and c conn_mask ≡ conn_open
      → bit_and (bit_or c conn_shutdown) conn_mask ≡ conn_open + conn_shutdown
  pub of_connected :
      bit_and c conn_mask ≡ conn_connected
      → bit_and (bit_or c conn_shutdown) conn_mask ≡ conn_connected + conn_shutdown
  pub of_handshake : bit_and (bit_or c handshake_sent) handshake_mask ≡ handshake_sent

pub closes : (c : ℕ) → c < 4096 → Closes c
unfolding close_test
closes c h = ground (arith, test_of_passes close_test 4096 close_table c h)
