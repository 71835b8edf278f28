-- ===== src/Sockets/Unknown.antt =====
-- Contexts of a type that is none of the protocols.
use substance_3d_connector.Base.{◌<◌, ◌≡◌, refl, lt→ltb, bit_and}
use substance_3d_connector.Retcode.{Retcode}
use substance_3d_connector.Message.{Message}
use substance_3d_connector.Wire.{Platform, Socket}
use substance_3d_connector.Contexts.Types.{Context, comm_mask, comm_max}
use substance_3d_connector.Sockets.{System, Directories, Undefined}
use substance_3d_connector.Sockets.Table.{connection}

-- On a context of a type above the known ones every operation is refused as unsupported without a
-- call of the system and without a change, except that a connection is accepted with the socket
-- call of the known protocols.
unknown_type-unsupported :
    {W : Type 0} (sys : System W) (dirs : Directories W) (undef : Undefined W) (p : Platform)
    (sock : Socket W) (w : W) (c : Context) (m : Message)
    → comm_max < bit_and c.configuration comm_mask
    → let ops = connection sys dirs undef p sock in
      (ops.open_connection w c ≡ (Retcode.unsupported, c, w))
      × (ops.bridge_connection w c ≡ (Retcode.unsupported, c, w))
      × (ops.close_connection w c ≡ (Retcode.unsupported, c, w))
      × (ops.write_connection w c m ≡ (Retcode.unsupported, w))
      × (ops.read_connection w c m ≡ (Retcode.unsupported, m, w))
      × (ops.accept_connection w c ≡ sys.accept w c.fd)
unfolding connection
unknown_type-unsupported sys dirs undef p sock w c m h =
    rw (lt→ltb comm_max (bit_and c.configuration comm_mask) h) (refl, refl, refl, refl, refl, refl)
