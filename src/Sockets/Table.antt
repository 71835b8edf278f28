-- ===== src/Sockets/Table.antt =====
-- core/src/details/connection.c: the tables by the type of a context, with the two protocols.
use substance_3d_connector.Base.{ℕ, ltb, ◌==◌, if◌then◌else◌, Option, none, some, bit_and}
use substance_3d_connector.Retcode.{Retcode}
use substance_3d_connector.Message.{Message}
use substance_3d_connector.Wire.{Platform, Socket, read_message_generic, send_message_generic}
use substance_3d_connector.Contexts.Types.{Context, Connection, comm_mask, comm_max}
use substance_3d_connector.Sockets.{System, Directories, Undefined, Result}
use substance_3d_connector.Sockets.Tcp.{open_tcp, connect_tcp, close_tcp, close_fd}
use substance_3d_connector.Sockets.Local.{open_unix, connect_unix}

-- The index into the tables, 0 for an unknown type.
abbrev pub clamped : Context → ℕ
clamped c =
    let connection = bit_and c.configuration comm_mask in
    if ltb comm_max connection then 0 else connection

-- The index into the table of `connector_accept_connection`, the last one for an unknown type.
abbrev pub accept_clamped : Context → ℕ
accept_clamped c =
    let connection = bit_and c.configuration comm_mask in
    if ltb comm_max connection then comm_max else connection

-- A table of three entries, at an index.
abbrev pub entry {ℓ} : {A : Type ℓ} → A → A → A → ℕ → A
entry default tcp unix i = if i == 0 then default else if i == 1 then tcp else unix

module _ {W : Type 0} where
  abbrev pub default_context_operation : W → Context → Result W
  default_context_operation w c = (Retcode.unsupported, c, w)

  -- `connector_read_message_generic` and `connector_send_message_generic` where they are defined.
  abbrev pub read_or :
      Option (Retcode × Message × W) → Retcode × Message × W → Retcode × Message × W
  read_or none undefined = undefined
  read_or (some r) undefined = r

  abbrev pub write_or : Option (Retcode × W) → Retcode × W → Retcode × W
  write_or none undefined = undefined
  write_or (some r) undefined = r

module _ {W : Type 0} (sys : System W) (dirs : Directories W) (undef : Undefined W) (p : Platform)
    (sock : Socket W) where
  -- `connector_read_tcp`, which is `connector_read_unix`, and the two writes.
  unfoldable pub read_socket : W → Context → Message → Retcode × Message × W
  read_socket w c m = read_or (read_message_generic p sock w c.fd m) (undef.at_read w c m)

  unfoldable pub write_socket : W → Context → Message → Retcode × W
  write_socket w c m = write_or (send_message_generic p sock w c.fd m) (undef.at_write w c m)

  -- The operations of core/src/details/connection.c on the tables.
  unfoldable pub connection : Connection W
  connection = record {
    open_connection = λ w c.
        entry {A = W → Context → Result W} default_context_operation (open_tcp sys dirs)
          (open_unix sys dirs undef) (clamped c) w c;
    bridge_connection = λ w c.
        entry {A = W → Context → Result W} default_context_operation (connect_tcp sys)
          (connect_unix sys) (clamped c) w c;
    close_connection = λ w c.
        entry {A = W → Context → Result W} default_context_operation (close_tcp sys dirs)
          (close_fd sys) (clamped c) w c;
    accept_connection = λ w c.
        entry {A = W → Context → Option ℕ × W} (λ v d. (none, v)) (λ v d. sys.accept v d.fd)
          (λ v d. sys.accept v d.fd) (accept_clamped c) w c;
    write_connection = λ w c m.
        entry {A = W → Context → Message → Retcode × W} (λ v d n. (Retcode.unsupported, v))
          write_socket write_socket (clamped c) w c m;
    read_connection = λ w c m.
        entry {A = W → Context → Message → Retcode × Message × W}
          (λ v d n. (Retcode.unsupported, n, v)) read_socket read_socket (clamped c) w c m;
  }
