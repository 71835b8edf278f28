-- ===== src/Sockets/Tcp.antt =====
-- TCP sockets: openconnectionimpl.c, and `close_fd_connection`, `accept_socket` and
-- `connector_close_tcp` of connection_unix.c.
use substance_3d_connector.Base.{ℕ, ◌%◌, ◌^◌, ◌==◌, not, if◌then◌else◌, Option, none, some, bit_and}
use substance_3d_connector.Retcode.{Retcode, is_success}
use substance_3d_connector.Contexts.Types.{Context, conn_open}
use substance_3d_connector.Sockets.{Address, System, Directories, Result}

-- A conversion to uint16_t.
abbrev pub u16 : ℕ → ℕ
u16 n = n % 2 ^ 16

-- The port of the address structure after getsockname.
abbrev port_or : ℕ → Option ℕ → ℕ
port_or asked none = asked
port_or asked (some port) = u16 port

module _ {W : Type 0} (sys : System W) where
  -- `close_fd_connection`
  unfoldable pub close_fd : W → Context → Result W
  close_fd w c =
      let (closed, w') = sys.close w c.fd in
      (if closed then Retcode.success else Retcode.error, c, w')

  -- `connector_connect_tcp_impl` with a socket.
  unfoldable pub connect_socket : Address → Context → Option ℕ × W → Result W
  connect_socket address c (none, w) = (Retcode.open_fail, c, w)
  connect_socket address c (some sock, w) =
      let (connected, w') = sys.connect w sock address in
      if connected
      then (Retcode.success, record c { fd = sock }, w')
      else (Retcode.open_fail, c, (sys.close w' sock).1)

  -- `connector_connect_tcp_impl`
  unfoldable pub connect_tcp : W → Context → Result W
  unfolding connect_socket
  connect_tcp w c = connect_socket (Address.inet (u16 c.port)) c (sys.socket w)

  module _ (dirs : Directories W) where
    -- The part of `connector_open_tcp_impl` from the listening on.
    unfoldable pub listen_tcp : ℕ → Context → W → Result W
    listen_tcp sock c w =
        let (listening, w') = sys.listen w sock in
        if listening
        then (Retcode.success, record c { fd = sock }, dirs.commit_open_tcp_port w' c.port)
        else (Retcode.open_fail, c, (sys.close w' sock).1)

    -- The part from the binding on.
    unfoldable pub bind_tcp : Context → Option ℕ × W → Result W
    unfolding listen_tcp
    bind_tcp c (none, w) = (Retcode.open_fail, c, w)
    bind_tcp c (some sock, w) =
        let (bound, w1) = sys.bind w sock (Address.inet (u16 c.port)) in
        let (name, w2) = sys.getsockname w1 sock in
        let listened = listen_tcp sock (record c { port = port_or (u16 c.port) name }) w2 in
        if bound then listened else (Retcode.open_fail, c, (sys.close w1 sock).1)

    -- `connector_open_tcp_impl`
    unfoldable pub open_tcp : W → Context → Result W
    unfolding bind_tcp
    open_tcp w c =
        let (ensured, w') = dirs.ensure_default_tcp w in
        let bound = bind_tcp c (sys.socket w') in
        if is_success ensured then bound else (Retcode.error, c, w')

    -- `connector_close_tcp`: the file of the port belongs to the instance that opened it.
    unfoldable pub close_tcp : W → Context → Result W
    unfolding close_fd
    close_tcp w c =
        let w' = dirs.remove_open_tcp_port w c.port in
        if not (bit_and c.configuration conn_open == 0) then close_fd w' c else close_fd w c
