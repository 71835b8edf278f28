-- ===== src/Sockets/Local.antt =====
-- Unix sockets: `connector_open_unix` and `connector_connect_unix` of connection_unix.c.
use substance_3d_connector.Base.{ℕ, ◌+◌, leb, if◌then◌else◌, List, Option, none, some, length}
use substance_3d_connector.Retcode.{Retcode, is_success}
use substance_3d_connector.Contexts.Types.{Context}
use substance_3d_connector.Sockets.{Address, System, Directories, Undefined, Result}
use substance_3d_connector.Sockets.Tcp.{connect_socket}

module _ {W : Type 0} (sys : System W) where
  -- `connector_connect_unix`
  unfoldable pub connect_unix : W → Context → Result W
  unfolding connect_socket
  connect_unix w c = elim c.connection_data [
    | none ↦ (Retcode.invalid, c, w)
    | some path ↦
        if leb sys.sun_path (length path + 1)
        then (Retcode.invalid, c, w)
        else connect_socket sys (Address.unix path) c (sys.socket w)
  ]

  -- The part of `connector_open_unix` from the listening on; the socket is closed on a failure.
  unfoldable listen_unix : List ℕ → ℕ → Context → W → Result W
  listen_unix path sock c w =
      let (listening, w') = sys.listen w sock in
      if listening
      then (Retcode.success, record c { fd = sock }, w')
      else (Retcode.open_fail, c, (sys.close (sys.unlink w' path) sock).1)

  -- The part from the binding on.
  unfoldable bind_unix : List ℕ → Context → Option ℕ × W → Result W
  unfolding listen_unix
  bind_unix path c (none, w) = (Retcode.open_fail, c, w)
  bind_unix path c (some sock, w) =
      let (bound, w') = sys.bind (sys.unlink w path) sock (Address.unix path) in
      let listened = listen_unix path sock c w' in
      if bound then listened else (Retcode.open_fail, c, (sys.close w' sock).1)

  -- The part after the test of the directory, on the path of the context.
  unfoldable open_path : Undefined W → W → Context → Option (List ℕ) → Result W
  unfolding bind_unix
  open_path undef w c none = undef.at_context w c
  open_path undef w c (some path) =
      if leb sys.sun_path (length path + 1)
      then (Retcode.invalid, c, w)
      else bind_unix path c (sys.socket w)

  -- The start of `connector_open_unix`: the directory is ensured for a context without a path,
  -- which gets the default one; for another one the code stays the initial one.
  unfoldable pub prepare_unix : Directories W → W → Context → Result W
  prepare_unix dirs w c = elim c.connection_data [
    | none ↦
        let (ensured, w') = dirs.ensure_default_unix w in
        (ensured, record c { connection_data = dirs.build_default_unix_path }, w')
    | some path ↦ (Retcode.error, c, w)
  ]

  -- `connector_open_unix`
  unfoldable pub open_unix : Directories W → Undefined W → W → Context → Result W
  unfolding prepare_unix open_path
  open_unix dirs undef w c =
      let (local_result, c', w') = prepare_unix dirs w c in
      let opened = open_path undef w' c' c'.connection_data in
      if is_success local_result then opened else (Retcode.invalid, c', w')
