-- ===== src/Sockets/Opened.antt =====
-- The operations of contexts over the sockets.
use substance_3d_connector.Base.{
  ◌+◌, leb, length, ℕ, ◌≡◌, refl, arith, ap, ◌∙◌, true, false, Bool-cases, inl, inr, List, [], ◌∷◌,
  ◌++◌, Option, none, some, set, u32,
}
use substance_3d_connector.Retcode.{Retcode, is_success}
use substance_3d_connector.UintQueue.Inv.{contents}
use substance_3d_connector.Wire.{Platform, Socket}
use substance_3d_connector.Contexts.Types.{
  Context, Connection, State, zeroed, context_at, context_state, context_type, comm_tcp, conn_open,
}
use substance_3d_connector.Contexts.Open.{
  context_open_tcp, context_open_unix, tcp_description, unix_description, prepared,
}
use substance_3d_connector.Contexts.FreeList.{NextFree, KeepsConfiguration, KeepsPort}
use substance_3d_connector.Contexts.Opening.{
  context_open-opens, context_open-stores, context_open-world, context_open-failure,
}
use substance_3d_connector.Sockets.{Address, System, Directories, Undefined}
use substance_3d_connector.Sockets.Tcp.{
  u16, open_tcp, bind_tcp, listen_tcp, connect_tcp, connect_socket,
}
use substance_3d_connector.Sockets.Local.{open_unix, connect_unix, prepare_unix}
use substance_3d_connector.Sockets.Table.{connection}

module _ {W : Type 0} (sys : System W) where
  connect_socket-keeps :
      (address : Address) (c : Context) (got : Option ℕ) (w : W)
      → let c' = (connect_socket sys address c (got, w)).1 in
        (c'.configuration ≡ c.configuration) × (c'.port ≡ c.port)
  unfolding connect_socket
  connect_socket-keeps address c none w = (refl, refl)
  connect_socket-keeps address c (some sock) w = ground arith

  connect_unix-keeps :
      (data' : Option (List ℕ)) (w : W) (c : Context)
      → c.connection_data ≡ data'
      → let c' = (connect_unix sys w c).1 in
        (c'.configuration ≡ c.configuration) × (c'.port ≡ c.port)
  unfolding connect_unix
  connect_unix-keeps none w c e = rw (connect_unix, e) (refl, refl)
  connect_unix-keeps (some path) w c e = elim (Bool-cases (leb sys.sun_path (length path + 1))) [
    | inl long ↦ rw (connect_unix, e, long) (refl, refl)
    | inr fits ↦ rw (connect_unix, e, fits) (connect_socket-keeps _ c _ _)
  ]

  connect_tcp-keeps :
      (w : W) (c : Context)
      → let c' = (connect_tcp sys w c).1 in
        (c'.configuration ≡ c.configuration) × (c'.port ≡ c.port)
  unfolding connect_tcp
  connect_tcp-keeps w c = connect_socket-keeps _ c (sys.socket w).0 (sys.socket w).1

  module _ (dirs : Directories W) (undef : Undefined W) (p : Platform) (sock : Socket W) where
    abbrev ops : Connection W
    ops = connection sys dirs undef p sock

    bridge-keeps :
        (w : W) (c : Context)
        → let c' = (ops.bridge_connection w c).1 in
          (c'.configuration ≡ c.configuration) × (c'.port ≡ c.port)
    unfolding connection
    bridge-keeps w c =
        ground (arith, connect_tcp-keeps w c, connect_unix-keeps c.connection_data w c refl)

    -- What connecting a context relies on: whatever the type of the context and the system's
    -- calls, the operation of the table leaves its configuration and its port alone.
    bridge_connection-keeps :
        KeepsConfiguration ops.bridge_connection × KeepsPort ops.bridge_connection
    bridge_connection-keeps = (λ w c. (bridge-keeps w c).0, λ w c. (bridge-keeps w c).1)

    -- The calls of the system that open a port succeed: the directory is there, a socket is given,
    -- bound and listening, and it has the name that the system reports.
    pub record Listens (w : W) (port fd name : ℕ) : Type 0 where
      pub ensured : (dirs.ensure_default_tcp w).0 ≡ Retcode.success
      pub given : (sys.socket (dirs.ensure_default_tcp w).1).0 ≡ some fd
      pub bound : W
      pub binds :
          sys.bind (sys.socket (dirs.ensure_default_tcp w).1).1 fd (Address.inet (u16 port))
          ≡ (true, bound)
      pub named : W
      pub names : sys.getsockname bound fd ≡ (some name, named)
      pub listening : (sys.listen named fd).0 ≡ true

    open_tcp-Listens :
        (w : W) (c : Context) {fd name : ℕ}
        → Listens w c.port fd name
        → let (code, c', w') = open_tcp sys dirs w c in
          (code ≡ Retcode.success) × (c' ≡ record c { port = u16 name; fd = fd })
    unfolding open_tcp bind_tcp listen_tcp
    open_tcp-Listens w c l = rw (l.ensured, l.given, l.binds, l.names, l.listening) (refl, refl)

    open_is_tcp :
        (w : W) (port : ℕ)
        → ops.open_connection w (prepared (tcp_description port))
          ≡ open_tcp sys dirs w (prepared (tcp_description port))
    unfolding connection
    open_is_tcp w port = refl

    -- Opening a context over TCP, when the system's calls succeed, hands out the oldest free
    -- identifier; the context is then an open one of the TCP type, with the descriptor of the
    -- socket and with the port that the socket really has, and no other context changes. No index of
    -- the free queue is about to wrap.
    pub context_open_tcp-Listens :
        {s : State W} {i : ℕ} {rest : List ℕ} (n : NextFree s i rest) (port : ℕ) {fd name : ℕ}
        → Listens s.world (u32 port) fd name
        → let (code, out, s') = context_open_tcp ops s port true in
          (code ≡ Retcode.success)
          × (out ≡ some i)
          × (contents s'.free_contexts ≡ rest)
          × (context_state s' i ≡ conn_open)
          × (context_type s' i ≡ comm_tcp)
          × ((context_at s' i).fd ≡ fd)
          × ((context_at s' i).port ≡ u16 name)
          × (set s'.context_list i zeroed ≡ set s.context_list i zeroed)
    unfolding context_open_tcp
    context_open_tcp-Listens {s = s} n port l =
        let d = tcp_description port in
        let done = open_tcp-Listens s.world (prepared d) l in
        let opens : (ops.open_connection s.world (prepared d)).0 ≡ Retcode.success =
          ap (λ r. r.0) (open_is_tcp s.world port) ∙ done.0 in
        let stored =
          context_open-stores ops n d opens ∙ ap (λ r. r.1) (open_is_tcp s.world port) ∙ done.1 in
        let (code, out, free, quiet, state, type, available, others) =
          context_open-opens ops n d 1 refl (omega arith)
            (ap (λ r. r.1.configuration) (open_is_tcp s.world port)
              ∙ ap (λ c. c.configuration) done.1)
            opens in
        (code, out, free, state, type, ap (λ c. c.fd) stored, ap (λ c. c.port) stored, others)

    open_is_refused :
        (w : W) (path : List ℕ)
        → ops.open_connection w (prepared (unix_description (some path)))
          ≡ (Retcode.invalid, prepared (unix_description (some path)), w)
    unfolding connection open_unix prepare_unix
    open_is_refused w path = refl

    -- Opening a context on a Unix socket with a path never succeeds and calls nothing of the
    -- system: the identifier that it took is last in the free queue again, its context is cleared
    -- and nothing is handed out. No index of the free queue is about to wrap.
    pub context_open_unix-refused :
        {s : State W} {i : ℕ} {rest : List ℕ} (n : NextFree s i rest) (path : List ℕ)
        → let (code, out, s') = context_open_unix ops s (some path) true in
          (is_success code ≡ false)
          × (out ≡ none)
          × (contents s'.free_contexts ≡ rest ++ (i ∷ []))
          × (context_at s' i ≡ zeroed)
          × (s'.world ≡ s.world)
          × (set s'.context_list i zeroed ≡ set s.context_list i zeroed)
    unfolding context_open_unix
    context_open_unix-refused {s = s} n path =
        let d = unix_description (some path) in
        let refused = open_is_refused s.world path in
        let (code, out, free, quiet, cleared, available, others) =
          context_open-failure ops n d (ap (λ r. is_success r.0) refused) in
        (code, out, free, cleared, context_open-world ops n d ∙ ap (λ r. r.2) refused, others)
