-- ===== src/Sockets/Descriptors.antt =====
-- Which descriptors the operations on sockets leave open.
use substance_3d_connector.Base.{
  ◌+◌, length, leb, ℕ, ◌≡◌, refl, ap, ◌∙◌, if◌then◌else◌, Bool-cases, inl, inr, List, ◌∷◌, Option,
  none, some,
}
use substance_3d_connector.Retcode.{is_success}
use substance_3d_connector.Contexts.Types.{Context}
use substance_3d_connector.Files.{FileSystem}
use substance_3d_connector.Sockets.Filing.{KeepsDescriptors, AreFiles, Tidy, AreFiles-Tidy}
use substance_3d_connector.Sockets.{Address, System, Directories, Result}
use substance_3d_connector.Sockets.Tcp.{
  u16, open_tcp, bind_tcp, listen_tcp, connect_tcp, connect_socket,
}
use substance_3d_connector.Sockets.Local.{connect_unix}

-- The descriptors that are open, the newest first: `socket` adds the one that it gives, `close`
-- takes the newest one away, and no other call changes them.
pub record Accounts {W : Type 0} (sys : System W) (open_fds : W → List ℕ) : Type 0 where
  pub of_no_socket : (w : W) → (sys.socket w).0 ≡ none → open_fds (sys.socket w).1 ≡ open_fds w
  pub of_socket :
      (w : W) (fd : ℕ) → (sys.socket w).0 ≡ some fd → open_fds (sys.socket w).1 ≡ fd ∷ open_fds w
  pub of_bind : (w : W) (fd : ℕ) (a : Address) → open_fds (sys.bind w fd a).1 ≡ open_fds w
  pub of_getsockname : (w : W) (fd : ℕ) → open_fds (sys.getsockname w fd).1 ≡ open_fds w
  pub of_listen : (w : W) (fd : ℕ) → open_fds (sys.listen w fd).1 ≡ open_fds w
  pub of_connect : (w : W) (fd : ℕ) (a : Address) → open_fds (sys.connect w fd a).1 ≡ open_fds w
  pub of_close :
      (w : W) (fd : ℕ) (fds : List ℕ) → open_fds w ≡ fd ∷ fds → open_fds (sys.close w fd).1 ≡ fds

-- A success leaves the descriptor of the context open in addition, a failure none.
abbrev pub Balanced : {W : Type 0} → (W → List ℕ) → W → Result W → Type 0
Balanced open_fds w (code, c, w') =
    open_fds w' ≡ (if is_success code then c.fd ∷ open_fds w else open_fds w)

module _ {W : Type 0} {sys : System W} {open_fds : W → List ℕ} (acc : Accounts sys open_fds) where
  connect_socket-Balanced :
      (address : Address) (c : Context) (got : Option ℕ) (w w' : W)
      → open_fds w' ≡ elim got [ none ↦ open_fds w | some fd ↦ fd ∷ open_fds w ]
      → Balanced open_fds w (connect_socket sys address c (got, w'))
  unfolding connect_socket
  connect_socket-Balanced address c none w w' e = e
  connect_socket-Balanced address c (some sock) w w' e =
      elim (Bool-cases (sys.connect w' sock address).0) [
        | inl done ↦ rw done (acc.of_connect w' sock address ∙ e)
        | inr refused ↦ rw refused (
            acc.of_close (sys.connect w' sock address).1 sock (open_fds w)
              (acc.of_connect w' sock address ∙ e))
      ]

  -- What a call of socket leaves open.
  socket_open :
      (w : W) (fds : List ℕ) (got : Option ℕ)
      → open_fds w ≡ fds
      → (sys.socket w).0 ≡ got
      → open_fds (sys.socket w).1 ≡ elim got [ none ↦ fds | some fd ↦ fd ∷ fds ]
  socket_open w fds none same e = acc.of_no_socket w e ∙ same
  socket_open w fds (some fd) same e = acc.of_socket w fd e ∙ ap (λ l. fd ∷ l) same

  -- A connect over TCP that fails leaves no descriptor open, and one that succeeds exactly the one
  -- of its context.
  connect_tcp-Balanced : (w : W) (c : Context) → Balanced open_fds w (connect_tcp sys w c)
  unfolding connect_tcp
  connect_tcp-Balanced w c =
      connect_socket-Balanced _ c (sys.socket w).0 w (sys.socket w).1
        (socket_open w (open_fds w) _ refl refl)

  -- So does a connect to a Unix socket.
  connect_unix-Balanced : (w : W) (c : Context) → Balanced open_fds w (connect_unix sys w c)
  unfolding connect_unix
  connect_unix-Balanced w c = unix_at c.connection_data refl
    where
      unix_at :
          (path : Option (List ℕ))
          → c.connection_data ≡ path
          → Balanced open_fds w (connect_unix sys w c)
      unix_at none e = rw (connect_unix, e) refl
      unix_at (some path) e = elim (Bool-cases (leb sys.sun_path (length path + 1))) [
        | inl long ↦ rw (connect_unix, e, long) refl
        | inr fits ↦
            rw (connect_unix, e, fits)
              (connect_socket-Balanced _ c (sys.socket w).0 w (sys.socket w).1
                (socket_open w (open_fds w) _ refl refl))
      ]

  module _ {dirs : Directories W} (tidy : Tidy dirs open_fds) where
    listen_tcp-Balanced :
        (sock : ℕ) (c : Context) (w w' : W)
        → open_fds w' ≡ sock ∷ open_fds w
        → Balanced open_fds w (listen_tcp sys dirs sock c w')
    unfolding listen_tcp
    listen_tcp-Balanced sock c w w' e = elim (Bool-cases (sys.listen w' sock).0) [
      | inl done ↦
          rw done (tidy.of_commit (sys.listen w' sock).1 c.port ∙ acc.of_listen w' sock ∙ e)
      | inr refused ↦
          rw refused
            (acc.of_close (sys.listen w' sock).1 sock (open_fds w) (acc.of_listen w' sock ∙ e))
    ]

    bind_tcp-Balanced :
        (c : Context) (got : Option ℕ) (w w' : W)
        → open_fds w' ≡ elim got [ none ↦ open_fds w | some fd ↦ fd ∷ open_fds w ]
        → Balanced open_fds w (bind_tcp sys dirs c (got, w'))
    unfolding bind_tcp listen_tcp
    bind_tcp-Balanced c none w w' e = e
    bind_tcp-Balanced c (some sock) w w' e =
        elim (Bool-cases (sys.bind w' sock (Address.inet (u16 c.port))).0) [
          | inl done ↦ rw done (
              listen_tcp-Balanced sock _ w _
                (acc.of_getsockname _ sock ∙ acc.of_bind w' sock _ ∙ e))
          | inr refused ↦ rw refused (acc.of_close _ sock (open_fds w) (acc.of_bind w' sock _ ∙ e))
        ]

    tidy-Balanced : (w : W) (c : Context) → Balanced open_fds w (open_tcp sys dirs w c)
    unfolding open_tcp
    tidy-Balanced w c =
        let w' = (dirs.ensure_default_tcp w).1 in
        elim (Bool-cases (is_success (dirs.ensure_default_tcp w).0)) [
          | inl done ↦ rw done (
              bind_tcp-Balanced c (sys.socket w').0 w (sys.socket w').1
                (socket_open w' (open_fds w) _ (tidy.of_ensure w) refl))
          | inr failed ↦ rw failed (tidy.of_ensure w)
        ]

  -- The opening of a TCP port, when it fails, leaves no descriptor open, whichever call of the system
  -- failed, and when it succeeds exactly the one of its context; the directories are worked by the
  -- program's own functions over a file system. The calls on sockets account for their descriptors, the
  -- ones of the file system leave none behind, and the file of a port can be opened.
  pub open_tcp-Balanced :
      {fs : FileSystem W} {dirs : Directories W}
      → KeepsDescriptors fs open_fds
      → AreFiles fs dirs
      → (w : W) (c : Context) → Balanced open_fds w (open_tcp sys dirs w c)
  open_tcp-Balanced keeps are w c = tidy-Balanced (AreFiles-Tidy keeps are) w c
