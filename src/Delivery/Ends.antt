-- ===== src/Delivery/Ends.antt =====
-- What a connected context does at each end: the write of a message that was acquired, and the event
-- of a read thread.
use substance_3d_connector.Base.{
  ℕ, ltb, ◌==◌, ◌≡◌, refl, ap, ◌∙◌, arith, true, false, [], ◌∷◌, ◌++◌, some, get_or, bit_and,
}
use substance_3d_connector.Retcode.{Retcode}
use substance_3d_connector.Message.{Message}
use substance_3d_connector.Wire.{Platform, Socket, send_message_generic, read_message_generic}
use substance_3d_connector.AvailableQueue.{context_count}
use substance_3d_connector.Contexts.Types.{
  State, Context, Connection, conn_connected, conn_mask, context_at,
}
use substance_3d_connector.Contexts.Close.{context_write, context_read, message_op}
use substance_3d_connector.Sockets.{System, Directories, Undefined}
use substance_3d_connector.Sockets.Table.{connection, read_socket, write_socket, clamped, entry}
use substance_3d_connector.ReadThread.{blank, poll_in}
use substance_3d_connector.ReadThread.Events.{
  Reader, empty_message, finish_read, handle_connected, handle_context, handle_event,
}

-- The identifier names a connected context of a socket.
pub record IsConnected {W : Type 0} (s : State W) (context : ℕ) : Type 0 where
  pub in_range : ltb context context_count ≡ true
  pub connected : bit_and (context_at s context).configuration conn_mask ≡ conn_connected
  pub socket : (clamped (context_at s context) == 0) ≡ false

entry-socket :
    {A : Type 0} (default on_socket : A) (i : ℕ)
    → (i == 0) ≡ false
    → entry default on_socket on_socket i ≡ on_socket
entry-socket default on_socket i h = ground (arith, h)

module _ {W : Type 0} (sys : System W) (dirs : Directories W) (undef : Undefined W) (p : Platform)
    (sock : Socket W) where
  abbrev ops : Connection W
  ops = connection sys dirs undef p sock

  write_connection-sent :
      (w : W) (c : Context) (m : Message) (v : W)
      → (clamped c == 0) ≡ false
      → send_message_generic p sock w c.fd m ≡ some (Retcode.success, v)
      → ops.write_connection w c m ≡ (Retcode.success, v)
  unfolding connection write_socket
  write_connection-sent w c m v socket sent =
      ap (λ f. f w c m)
        (entry-socket (λ u d n. (Retcode.unsupported, u)) (write_socket sys dirs undef p sock)
          (clamped c) socket)
      ∙ rw (sent) refl

  read_connection-received :
      (w : W) (c : Context) (m m' : Message) (v : W)
      → (clamped c == 0) ≡ false
      → read_message_generic p sock w c.fd m ≡ some (Retcode.success, m', v)
      → ops.read_connection w c m ≡ (Retcode.success, m', v)
  unfolding connection read_socket
  read_connection-received w c m m' v socket got =
      ap (λ f. f w c m)
        (entry-socket (λ u d n. (Retcode.unsupported, n, u)) (read_socket sys dirs undef p sock)
          (clamped c) socket)
      ∙ rw (got) refl

  -- A message that the socket takes is written.
  pub context_write-sent :
      (s : State W) (context : ℕ) (m : Message) (v : W)
      → IsConnected s context
      → send_message_generic p sock s.world (context_at s context).fd m ≡ some (Retcode.success, v)
      → context_write ops s context (some m) ≡ (Retcode.success, record s { world = v })
  unfolding context_write message_op
  context_write-sent s context m v c sent =
      rw
        (
          c.in_range,
          c.connected,
          write_connection-sent s.world (context_at s context) m v c.socket sent,
        )
        refl

  handle_connected-received :
      (r : Reader W) (context : ℕ) (m : Message) (v : W)
      → IsConnected r.state context
      → read_message_generic p sock r.state.world
          (context_at r.state context).fd
          (empty_message context)
        ≡ some (Retcode.success, m, v)
      → handle_connected ops r context ≡ (
        Retcode.success,
        record r { state = record (r.state) { world = v }; inbound = r.inbound ++ (m ∷ []) },
      )
  unfolding handle_connected context_read finish_read message_op
  handle_connected-received r context m v c got =
      rw
        (
          c.in_range,
          c.connected,
          read_connection-received r.state.world (context_at r.state context)
              (empty_message context) m v c.socket got,
        )
        refl

  -- An event of a connected context of which a message can be read puts the message behind the
  -- inbound ones.
  pub handle_event-received :
      (i : ℕ) (r : Reader W) (context : ℕ) (m : Message) (v : W)
      → get_or r.thread.context_ids i 0 ≡ context
      → (get_or r.thread.contexts i blank).revents ≡ poll_in
      → IsConnected r.state context
      → read_message_generic p sock r.state.world
          (context_at r.state context).fd
          (empty_message context)
        ≡ some (Retcode.success, m, v)
      → handle_event ops i r
        ≡ record r { state = record (r.state) { world = v }; inbound = r.inbound ++ (m ∷ []) }
  unfolding handle_event handle_context
  handle_event-received i r context m v here events c got =
      rw (events, here, c.in_range, c.connected, handle_connected-received r context m v c got) refl
