-- ===== src/Delivery/Whole.antt =====
-- The messages that one application writes are heard by the trampolines of the other.
use mathlib.Core.List.{append_assoc}
use substance_3d_connector.Base.{
  ℕ, zero, suc, ◌≡◌, refl, ap, sym, ◌∙◌, arith, true, false, List, [], ◌∷◌, ◌++◌, append_nil, some,
  length, get_or, replicate,
}
use substance_3d_connector.LockedQueue.Chain.{Holds}
use substance_3d_connector.MessageQueue.{Queues}
use substance_3d_connector.Wire.{Platform, Socket}
use substance_3d_connector.Contexts.Types.{State, Connection, context_at}
use substance_3d_connector.Sockets.{System, Directories, Undefined}
use substance_3d_connector.Sockets.Table.{connection}
use substance_3d_connector.WriteThread.{Writer, write_round}
use substance_3d_connector.WriteThread.Drain.{write_all, write_round-writes}
use substance_3d_connector.ReadThread.{blank, poll_in}
use substance_3d_connector.ReadThread.Events.{Reader, empty_message, handle_event}
use substance_3d_connector.Trampolines.{Trampolines}
use substance_3d_connector.Dispatch.{Dispatcher, dispatch_round}
use substance_3d_connector.Dispatch.Handling.{dispatch_round-handles}
use substance_3d_connector.Delivery.Channel.{Carries, packet_of, packet_sent, packet_received}
use substance_3d_connector.Delivery.Ends.{IsConnected, context_write-sent, handle_event-received}
use substance_3d_connector.Delivery.Letters.{
  Letter, AllPlain, built, built_header-Fits, cells, messages, packets, heard, post_all, Unused,
  post_all-cells, all_calls-heard, all_replies-messages, all_named-messages, messages-Texts,
  length-messages, length-cells,
}

-- The state when the outside has changed.
abbrev pub outside_at : {W : Type 0} → State W → W → State W
outside_at s v = record s { world = v }

abbrev pub reader_at : {W : Type 0} → Reader W → W → Reader W
reader_at r v = record r { state = record (r.state) { world = v } }

-- Rounds in which poll reports the context at an index.
unfoldable pub handle_again : {W : Type 0} → Connection W → ℕ → ℕ → Reader W → Reader W
handle_again ops i zero r = r
handle_again ops i (suc n) r = handle_again ops i n (handle_event ops i r)

module _ {W : Type 0} (p : Platform) (here there : Socket W) (sys sys' : System W)
    (dirs dirs' : Directories W) (undef undef' : Undefined W) where
  abbrev pub here_ops : Connection W
  here_ops = connection sys dirs undef p here

  abbrev pub there_ops : Connection W
  there_ops = connection sys' dirs' undef' p there

  -- What a thread writes is put on the way, one message after the other.
  write_all-sent :
      (context fd' : ℕ) (ls : List Letter) (s : State W)
      (ch : Carries here there (context_at s context).fd fd')
      → AllPlain ls
      → IsConnected s context
      → (v : W) × (write_all here_ops (cells context ls) s ≡ outside_at s v)
        × (ch.queue v ≡ ch.queue s.world ++ packets p ls)
  write_all-sent context fd' [] s ch plain c = (s.world, refl, sym (append_nil (ch.queue s.world)))
  write_all-sent context fd' (l ∷ ls) s ch (plain, plains) c =
      let m = built context l.type l.text in
      let (u, sent, way) =
        packet_sent here there _ _ p ch s.world m l.text refl (omega (arith, plain.short)) in
      let (v, all, ways) =
        write_all-sent context fd' ls (outside_at s u) ch plains
          (record { in_range = c.in_range; connected = c.connected; socket = c.socket }) in
      (
        v,
        ap (λ t. write_all here_ops (cells context ls) t.1)
              (context_write-sent sys dirs undef p here s context m u c sent)
            ∙ all,
        ways
            ∙ ap (λ q. q ++ packets p ls) way
            ∙ append_assoc (ch.queue s.world) (packet_of p m.header l.text) (packets p ls),
      )

  -- What is on the way is put into the inbound queue, one message in each round.
  handle_again-received :
      (context fd i : ℕ) (ls : List Letter) (r : Reader W)
      (ch : Carries here there fd (context_at r.state context).fd)
      → AllPlain ls
      → IsConnected r.state context
      → get_or r.thread.context_ids i 0 ≡ context
      → (get_or r.thread.contexts i blank).revents ≡ poll_in
      → ch.queue r.state.world ≡ packets p ls
      → (z : W) × (handle_again there_ops i (length ls) r
          ≡ record (reader_at r z) { inbound = r.inbound ++ messages context ls })
        × (ch.queue z ≡ [])
  unfolding handle_again
  handle_again-received context fd i [] r ch plain c served event way =
      (r.state.world, ap (λ q. record r { inbound = q }) (sym (append_nil r.inbound)), way)
  handle_again-received context fd i (l ∷ ls) r ch (plain, plains) c served event way =
      let m = built context l.type l.text in
      let (u, got, rest) =
        packet_received here there _ _ p ch r.state.world m (empty_message context) l.text
          (packets p ls) (built_header-Fits l.type l.text plain.uuid) (omega (arith, plain.short))
          refl (omega (arith, plain.short)) plain.no_zero way in
      let (z, all, left) =
        handle_again-received context fd i ls
          (record (reader_at r u) { inbound = r.inbound ++ (m ∷ []) }) ch plains
          (record { in_range = c.in_range; connected = c.connected; socket = c.socket }) served
          event rest in
      (
        z,
        ap (handle_again there_ops i (length ls))
              (handle_event-received sys' dirs' undef' p there i r context m u served event c got)
            ∙ all
            ∙ ap (λ q. record (reader_at r z) { inbound = q })
                (append_assoc r.inbound (m ∷ []) (messages context ls)),
        left,
      )

  -- A write thread that wakes to messages which the socket takes.
  write_round-sent :
      (context fd' : ℕ) (l : Letter) (ls : List Letter) (a : Writer W)
      (ch : Carries here there (context_at a.state context).fd fd')
      → AllPlain (l ∷ ls)
      → IsConnected a.state context
      → Holds a.queues.heap a.queues.outbound (cells context (l ∷ ls))
      → ch.queue a.state.world ≡ []
      → (a' : Writer W) × (write_round here_ops (false ∷ []) (suc (length ls)) a ≡ some a')
        × Holds a'.queues.heap a'.queues.outbound []
        × (ch.queue a'.state.world ≡ packets p (l ∷ ls))
  write_round-sent context fd' l ls a ch plain c holds none_on =
      let (a', done, k) =
        write_round-writes here_ops [] (suc (length ls)) l.node (built context l.type l.text)
          (cells context ls) a holds (omega (arith, length-cells context ls)) in
      let (v, all, way) = write_all-sent context fd' (l ∷ ls) a.state ch plain c in
      (
        a',
        done,
        k.empty,
        ap (λ (s : State W). ch.queue s.world) (k.written ∙ all)
            ∙ way
            ∙ ap (λ q. q ++ packets p (l ∷ ls)) none_on,
      )

-- A dispatch thread that finds messages of an application calls the trampolines.
dispatch_round-heard :
    {V : Type 0} (context : ℕ) (l : Letter) (ls : List Letter) (ts : List ℕ) (d : Dispatcher V)
    → d.trampolines ≡ Trampolines.nodes ts
    → d.inbound ≡ messages context (l ∷ ls)
    → (d' : Dispatcher V) × (dispatch_round [] (replicate (suc (length ls)) false) d
        ≡ some (true, d'))
      × (d'.inbound ≡ [])
      × (d'.calls ≡ d.calls ++ heard ts context (l ∷ ls))
      × (d'.outbound ≡ d.outbound)
      × (d'.state ≡ d.state)
dispatch_round-heard context l ls ts d live waiting = (
  _,
  ap (λ n. dispatch_round [] (replicate (suc n) false) d) (sym (length-messages context ls))
      ∙ dispatch_round-handles [] ts (built context l.type l.text) (messages context ls) d live
          waiting (messages-Texts context (l ∷ ls)),
  refl,
  ap (λ cs. d.calls ++ cs) (all_calls-heard ts context (l ∷ ls)),
  ap (λ ms. d.outbound ++ ms) (all_replies-messages d.name context (l ∷ ls))
      ∙ append_nil d.outbound,
  all_named-messages context (l ∷ ls) d.state,
)

module _ {W : Type 0} (p : Platform) (here there : Socket W) (sys sys' : System W)
    (dirs dirs' : Directories W) (undef undef' : Undefined W) where
  -- The texts that one application writes to a connected context, one or more, while its outbound
  -- queue is empty and nothing is on the way, are built and enqueued, and written by a write thread
  -- that wakes; the other application's read thread, in as many rounds in which poll reports its end
  -- of the connection, puts as many messages into its empty inbound queue; and a dispatch thread makes
  -- each trampoline hear them once each, in the order of the calls, with the identifier of its own
  -- context, the type and the text, answers nothing and changes no context. Nothing is left on the
  -- way or in a queue. The connection carries what is sent, in order; types have elements of 32 bits,
  -- texts are shorter than `2 ^ 32 - 1` and have no zero, and each message gets an unused node.
  pub messages_delivered :
      {V : Type 0} (context context' i : ℕ) (l : Letter) (ls : List Letter) (ts : List ℕ)
      (a : Writer W) (b : Reader W) (d : Dispatcher V)
      (ch : Carries here there (context_at a.state context).fd (context_at b.state context').fd)
      → AllPlain (l ∷ ls)
      → Unused context (l ∷ ls) []
      → Holds a.queues.heap a.queues.outbound []
      → IsConnected a.state context
      → IsConnected b.state context'
      → get_or b.thread.context_ids i 0 ≡ context'
      → (get_or b.thread.contexts i blank).revents ≡ poll_in
      → b.inbound ≡ []
      → d.trampolines ≡ Trampolines.nodes ts
      → ch.queue a.state.world ≡ []
      → (q : Queues) × (a' : Writer W) × (b' : Reader W) × (d' : Dispatcher V) × (post_all context
            (l ∷ ls)
            a.queues
          ≡ some q)
        × (write_round
              (here_ops p here there sys sys' dirs dirs' undef undef')
              (false ∷ [])
              (suc (length ls))
              (record a { queues = q })
            ≡ some a')
        × (handle_again
              (there_ops p here there sys sys' dirs dirs' undef undef')
              i
              (suc (length ls))
              (reader_at b a'.state.world)
            ≡ b')
        × (dispatch_round [] (replicate (suc (length ls)) false) (record d { inbound = b'.inbound })
            ≡ some (true, d'))
        × (d'.calls ≡ d.calls ++ heard ts context' (l ∷ ls))
        × (d'.outbound ≡ d.outbound)
        × (d'.state ≡ d.state)
        × (d'.inbound ≡ [])
        × (ch.queue b'.state.world ≡ [])
        × Holds a'.queues.heap a'.queues.outbound []
  messages_delivered context context' i l ls ts a b d ch plain unused empty ca cb served event
        none_in live none_on =
      let (q, posted, holds) = post_all-cells context (l ∷ ls) a.queues [] empty unused in
      let (a', written, emptied, way) =
        write_round-sent p here there sys sys' dirs dirs' undef undef' context _ l ls
          (record a { queues = q }) ch plain ca holds none_on in
      let (z, received, left) =
        handle_again-received p here there sys sys' dirs dirs' undef undef' context' _ i (l ∷ ls)
          (reader_at b a'.state.world) ch plain
          (record { in_range = cb.in_range; connected = cb.connected; socket = cb.socket }) served
          event way in
      let (d', handled, idle, called, same, kept) =
        dispatch_round-heard context' l ls ts
          (record d { inbound = b.inbound ++ messages context' (l ∷ ls) }) live
          (ap (λ ms. ms ++ messages context' (l ∷ ls)) none_in) in
      (
        q,
        a',
        record (reader_at b z) { inbound = b.inbound ++ messages context' (l ∷ ls) },
        d',
        posted,
        written,
        received,
        handled,
        called,
        same,
        kept,
        idle,
        left,
        emptied,
      )
