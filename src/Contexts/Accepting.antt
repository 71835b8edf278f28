-- ===== src/Contexts/Accepting.antt =====
-- What accepting a connection does.
use substance_3d_connector.Base.{
  set-set, ℕ, ◌<◌, ◌≡◌, refl, arith, lt→ltb, true, List, some, get_or, get_or-set_self, set, bit_or,
}
use substance_3d_connector.Retcode.{Retcode}
use substance_3d_connector.UintQueue.Inv.{IsQuiet, contents}
use substance_3d_connector.AvailableQueue.{context_count}
use substance_3d_connector.Contexts.Types.{
  Context, zeroed, State, Connection, context_at, context_state, context_type, conn_open,
  conn_connected, append_available,
}
use substance_3d_connector.Contexts.Open.{context_accept, finish_accept}
use substance_3d_connector.Contexts.Config.{fields}
use substance_3d_connector.UintQueue.{UintQueue}
use substance_3d_connector.Contexts.Announcing.{
  CanAnnounce, IsAnnounced, append_available-IsAnnounced,
}
use substance_3d_connector.Contexts.FreeList.{NextFree, free_pop}

module _ {W : Type 0} (ops : Connection W) {s : State W} {i : ℕ} {rest : List ℕ}
    (n : NextFree s i rest) where
  open n use {bound, complete}

  accept-popped :
      (context fd : ℕ)
      → context < context_count
      → context_state s context ≡ conn_open
      → (ops.accept_connection s.world (context_at s context)).0 ≡ some fd
      → context_accept ops s context true
        ≡ finish_accept
            (record s { world = (ops.accept_connection s.world (context_at s context)).1 })
            context
            (some fd)
  unfolding context_accept
  accept-popped context fd valid open_now incoming =
      rw (lt→ltb _ _ valid) (ground (arith, lt→ltb _ _ valid))

  -- A connection that comes in on an open context gets the oldest free identifier, which leaves
  -- the free queue and is last in the queue of available contexts, behind the ones it held; the
  -- context of that identifier is in the connected state, of the type of the open one, with the
  -- descriptor that came in, and no other context changes. The open context's type is below 256, the
  -- queue of available contexts is there and not full, and both queues are quiet, with no index
  -- about to wrap.
  pub context_accept-success :
      (context fd : ℕ)
      → context < context_count
      → context_state s context ≡ conn_open
      → context_type s context < 256
      → (ops.accept_connection s.world (context_at s context)).0 ≡ some fd
      → (waiting : UintQueue) → CanAnnounce s.available waiting
      → let (code, out, s') = context_accept ops s context true in
        (code ≡ Retcode.success)
        × (out ≡ some i)
        × (contents s'.free_contexts ≡ rest)
        × IsQuiet s'.free_contexts
        × (context_state s' i ≡ conn_connected)
        × (context_type s' i ≡ context_type s context)
        × ((context_at s' i).fd ≡ fd)
        × IsAnnounced s'.available waiting i
        × (set s'.context_list i zeroed ≡ set s.context_list i zeroed)
  unfolding context_accept finish_accept append_available
  context_accept-success context fd valid open_now small incoming waiting a =
      rw (accept-popped context fd valid open_now incoming, (free_pop n).0)
        (
          refl,
          refl,
          (free_pop n).1,
          (free_pop n).2,
          rw (lt→ltb _ _ bound, at_i) (fields _ small).accepted_state,
          rw (lt→ltb _ _ bound, at_i) (fields _ small).accepted_type,
          rw at_i refl,
          append_available-IsAnnounced s waiting i a,
          set-set s.context_list i c zeroed,
        )
    where
      c : Context
      c = record (context_at s i) {
        configuration = bit_or (context_type s context) conn_connected;
        fd = fd;
      }

      at_i : get_or (set s.context_list i c) i zeroed ≡ c
      at_i = get_or-set_self s.context_list i c zeroed (omega (arith, complete, bound))
