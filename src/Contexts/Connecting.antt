-- ===== src/Contexts/Connecting.antt =====
-- What connecting a context does.
use substance_3d_connector.Base.{
  set-set, ℕ, ◌<◌, ◌≡◌, refl, arith, ap, ◌∙◌, lt→ltb, true, false, List, [], ◌∷◌, ◌++◌, Option,
  none, some, get_or, get_or-set_self, length, length-set, set, bit_and,
}
use substance_3d_connector.Retcode.{Retcode, is_success}
use substance_3d_connector.UintQueue
use substance_3d_connector.UintQueue.{UintQueue}
use substance_3d_connector.UintQueue.Inv.{IsQuiet, contents}
use substance_3d_connector.AvailableQueue.{context_count}
use substance_3d_connector.Contexts.Types.{
  Context, zeroed, State, Connection, Description, context_at, context_state, context_type,
  comm_mask, conn_open, conn_connected, append_available,
}
use substance_3d_connector.Contexts.Open.{
  prepared, context_connect, finish_connect, connected, popped_or_zero,
}
use substance_3d_connector.Contexts.Config.{fields}
use substance_3d_connector.Contexts.Announcing.{
  CanAnnounce, IsAnnounced, append_available-IsAnnounced,
}
use substance_3d_connector.Contexts.FreeList.{
  NextFree, KeepsConfiguration, KeepsPort, free_pop, give_back, stored, context_op-stored,
  stored_at, stored_elsewhere,
}

module _ {W : Type 0} (ops : Connection W) {s : State W} {i : ℕ} {rest : List ℕ}
    (n : NextFree s i rest) (d : Description) where
  open n use {bound, complete}

  connect-popped :
      let (code, c', w) = ops.bridge_connection s.world (prepared d) in
      context_connect ops s (some d) true
      ≡ finish_connect i (code, stored s (UintQueue.pop s.free_contexts).2 i (prepared d) c' w)
  unfolding context_connect
  connect-popped =
      rw
        (
          (free_pop n).0,
          context_op-stored ops.bridge_connection s (UintQueue.pop s.free_contexts).2 i (prepared d)
              bound complete,
        )
        refl

  c' : Context
  c' = (ops.bridge_connection s.world (prepared d)).1

  w : W
  w = (ops.bridge_connection s.world (prepared d)).2

  after : State W
  after = stored s (UintQueue.pop s.free_contexts).2 i (prepared d) c' w

  length-after : length after.context_list ≡ context_count
  unfolding after
  length-after = omega (
    arith,
    complete,
    length-set (set s.context_list i (prepared d)) i c',
    length-set s.context_list i (prepared d),
  )

  at_i : context_at after i ≡ c'
  unfolding after
  at_i = stored_at s (UintQueue.pop s.free_contexts).2 i (prepared d) c' w bound complete

  -- A successful connect hands out the oldest free identifier, takes it off the free queue and puts
  -- it last in the queue of available contexts, behind the ones it held; its context is then in the
  -- connected state alone, with the type that was asked for, and no other context changes. The
  -- operation of the connection is one that leaves the configuration alone, the type is below 256,
  -- the queue of available contexts is there and not full, and both queues are quiet, with no index
  -- about to wrap.
  pub context_connect-success :
      (t : ℕ)
      → bit_and d.configuration comm_mask ≡ t
      → t < 256
      → KeepsConfiguration ops.bridge_connection
      → (ops.bridge_connection s.world (prepared d)).0 ≡ Retcode.success
      → (waiting : UintQueue) → CanAnnounce s.available waiting
      → let (code, out, s') = context_connect ops s (some d) true in
        (code ≡ Retcode.success)
        × (out ≡ some i)
        × (contents s'.free_contexts ≡ rest)
        × IsQuiet s'.free_contexts
        × (context_state s' i ≡ conn_connected)
        × (context_type s' i ≡ t)
        × IsAnnounced s'.available waiting i
        × (set s'.context_list i zeroed ≡ set s.context_list i zeroed)
  unfolding finish_connect append_available after c' w
  context_connect-success t e small keeps opens waiting a =
      rw (connect-popped, opens)
        (
          refl,
          refl,
          (free_pop n).1,
          (free_pop n).2,
          rw (lt→ltb _ _ bound, at_end, keeps s.world (prepared d), e)
              (fields t small).connected_state,
          rw (lt→ltb _ _ bound, at_end, keeps s.world (prepared d), e)
              (fields t small).connected_type,
          append_available-IsAnnounced s waiting i a,
          set-set after.context_list i (connected (context_at after i)) zeroed
              ∙ stored_elsewhere s (UintQueue.pop s.free_contexts).2 i (prepared d) c' w,
        )
    where
      at_end :
          get_or (set after.context_list i (connected (context_at after i))) i zeroed ≡ connected c'
      at_end =
          get_or-set_self after.context_list i (connected (context_at after i)) zeroed
            (omega (arith, length-after))
          ∙ ap connected at_i

  -- The type that was asked for stays too.
  pub context_connect-failure_type :
      bit_and d.configuration comm_mask < 256
      → KeepsConfiguration ops.bridge_connection
      → is_success (ops.bridge_connection s.world (prepared d)).0 ≡ false
      → context_type (context_connect ops s (some d) true).2 i ≡ bit_and d.configuration comm_mask
  unfolding finish_connect after c' w
  context_connect-failure_type small keeps fails =
      rw (connect-popped, fails, lt→ltb _ _ bound, at_i, keeps s.world (prepared d))
        (fields _ small).open_type

  -- A failed connect hands out nothing and puts the identifier back in the free queue, but it does
  -- not clear the context: that one is left in the open state with the port of the description,
  -- although it is free. The operation of the connection is one that leaves the configuration and
  -- the port alone; the type is below 256, and no index of the free queue is about to wrap.
  pub context_connect-failure :
      bit_and d.configuration comm_mask < 256
      → KeepsConfiguration ops.bridge_connection
      → KeepsPort ops.bridge_connection
      → is_success (ops.bridge_connection s.world (prepared d)).0 ≡ false
      → let (code, out, s') = context_connect ops s (some d) true in
        (is_success code ≡ false)
        × (out ≡ none)
        × (contents s'.free_contexts ≡ rest ++ (i ∷ []))
        × (context_state s' i ≡ conn_open)
        × ((context_at s' i).port ≡ d.port)
        × (set s'.context_list i zeroed ≡ set s.context_list i zeroed)
  unfolding finish_connect after c' w
  context_connect-failure small keeps port fails =
      rw (connect-popped, fails)
        (
          fails,
          refl,
          (give_back n).0,
          rw (lt→ltb _ _ bound, at_i, keeps s.world (prepared d)) (fields _ small).open_state,
          rw at_i (port s.world (prepared d)),
          stored_elsewhere s (UintQueue.pop s.free_contexts).2 i (prepared d) c' w,
        )

connect-pops :
    {W : Type 0} (ops : Connection W) (s : State W) (d : Description) (code : Retcode)
    (out : Option ℕ) (free : UintQueue)
    → UintQueue.pop s.free_contexts ≡ (code, out, free)
    → popped_or_zero out < context_count
    → length s.context_list ≡ context_count
    → let (code, c', w) = ops.bridge_connection s.world (prepared d) in
      context_connect ops s (some d) true
      ≡ finish_connect
          (popped_or_zero out)
          (code, stored s free (popped_or_zero out) (prepared d) c' w)
unfolding context_connect
connect-pops ops s d code out free popped bound complete =
    rw
      (
        popped,
        context_op-stored ops.bridge_connection s free (popped_or_zero out) (prepared d) bound
            complete,
      )
      refl

-- A connect does not look at the code of its pop. When the free queue has nothing, a connect that
-- the connection refuses with a code other than success overwrites context 0, whatever it was in
-- use for, with the description it was given, and puts the identifier 0 in the free queue, unless
-- that queue is full.
pub context_connect-exhausted :
    {W : Type 0} (ops : Connection W) (s : State W) (d : Description) (free : UintQueue)
    → UintQueue.pop s.free_contexts ≡ (Retcode.error, none, free)
    → length s.context_list ≡ context_count
    → is_success (ops.bridge_connection s.world (prepared d)).0 ≡ false
    → let (code, out, s') = context_connect ops s (some d) true in
      (context_at s' 0 ≡ (ops.bridge_connection s.world (prepared d)).1)
      × (s'.free_contexts ≡ (UintQueue.push free 0).1)
unfolding finish_connect
context_connect-exhausted {W} ops s d free empty complete fails =
    rw (connect-pops ops s d Retcode.error none free empty (omega arith) complete, fails)
      (stored_at s free 0 (prepared d) c' w (omega arith) complete, refl)
  where
    c' : Context
    c' = (ops.bridge_connection s.world (prepared d)).1

    w : W
    w = (ops.bridge_connection s.world (prepared d)).2
