-- ===== src/Contexts/Opening.antt =====
-- What opening a context does.
use substance_3d_connector.Base.{
  set-set, ℕ, ◌<◌, ◌≡◌, refl, arith, ◌∙◌, lt→ltb, true, false, List, [], ◌∷◌, ◌++◌, none, some,
  get_or-set_self, length-set, set, bit_and, Bool-cases, inl, inr,
}
use substance_3d_connector.Retcode.{Retcode, is_success}
use substance_3d_connector.UintQueue
use substance_3d_connector.UintQueue.{UintQueue}
use substance_3d_connector.UintQueue.Inv.{IsQuiet, contents}
use substance_3d_connector.Contexts.Types.{
  Context, zeroed, State, Connection, Description, context_at, context_state, context_type,
  comm_mask, conn_open, append_available,
}
use substance_3d_connector.Contexts.Open.{context_open, finish_open, prepared}
use substance_3d_connector.Contexts.Config.{fields}
use substance_3d_connector.Contexts.Announcing.{
  CanAnnounce, IsAnnounced, append_available-IsAnnounced,
}
use substance_3d_connector.Contexts.FreeList.{
  NextFree, free_pop, give_back, stored, context_op-stored, stored_at, stored_elsewhere,
}

module _ {W : Type 0} (ops : Connection W) {s : State W} {i : ℕ} {rest : List ℕ}
    (n : NextFree s i rest) (d : Description) where
  open n use {bound, complete}

  open-popped :
      let (code, c', w) = ops.open_connection s.world (prepared d) in
      context_open ops s (some d) true
      ≡ finish_open i (code, stored s (UintQueue.pop s.free_contexts).2 i (prepared d) c' w)
  unfolding context_open
  open-popped =
      rw
        (
          (free_pop n).0,
          context_op-stored ops.open_connection s (UintQueue.pop s.free_contexts).2 i (prepared d)
              bound complete,
        )
        refl

  -- A successful open, up to what its announcement does.
  pub context_open-opens :
      (t : ℕ)
      → bit_and d.configuration comm_mask ≡ t
      → t < 256
      → (ops.open_connection s.world (prepared d)).1.configuration ≡ (prepared d).configuration
      → (ops.open_connection s.world (prepared d)).0 ≡ Retcode.success
      → let (code, out, s') = context_open ops s (some d) true in
        (code ≡ Retcode.success)
        × (out ≡ some i)
        × (contents s'.free_contexts ≡ rest)
        × IsQuiet s'.free_contexts
        × (context_state s' i ≡ conn_open)
        × (context_type s' i ≡ t)
        × (s'.available ≡ (append_available s i).available)
        × (set s'.context_list i zeroed ≡ set s.context_list i zeroed)
  unfolding finish_open append_available
  context_open-opens t e small keeps opens =
      rw (open-popped, opens)
        (
          refl,
          refl,
          (free_pop n).1,
          (free_pop n).2,
          rw (lt→ltb _ _ bound, at_i, keeps, e) (fields t small).open_state,
          rw (lt→ltb _ _ bound, at_i, keeps, e) (fields t small).open_type,
          refl,
          stored_elsewhere s (UintQueue.pop s.free_contexts).2 i (prepared d) c' w,
        )
    where
      c' : Context
      c' = (ops.open_connection s.world (prepared d)).1

      w : W
      w = (ops.open_connection s.world (prepared d)).2

      at_i : context_at (stored s (UintQueue.pop s.free_contexts).2 i (prepared d) c' w) i ≡ c'
      at_i = stored_at s (UintQueue.pop s.free_contexts).2 i (prepared d) c' w bound complete

  -- A successful open hands out the oldest free identifier, takes it off the free queue and puts it
  -- last in the queue of available contexts, behind the ones it held; its context is then in the open
  -- state with the type that was asked for, and no other context changes. The operation of the
  -- connection leaves the configuration of the structure alone, the type is below 256, the queue of
  -- available contexts is there and not full, and both queues are quiet, with no index about to wrap.
  pub context_open-success :
      (t : ℕ)
      → bit_and d.configuration comm_mask ≡ t
      → t < 256
      → (ops.open_connection s.world (prepared d)).1.configuration ≡ (prepared d).configuration
      → (ops.open_connection s.world (prepared d)).0 ≡ Retcode.success
      → (waiting : UintQueue) → CanAnnounce s.available waiting
      → let (code, out, s') = context_open ops s (some d) true in
        (code ≡ Retcode.success)
        × (out ≡ some i)
        × (contents s'.free_contexts ≡ rest)
        × IsQuiet s'.free_contexts
        × (context_state s' i ≡ conn_open)
        × (context_type s' i ≡ t)
        × IsAnnounced s'.available waiting i
        × (set s'.context_list i zeroed ≡ set s.context_list i zeroed)
  context_open-success t e small keeps opens waiting a =
      let (code, out, free, quiet, state, type, told, others) =
        context_open-opens t e small keeps opens in
      (
        code,
        out,
        free,
        quiet,
        state,
        type,
        rw told (append_available-IsAnnounced s waiting i a),
        others,
      )

  -- The context then is what the operation of the connection made of it.
  pub context_open-stores :
      (ops.open_connection s.world (prepared d)).0 ≡ Retcode.success
      → context_at (context_open ops s (some d) true).2 i
        ≡ (ops.open_connection s.world (prepared d)).1
  unfolding finish_open append_available
  context_open-stores opens =
      rw (open-popped, opens)
        (stored_at s (UintQueue.pop s.free_contexts).2 i (prepared d)
          (ops.open_connection s.world (prepared d)).1 (ops.open_connection s.world (prepared d)).2
          bound complete)

  -- The outside is what the operation of the connection left.
  pub context_open-world :
      (context_open ops s (some d) true).2.world ≡ (ops.open_connection s.world (prepared d)).2
  unfolding finish_open append_available
  context_open-world = elim (Bool-cases (is_success (ops.open_connection s.world (prepared d)).0)) [
    | inl opens ↦ rw (open-popped, opens) refl
    | inr fails ↦ rw (open-popped, fails) refl
  ]

  -- A failed open hands out nothing; the identifier that it took is last in the free queue again,
  -- its context is cleared, and neither another context nor the available queue changes. No index
  -- of the free queue is about to wrap.
  pub context_open-failure :
      is_success (ops.open_connection s.world (prepared d)).0 ≡ false
      → let (code, out, s') = context_open ops s (some d) true in
        (is_success code ≡ false)
        × (out ≡ none)
        × (contents s'.free_contexts ≡ rest ++ (i ∷ []))
        × IsQuiet s'.free_contexts
        × (context_at s' i ≡ zeroed)
        × (s'.available ≡ s.available)
        × (set s'.context_list i zeroed ≡ set s.context_list i zeroed)
  unfolding finish_open
  context_open-failure fails =
      rw (open-popped, fails)
        (
          fails,
          refl,
          (give_back n).0,
          (give_back n).1,
          get_or-set_self (set (set s.context_list i (prepared d)) i c') i zeroed zeroed (
              omega (
                arith,
                length-set (set s.context_list i (prepared d)) i c',
                length-set s.context_list i (prepared d),
              )),
          refl,
          set-set (set (set s.context_list i (prepared d)) i c') i zeroed zeroed
              ∙ stored_elsewhere s (UintQueue.pop s.free_contexts).2 i (prepared d) c' w,
        )
    where
      c' : Context
      c' = (ops.open_connection s.world (prepared d)).1

      w : W
      w = (ops.open_connection s.world (prepared d)).2
