-- ===== src/Autoconnect/Busy.antt =====
-- Ports that an automatic connection passes over.
use substance_3d_connector.Base.{
  ℕ, zero, suc, ◌+◌, ◌<◌, ◌≤◌, ◌≡◌, ◌≢◌, ◌↔◌, refl, arith, ◌∙◌, sym, ap, ==_refl, Bool-cases, inl,
  inr, true, false, List, [], ◌∷◌, ◌++◌, none, some, length, length-set, get_or, get_elem?,
  ℕ_discrete,
}
use substance_3d_connector.Retcode.{Retcode, is_success}
use substance_3d_connector.UintQueue.Inv.{contents}
use substance_3d_connector.AvailableQueue.{context_count}
use substance_3d_connector.Contexts.Types.{
  State, Connection, Context, zeroed, context_at, conn_open, comm_tcp, context_state, context_type,
  context_port,
}
use substance_3d_connector.Contexts.Open.{
  context_connect, context_connect_tcp, tcp_description, prepared,
}
use substance_3d_connector.Contexts.FreeList.{NextFree, KeepsConfiguration, KeepsPort}
use substance_3d_connector.Contexts.Connecting.{
  context_connect-failure, context_connect-failure_type,
}
use substance_3d_connector.Autoconnect.{is_taken, any_taken, test_tcp_validity, connect_port}

module _ {W : Type 0} where
  any_taken-here :
      (s : State W) (port n j i : ℕ)
      → j ≤ i
      → i < j + n
      → is_taken s port i ≡ true
      → any_taken s port n j ≡ true
  unfolding any_taken
  any_taken-here s port zero j i low high e = absurd (omega arith)
  any_taken-here s port (suc n) j i low high e = elim (ℕ_discrete j i) [
    | yes same ↦ rw (same, e) refl
    | no other ↦ elim (Bool-cases (is_taken s port j)) [
      | inl t ↦ rw t refl
      | inr f ↦ rw f (any_taken-here s port n (j + 1) i (omega arith) (omega arith) e)
    ]
  ]

  any_taken-nowhere :
      (s : State W) (port n j : ℕ)
      → ((i : ℕ) → i < j + n → is_taken s port i ≡ false)
      → any_taken s port n j ≡ false
  unfolding any_taken
  any_taken-nowhere s port zero j free = refl
  any_taken-nowhere s port (suc n) j free =
      rw (free j (omega arith)) (any_taken-nowhere s port n (j + 1) (λ i h. free i (omega arith)))

  -- A port that a context in use has is refused.
  taken-refused :
      (s : State W) (port i : ℕ)
      → i < context_count
      → is_taken s port i ≡ true
      → test_tcp_validity s port ≡ Retcode.error
  unfolding test_tcp_validity
  taken-refused s port i bound e =
      rw (any_taken-here s port context_count 0 i (omega arith) (omega arith) e) (ground arith)

  valid_small : (s : State W) (port : ℕ) → test_tcp_validity s port ≡ Retcode.success → port ≤ 65535
  unfolding test_tcp_validity
  valid_small s port e = ground arith

  valid_free :
      (s : State W) (port : ℕ)
      → test_tcp_validity s port ≡ Retcode.success
      → (port ≤ 65535) × ((i : ℕ) → i < context_count → is_taken s port i ≡ false)
  valid_free s port e = (
    valid_small s port e,
    λ i bound. elim (Bool-cases (is_taken s port i)) [
      | inl t ↦ absurd (apart (sym e ∙ taken-refused s port i bound t))
      | inr f ↦ f
    ],
  )
    where
      apart : Retcode.success ≢ Retcode.error
      apart h = absurd (ground arith)

  free_valid :
      (s : State W) (port : ℕ)
      → port ≤ 65535
      → ((i : ℕ) → i < context_count → is_taken s port i ≡ false)
      → test_tcp_validity s port ≡ Retcode.success
  unfolding test_tcp_validity
  free_valid s port small free =
      rw (any_taken-nowhere s port context_count 0 (λ i h. free i h)) (ground arith)

  -- A port is valid for a connection exactly when it has 16 bits and no context in use of the TCP
  -- type has it.
  test_tcp_validity_iff :
      (s : State W) (port : ℕ)
      → (test_tcp_validity s port ≡ Retcode.success)
        ↔ ((port ≤ 65535) × ((i : ℕ) → i < context_count → is_taken s port i ≡ false))
  test_tcp_validity_iff s port = (valid_free s port, λ (small, free). free_valid s port small free)

  is_taken-open :
      (s : State W) (port i : ℕ)
      → context_state s i ≡ conn_open
      → context_type s i ≡ comm_tcp
      → context_port s i ≡ some port
      → is_taken s port i ≡ true
  unfolding is_taken
  is_taken-open s port i state type named = rw (state, type, named) (==_refl port)

  context_port-at :
      (s : State W) (i port : ℕ)
      → get_elem? s.context_list i ≡ some (context_at s i)
      → (context_at s i).port ≡ port
      → context_port s i ≡ some port
  context_port-at s i port e at_port = rw (context_port, e) (ap some at_port)

get_elem-get_or :
    (cs : List Context) (i : ℕ) → i < length cs → get_elem? cs i ≡ some (get_or cs i zeroed)
get_elem-get_or [] i h = absurd (omega arith)
get_elem-get_or (c ∷ cs) zero h = refl
get_elem-get_or (c ∷ cs) (suc i) h = get_elem-get_or cs i (omega arith)

module _ {W : Type 0} (ops : Connection W) {s : State W} {i : ℕ} {rest : List ℕ}
    (n : NextFree s i rest) where
  connect_port-passes :
      (t : State W) (port : ℕ)
      → test_tcp_validity t port ≡ Retcode.error
      → connect_port ops port t ≡ (Retcode.success, t)
  unfolding connect_port
  connect_port-passes t port e = rw e refl

  -- A TCP connect that fails hands out nothing and leaves its context, whose identifier is last in
  -- the free queue again, in the open state with the port, so that a later automatic connection to that port passes it over: it reports a success and changes
  -- nothing. The operation of the connection leaves the configuration and the port alone, the port
  -- has 16 bits, and no index of the free queue is about to wrap.
  pub failed_connect-blocks :
      (port : ℕ)
      → port ≤ 65535
      → KeepsConfiguration ops.bridge_connection
      → KeepsPort ops.bridge_connection
      → is_success (ops.bridge_connection s.world (prepared (tcp_description port))).0 ≡ false
      → let (code, out, s') = context_connect_tcp ops s port true in
        (is_success code ≡ false)
        × (out ≡ none)
        × (contents s'.free_contexts ≡ rest ++ (i ∷ []))
        × (context_state s' i ≡ conn_open)
        × (context_port s' i ≡ some port)
        × (connect_port ops port s' ≡ (Retcode.success, s'))
  unfolding context_connect_tcp
  failed_connect-blocks port small keeps keeps_port fails =
      let d = tcp_description port in
      let (code, out, free, state, at_port, others) =
        context_connect-failure ops n d (omega arith) keeps keeps_port fails in
      let type = context_connect-failure_type ops n d (omega arith) keeps fails in
      let s' = (context_connect ops s (some d) true).2 in
      let complete : length s'.context_list ≡ context_count =
        sym (length-set s'.context_list i zeroed)
        ∙ ap length others
        ∙ length-set s.context_list i zeroed
        ∙ n.complete in
      let elem = get_elem-get_or s'.context_list i (omega (arith, complete, n.bound)) in
      let has_port = context_port-at s' i port elem (at_port ∙ omega arith) in
      (
        code,
        out,
        free,
        state,
        has_port,
        connect_port-passes s' port
            (taken-refused s' port i n.bound (is_taken-open s' port i state type has_port)),
      )
