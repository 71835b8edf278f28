-- ===== src/Contexts/FreeList.antt =====
-- The free queue as a list of identifiers, and the table after an operation on one structure.
use substance_3d_connector.Base.{
  set-set, ℕ, ◌+◌, ◌-◌, ◌^◌, ◌<◌, ◌≡◌, refl, arith, ap, ap₂, ◌∙◌, lt→ltb, List, [], ◌∷◌, ◌++◌, some,
  get_or-set_self, length, length-set, set,
}
use substance_3d_connector.Retcode.{Retcode}
use substance_3d_connector.UintQueue
use substance_3d_connector.UintQueue.{UintQueue}
use substance_3d_connector.UintQueue.Fifo
use substance_3d_connector.UintQueue.Inv.{IsQuiet, contents, length-window}
use substance_3d_connector.UintQueue.Calls.{push_refines, pop_refines}
use substance_3d_connector.AvailableQueue.{context_count}
use substance_3d_connector.Contexts.Types.{Context, zeroed, State, put_context, context_at}
use substance_3d_connector.Contexts.Open.{context_op}

-- The free queue is quiet and away from the wrap, its first element is `i` and the others are
-- `rest`; the table is complete.
pub record NextFree {W : Type 0} (s : State W) (i : ℕ) (rest : List ℕ) : Type 0 where
  pub quiet : IsQuiet s.free_contexts
  pub held : contents s.free_contexts ≡ i ∷ rest
  pub far : s.free_contexts.write_index + 1 < 2 ^ 32
  pub bound : i < context_count
  pub complete : length s.context_list ≡ context_count

-- The descriptions and structures keep their type when a connection opens.
abbrev pub KeepsConfiguration : {W : Type 0} → (W → Context → Retcode × Context × W) → Type 0
KeepsConfiguration {W} op = (w : W) (c : Context) → (op w c).1.configuration ≡ c.configuration

abbrev pub KeepsPort : {W : Type 0} → (W → Context → Retcode × Context × W) → Type 0
KeepsPort {W} op = (w : W) (c : Context) → (op w c).1.port ≡ c.port

module _ {W : Type 0} {s : State W} {i : ℕ} {rest : List ℕ} (n : NextFree s i rest) where
  open n use {quiet, held, far, bound, complete}

  -- What the pop gives.
  pub free_pop :
      let q = s.free_contexts in
      (UintQueue.pop q ≡ (Retcode.success, some i, (UintQueue.pop q).2))
      × (contents (UintQueue.pop q).2 ≡ rest)
      × IsQuiet (UintQueue.pop q).2
  unfolding Fifo.pop
  free_pop =
      let q = s.free_contexts in
      let e : ((UintQueue.pop q).0, (UintQueue.pop q).1, contents (UintQueue.pop q).2)
          ≡ (Retcode.success, some i, rest) =
        (pop_refines quiet).0 ∙ ap Fifo.pop held in
      (
        ap₂ (λ code out. (code, out, (UintQueue.pop q).2)) (ap (λ r. r.0) e) (ap (λ r. r.1) e),
        ap (λ r. r.2) e,
        (pop_refines quiet).1,
      )

  -- A pop leaves the write index and the size.
  free_pop-indices :
      let q = (UintQueue.pop s.free_contexts).2 in
      (q.write_index ≡ s.free_contexts.write_index) × (q.size ≡ s.free_contexts.size)
  unfolding UintQueue.pop
  free_pop-indices = ground arith

  -- Giving the identifier back puts it last.
  pub give_back :
      let q = (UintQueue.push (UintQueue.pop s.free_contexts).2 i).1 in
      (contents q ≡ rest ++ (i ∷ [])) × IsQuiet q
  unfolding Fifo.push
  give_back = ground (
    arith,
    ap length held,
    length-window s.free_contexts.array s.free_contexts.size s.free_contexts.read_index
        (s.free_contexts.write_index - s.free_contexts.read_index),
    push_refines free_pop.2 i (omega (arith, free_pop-indices)),
    free_pop,
    free_pop-indices,
  )

-- The table after an operation on the structure that was written at `i`.
abbrev pub stored : {W : Type 0} → State W → UintQueue → ℕ → Context → Context → W → State W
stored s free i c c' w = record s {
  context_list = set (set s.context_list i c) i c';
  free_contexts = free;
  world = w;
}

module _ {W : Type 0} (op : W → Context → Retcode × Context × W) where
  pub context_op-stored :
      (s : State W) (free : UintQueue) (i : ℕ) (c : Context)
      → i < context_count
      → length s.context_list ≡ context_count
      → let (code, c', w) = op s.world c in
        context_op op (put_context (record s { free_contexts = free }) i c) i
        ≡ (code, stored s free i c c' w)
  unfolding context_op
  context_op-stored s free i c bound complete =
      rw (lt→ltb _ _ bound, get_or-set_self s.context_list i c zeroed (omega arith)) refl

module _ {W : Type 0} (s : State W) (free : UintQueue) (i : ℕ) (c c' : Context) (w : W) where
  pub stored_at :
      i < context_count
      → length s.context_list ≡ context_count
      → context_at (stored s free i c c' w) i ≡ c'
  stored_at bound complete =
      get_or-set_self (set s.context_list i c) i c' zeroed
        (omega (arith, length-set s.context_list i c))

  pub stored_elsewhere :
      set (stored s free i c c' w).context_list i zeroed ≡ set s.context_list i zeroed
  stored_elsewhere =
      set-set (set s.context_list i c) i c' zeroed ∙ set-set s.context_list i c zeroed
