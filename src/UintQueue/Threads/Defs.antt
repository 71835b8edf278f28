-- ===== src/UintQueue/Threads/Defs.antt =====
-- Threads over one queue: the steps of the system, and its invariant.
use mathlib.Core.Logic.{ite}
use substance_3d_connector.Base.{
  ℕ, ◌+◌, ◌%◌, ◌≤◌, ◌<◌, ◌≡◌, Bool, true, false, List, [], ◌∷◌, ◌++◌, Option, none, some, length,
  get_or, take, ℕ_discrete,
}
use substance_3d_connector.UintQueue.{
  UintQueue, fresh, step, Pc, idle, push_start, push_read, push_claim, push_store, push_commit,
  push_done, pop_start, pop_read, pop_fetch, pop_claim, pop_done,
}

-- The queue with the elements whose pushes claimed a ticket and the elements that pops returned.
pub record Shared : Type 0 where
  pub queue : UintQueue
  pub open queue use *
  pub pushed : List ℕ
  pub popped : List ℕ

pub record System : Type 0 where
  pub shared : Shared
  pub pc : ℕ → Pc

abbrev pub update : (ℕ → Pc) → ℕ → Pc → ℕ → Pc
update f i p j = ite (ℕ_discrete i j) p (f j)

-- A thread outside any call.
abbrev pub returned : Pc → Bool
returned idle = true
returned (push_done _) = true
returned (pop_done _ _) = true
returned _ = false

-- The entry of a call.
abbrev pub entry : Pc → Bool
entry (push_start _) = true
entry pop_start = true
entry _ = false

-- What an access adds to the histories, by where it leaves the thread.
abbrev note_push : Pc → List ℕ → List ℕ
note_push (push_store elem _) l = l ++ (elem ∷ [])
note_push _ l = l

abbrev note_pop : Pc → List ℕ → List ℕ
note_pop (pop_done _ (some value)) l = l ++ (value ∷ [])
note_pop _ l = l

-- One access by a thread inside a call.
unfoldable pub advance : Pc → Shared → Pc × Shared
unfolding step
advance p s =
    let (p', q') = step p s.queue in
    (p', record { queue = q'; pushed = note_push p' s.pushed; popped = note_pop p' s.popped })

abbrev pub after : System → ℕ → System
after s i =
    let (p', shared') = advance (s.pc i) s.shared in
    record { shared = shared'; pc = update s.pc i p' }

pub data Step (s : System) : System → Type 0 where
  begin :
      (i : ℕ) (p : Pc)
      → returned (s.pc i) ≡ true
      → entry p ≡ true
      → Step s (record s { pc = update s.pc i p })
  move : (i : ℕ) → returned (s.pc i) ≡ false → Step s (after s i)

abbrev pub init : ℕ → System
init size = record {
  shared = record { queue = fresh size; pushed = []; popped = [] };
  pc = λ _. idle;
}

-- The states that threads can bring a new queue of `size` slots to.
pub data Reach (size : ℕ) : System → Type 0 where
  start : Reach size (init size)
  later : {s t : System} → Reach size s → Step s t → Reach size t

-- The ticket that a push holds between its claim and its commit.
abbrev pub ticket : Pc → Option ℕ
ticket (push_store _ w) = some w
ticket (push_commit w) = some w
ticket _ = none

-- What the locals of a thread say of the shared state. A failed exchange makes them void.
abbrev pub Local : Shared → Pc → Type 0
Local s (push_read _ w) = w ≤ s.write_index
Local s (push_claim _ w r) =
    (w ≤ s.write_index) × (w ≡ s.write_index → (r ≤ s.read_index) × (w < r + s.size))
Local s (push_store elem w) = (s.max_index ≤ w) × (w < s.write_index) × (get_or s.pushed w 0 ≡ elem)
Local s (push_commit w) =
    (s.max_index ≤ w) × (w < s.write_index) × (get_or s.array (w % s.size) 0 ≡ get_or s.pushed w 0)
Local s (pop_read r) = r ≤ s.read_index
Local s (pop_fetch r m) = (r ≤ s.read_index) × (r ≡ s.read_index → (r ≤ m) × (m ≤ s.max_index))
Local s (pop_claim r value) =
    (r ≤ s.read_index) × (r ≡ s.read_index → (r < s.max_index) × (value ≡ get_or s.pushed r 0))
Local s _ = Unit

-- What holds of the shared state whatever the threads do.
pub record IsSound (s : Shared) : Type 0 where
  pub written : s.write_index ≡ length s.pushed
  pub taken : s.read_index ≡ length s.popped
  pub behind : s.read_index ≤ s.max_index
  pub ahead : s.max_index ≤ s.write_index
  pub room : s.write_index < s.read_index + s.size
  pub storage : length s.array ≡ s.size
  pub stored :
      (t : ℕ)
      → s.read_index ≤ t
      → t < s.max_index
      → get_or s.array (t % s.size) 0 ≡ get_or s.pushed t 0
  pub prefix : s.popped ≡ take s.read_index s.pushed

pub record Inv (s : System) : Type 0 where
  pub sound : IsSound s.shared
  pub local : (i : ℕ) → Local s.shared (s.pc i)
  pub single : (i j t : ℕ) → ticket (s.pc i) ≡ some t → ticket (s.pc j) ≡ some t → i ≡ j
