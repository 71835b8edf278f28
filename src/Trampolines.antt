-- ===== src/Trampolines.antt =====
-- core/src/details/callbacks.c: the functions of the user that hear of messages. A trampoline is
-- named by the address of its code; the allocator is taken to have memory for a node.
pub mod Order
use substance_3d_connector.Base.{
  ℕ, ◌==◌, Bool, true, false, List, [], ◌∷◌, Option, none, some, if◌then◌else◌,
}
use substance_3d_connector.Retcode.{Retcode, is_success}
use substance_3d_connector.Uuid.{Uuid}

-- The nodes from the front on; `released` when the front points at nodes that were freed.
pub data Trampolines : Type 0 where
  nodes : List ℕ → Trampolines
  released : Trampolines

-- A call of a trampoline.
pub record Call : Type 0 where
  pub trampoline : ℕ
  pub context : ℕ
  pub type : Uuid
  pub text : List ℕ

-- `connector_init_trampoline_subsystem`
unfoldable init_trampolines : Trampolines → Retcode × Trampolines
init_trampolines s = (Retcode.success, Trampolines.nodes [])

-- `connector_shutdown_trampoline_subsystem` frees every node and leaves the front pointer as it
-- was; `none` when it frees them again.
unfoldable shutdown_trampolines : Trampolines → Option (Retcode × Trampolines)
shutdown_trampolines (Trampolines.nodes []) = some (Retcode.success, Trampolines.nodes [])
shutdown_trampolines (Trampolines.nodes (t ∷ ts)) = some (Retcode.success, Trampolines.released)
shutdown_trampolines Trampolines.released = none

-- The loop of `connector_notify_trampolines`.
abbrev pub calls : ℕ → Uuid → List ℕ → List ℕ → List Call
calls context type text [] = []
calls context type text (t ∷ ts) =
    record { trampoline = t; context = context; type = type; text = text }
    ∷ calls context type text ts

-- `connector_notify_trampolines`: the calls that are made, `none` when a freed node is read.
unfoldable pub notify_trampolines : ℕ → Uuid → List ℕ → Trampolines → Option (List Call)
notify_trampolines context type text (Trampolines.nodes ts) = some (calls context type text ts)
notify_trampolines context type text Trampolines.released = none

-- `connector_add_trampoline`: the new node stands before the front.
unfoldable pub add_trampoline : Option ℕ → Trampolines → Option (Retcode × Trampolines)
add_trampoline none s = some (Retcode.invalid, s)
add_trampoline (some t) (Trampolines.nodes ts) = some (Retcode.success, Trampolines.nodes (t ∷ ts))
add_trampoline (some t) Trampolines.released = none

-- The loop of `connector_remove_trampoline`: the code, and the nodes without the first match.
abbrev pub remove_first : ℕ → List ℕ → Retcode × List ℕ
remove_first t [] = (Retcode.invalid, [])
remove_first t (u ∷ us) =
    let (code, rest) = remove_first t us in
    if u == t then (Retcode.success, us) else (code, u ∷ rest)

-- `connector_remove_trampoline`
unfoldable pub remove_trampoline : Option ℕ → Trampolines → Option (Retcode × Trampolines)
remove_trampoline none s = some (Retcode.invalid, s)
remove_trampoline (some t) (Trampolines.nodes ts) =
    let (code, rest) = remove_first t ts in some (code, Trampolines.nodes rest)
remove_trampoline (some t) Trampolines.released = none
