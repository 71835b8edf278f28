-- ===== src/Contexts/Types.antt =====
-- core/include/substance/connector/details/context_struct.h and the static state of
-- core/src/details/context_queue.c between the initialisation and the shutdown.
use substance_3d_connector.Base.{
  ℕ, ltb, if◌then◌else◌, List, Option, none, some, get_or, get_elem?, set, bit_and,
}
use substance_3d_connector.Retcode.{Retcode}
use substance_3d_connector.Uuid.{Uuid}
use substance_3d_connector.Message.{Message}
use substance_3d_connector.UintQueue.{UintQueue}
use substance_3d_connector.AvailableQueue
use substance_3d_connector.AvailableQueue.{context_count}

-- `connector_context_t`; the port and the descriptor are size_t.
pub record Context : Type 0 where
  pub configuration : ℕ
  pub fd : ℕ
  pub port : ℕ
  pub connection_data : Option (List ℕ)
  pub application_name : Option (List ℕ)
  pub identifier : ℕ

-- What `memset` leaves.
abbrev pub zeroed : Context
zeroed = record {
  configuration = 0;
  fd = 0;
  port = 0;
  connection_data = none;
  application_name = none;
  identifier = 0;
}

-- SubstanceConnectorCommunication
abbrev pub comm_tcp : ℕ
comm_tcp = 0x01

abbrev pub comm_unix : ℕ
comm_unix = 0x02

abbrev pub comm_max : ℕ
comm_max = 0x02

abbrev pub comm_mask : ℕ
comm_mask = 0xff

-- SubstanceConnectorConnState
abbrev pub conn_closed : ℕ
conn_closed = 0x000

abbrev pub conn_open : ℕ
conn_open = 0x100

abbrev pub conn_connected : ℕ
conn_connected = 0x200

abbrev pub conn_shutdown : ℕ
conn_shutdown = 0x400

abbrev pub conn_mask : ℕ
conn_mask = 0x700

-- The 64-bit complement of the mask.
abbrev pub not_conn_mask : ℕ
not_conn_mask = 0xfffffffffffff8ff

-- SubstanceConnectorHandshake
abbrev pub handshake_sent : ℕ
handshake_sent = 0x800

abbrev pub handshake_mask : ℕ
handshake_mask = 0x800

-- `connector_context_desc_t`
pub record Description : Type 0 where
  pub configuration : ℕ
  pub connection_data : Option (List ℕ)
  pub port : ℕ

-- A call of the trampolines.
pub record Notice : Type 0 where
  pub context : ℕ
  pub kind : Uuid
  pub text : List ℕ

-- The connection operations that the table of core/src/details/connection.c chooses, over a state
-- `W` of the outside. An accepted descriptor below zero is `none`.
pub record Connection (W : Type 0) : Type 0 where
  pub open_connection : W → Context → Retcode × Context × W
  pub bridge_connection : W → Context → Retcode × Context × W
  pub close_connection : W → Context → Retcode × Context × W
  pub accept_connection : W → Context → Option ℕ × W
  pub write_connection : W → Context → Message → Retcode × W
  pub read_connection : W → Context → Message → Retcode × Message × W

-- `context_list`, `free_contexts`, the queue of available contexts, the trampoline calls made so
-- far and the outside.
pub record State (W : Type 0) : Type 0 where
  pub context_list : List Context
  pub free_contexts : UintQueue
  pub available : Option UintQueue
  pub notices : List Notice
  pub world : W

module _ {W : Type 0} where
  abbrev pub context_at : State W → ℕ → Context
  context_at s i = get_or s.context_list i zeroed

  abbrev pub put_context : State W → ℕ → Context → State W
  put_context s i c = record s { context_list = set s.context_list i c }

  -- `append_available`, whose code no caller looks at; waking the read threads has no state here.
  unfoldable pub append_available : State W → ℕ → State W
  append_available s context = record s { available = (AvailableQueue.push s.available context).1 }

  -- `context_configuration`: UINT_MAX out of range.
  abbrev context_configuration : State W → ℕ → ℕ → ℕ
  context_configuration s context mask =
      if ltb context context_count
      then bit_and (context_at s context).configuration mask
      else 0xffffffff

  abbrev pub context_state : State W → ℕ → ℕ
  context_state s context = context_configuration s context conn_mask

  abbrev pub context_type : State W → ℕ → ℕ
  context_type s context = context_configuration s context comm_mask

  -- `connector_context_port` tests no bound: `none` is a read outside of the table.
  abbrev pub context_port : State W → ℕ → Option ℕ
  context_port s context = elim (get_elem? s.context_list context) [
    | none ↦ none
    | some c ↦ some c.port
  ]

  -- -1 out of range.
  abbrev pub context_get_fd : State W → ℕ → Option ℕ
  context_get_fd s context =
      if ltb context context_count then some (context_at s context).fd else none

  abbrev pub get_application_name : State W → ℕ → Option (List ℕ)
  get_application_name s context =
      if ltb context context_count then (context_at s context).application_name else none
