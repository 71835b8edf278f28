-- ===== src/Autoconnect.antt =====
-- core/src/details/network/autoconnect.c: the connections to the instances whose sockets stand in a
-- directory.
pub mod Busy
pub mod Broadcast
mod Tests
use substance_3d_connector.Base.{
  ℕ, zero, suc, ◌+◌, leb, ◌==◌, not, ◌&&◌, ◌||◌, ◌>>=◌, if◌then◌else◌, Bool, true, false, List, [],
  ◌∷◌, Option, none, some,
}
use substance_3d_connector.Retcode.{Retcode, is_success}
use substance_3d_connector.AvailableQueue.{context_count}
use substance_3d_connector.Contexts.Types.{
  State, Connection, conn_closed, comm_tcp, context_state, context_type, context_port,
}
use substance_3d_connector.Contexts.Open.{
  Outcome, context_connect_tcp, context_connect_unix, context_open_tcp, context_open_unix,
}
use substance_3d_connector.Wire.{c_string}
use substance_3d_connector.Strings.{path_join}
use substance_3d_connector.Ports.{port_of_path}
use substance_3d_connector.Files.{
  FileSystem, FileList, Cell, is_directory, is_file, is_unix_socket, list_directory, remove_file,
  walk,
}

abbrev pub has_port : ℕ → Option ℕ → Bool
has_port port none = false
has_port port (some p) = port == p

module _ {W : Type 0} where
  -- The test of one context in `test_tcp_validity`.
  unfoldable pub is_taken : State W → ℕ → ℕ → Bool
  is_taken s port i =
      not (context_state s i == conn_closed)
      && (context_type s i == comm_tcp)
      && has_port port (context_port s i)

  -- Its loop over the given number of contexts from an index on.
  unfoldable pub any_taken : State W → ℕ → ℕ → ℕ → Bool
  unfolding is_taken
  any_taken s port zero i = false
  any_taken s port (suc n) i =
      let rest = any_taken s port n (i + 1) in if is_taken s port i then true else rest

  unfoldable pub test_tcp_validity : State W → ℕ → Retcode
  unfolding any_taken
  test_tcp_validity s port =
      if leb port 65535
      then (if any_taken s port context_count 0 then Retcode.error else Retcode.success)
      else Retcode.error

module _ {W : Type 0} (ops : Connection W) where
  -- The code and the state of an operation with an out parameter.
  abbrev pub without_out : Outcome W → Retcode × State W
  without_out (code, out, s) = (code, s)

  -- The end of `connect_tcp_path_impl`, on the port of the path.
  unfoldable pub connect_port : ℕ → State W → Retcode × State W
  unfolding test_tcp_validity
  connect_port port s =
      let connected = without_out (context_connect_tcp ops s port true) in
      if is_success (test_tcp_validity s port) then connected else (Retcode.success, s)

  -- `connect_tcp_path_impl`; `none` for a path without a delimiter.
  unfoldable pub connect_tcp_path : List ℕ → State W → Option (Retcode × State W)
  unfolding connect_port
  connect_tcp_path path s = port_of_path path >>= λ port. some (connect_port port s)

  abbrev pub connect_unix_path : List ℕ → State W → Option (Retcode × State W)
  connect_unix_path path s = some (without_out (context_connect_unix ops s (some path) true))

  -- `connector_open_default_tcp` and `connector_open_default_unix`
  abbrev pub open_default_tcp : State W → Bool → Outcome W
  open_default_tcp s = context_open_tcp ops s 0

  abbrev pub open_default_unix : State W → Bool → Outcome W
  open_default_unix s = context_open_unix ops s none

-- The result of a loop that came to its end.
abbrev pub finished : {W : Type 0} → Option (State W) → Option (Retcode × State W)
finished none = none
finished (some s) = some (Retcode.success, s)

module _ {W : Type 0} (fs : FileSystem W) (test : W → Option (List ℕ) → Retcode)
    (connect : List ℕ → State W → Option (Retcode × State W)) where
  -- The file is removed after a failed connection.
  abbrev pub drop_failed : List ℕ → Retcode × State W → State W
  drop_failed path (code, s) =
      if is_success code then s else record s { world = (remove_file fs s.world path).1 }

  -- The body of the loop of `broadcast_connect_impl` on a joined path.
  unfoldable pub visit_path : List ℕ → State W → Option (State W)
  visit_path path s =
      let connected = connect path s >>= λ r. some (drop_failed path r) in
      if is_success (test s.world (some path)) then connected else some s

  unfoldable pub visit : List ℕ → List ℕ → State W → Option (State W)
  unfolding visit_path
  visit directory name s = do
    (code, buffer) ← path_join (directory ∷ name ∷ [])
    path ← buffer
    visit_path (c_string path) s

  unfoldable pub visit_all : List ℕ → List (List ℕ) → State W → Option (State W)
  unfolding visit
  visit_all directory [] s = some s
  visit_all directory (name ∷ names) s = visit directory name s >>= visit_all directory names

  -- The loop over the names up to the null pointer, whose end is reported as a success.
  unfoldable pub visit_array : List ℕ → List Cell → State W → Option (Retcode × State W)
  unfolding visit_all
  visit_array directory array s = walk array >>= λ names. finished (visit_all directory names s)

  -- The test of the array, which can be a null pointer.
  unfoldable pub visit_elements : List ℕ → Option (List Cell) → State W → Option (Retcode × State W)
  unfolding visit_array
  visit_elements directory none s = some (Retcode.error, s)
  visit_elements directory (some array) s = visit_array directory array s

  -- The part after the listing.
  unfoldable pub visit_listing : List ℕ → Retcode × FileList → State W → Option (Retcode × State W)
  unfolding visit_elements
  visit_listing directory (code, l) s =
      let visited = visit_elements directory l.elements s in
      if is_success code then visited else some (Retcode.error, s)

  -- `broadcast_connect_impl`
  unfoldable pub broadcast_connect : List ℕ → State W → Option (Retcode × State W)
  unfolding visit_listing
  broadcast_connect directory s =
      let visited = visit_listing directory (list_directory fs s.world directory) s in
      if is_success (is_directory fs s.world (some directory))
      then visited
      else some (Retcode.error, s)

-- `connector_broadcast_connect_tcp` and `connector_broadcast_connect_unix`
module _ {W : Type 0} (ops : Connection W) (fs : FileSystem W) where
  abbrev pub broadcast_connect_tcp : List ℕ → State W → Option (Retcode × State W)
  broadcast_connect_tcp = broadcast_connect fs (is_file fs) (connect_tcp_path ops)

  abbrev pub broadcast_connect_unix : List ℕ → State W → Option (Retcode × State W)
  broadcast_connect_unix = broadcast_connect fs (is_unix_socket fs) (connect_unix_path ops)
