-- ===== src/Sockets/Tests.antt =====
-- The sockets with a concrete system, whose state is the list of the open descriptors.
use substance_3d_connector.Base.{
  ℕ, ap, ◌+◌, ◌≡◌, refl, arith, ◌++◌, true, false, List, [], ◌∷◌, none, some, Option, length, set,
}
use substance_3d_connector.Retcode.{Retcode, is_success}
use substance_3d_connector.UintQueue.Inv.{contents}
use substance_3d_connector.Uuid.{internal_log_uuid}
use substance_3d_connector.Message.{Message, message_identifier}
use substance_3d_connector.Wire.Sample.{little_endian, loopback}
use substance_3d_connector.Contexts.Types.{
  Connection, zeroed, context_at, context_state, context_type, comm_tcp, conn_open,
}
use substance_3d_connector.Contexts.Open.{
  context_open_tcp, context_open_unix, tcp_description, prepared,
}
use substance_3d_connector.Contexts.Starting.{started, range_from, init_contexts-ready}
use substance_3d_connector.Sockets.{System, Directories, Undefined}
use substance_3d_connector.Sockets.Tcp.{open_tcp}
use substance_3d_connector.Sockets.Table.{connection}
use substance_3d_connector.Sockets.Descriptors.{Accounts, Balanced, open_tcp-Balanced}
use substance_3d_connector.Sockets.Filing.{KeepsDescriptors, AreFiles}
use substance_3d_connector.Sockets.Tcp
use substance_3d_connector.Files.{
  FileSystem, ensure_default_tcp_directory, commit_open_tcp_port, default_tcp_directory,
}
use substance_3d_connector.Sockets.Opened.{
  Listens, context_open_tcp-Listens, context_open_unix-refused,
}

abbrev rest_of : List ℕ → List ℕ
rest_of [] = []
rest_of (fd ∷ fds) = fds

-- Every call succeeds but a connect.
abbrev busy_system : System (List ℕ)
busy_system = record {
  socket = λ w. (some (length w + 3), (length w + 3) ∷ w);
  bind = λ w fd a. (true, w);
  getsockname = λ w fd. (some 50000, w);
  listen = λ w fd. (true, w);
  connect = λ w fd a. (false, w);
  accept = λ w fd. (none, w);
  close = λ w fd. (true, rest_of w);
  unlink = λ w path. w;
  sun_path = 108;
}

abbrev no_files : Directories (List ℕ)
no_files = record {
  ensure_default_tcp = λ w. (Retcode.success, w);
  commit_open_tcp_port = λ w port. w;
  remove_open_tcp_port = λ w port. w;
  ensure_default_unix = λ w. (Retcode.success, w);
  build_default_unix_path = none;
}

abbrev anything : Undefined (List ℕ)
anything = record {
  at_context = λ w c. (Retcode.error, c, w);
  at_write = λ w c m. (Retcode.error, w);
  at_read = λ w c m. (Retcode.error, m, w);
}

fd_of :
    (w : List ℕ) (fd : ℕ) → (busy_system.socket w).0 ≡ some fd → (busy_system.socket w).1 ≡ fd ∷ w
fd_of w fd e = ground arith

busy-Accounts : Accounts busy_system (λ (w : List ℕ). w)
busy-Accounts = record {
  of_no_socket = λ w e. absurd (ground arith);
  of_socket = λ w fd e. fd_of w fd e;
  of_bind = λ w fd a. refl;
  of_getsockname = λ w fd. refl;
  of_listen = λ w fd. refl;
  of_connect = λ w fd a. refl;
  of_close = λ w fd fds e. ap rest_of e;
}

-- A file system where every path is a directory and every call succeeds.
abbrev fresh_disk : FileSystem (List ℕ)
fresh_disk = record {
  stat = λ w path. some 0x41ff;
  mkdir = λ w path. (true, w);
  chmod = λ w path. (true, w);
  rmdir = λ w path. (true, w);
  unlink = λ w path. (true, w);
  create = λ w path. (true, w);
  readdir = λ w path. some [];
}

fresh_disk-KeepsDescriptors : KeepsDescriptors fresh_disk (λ (w : List ℕ). w)
fresh_disk-KeepsDescriptors = record {
  of_mkdir = λ w path. refl;
  of_chmod = λ w path. refl;
  of_create = λ w path. refl;
  creates = λ w path. refl;
}

-- What an open without a result leaves is the state before.
abbrev committed : Option (Retcode × List ℕ) → List ℕ → List ℕ
committed none w = w
committed (some (code, w')) w = w'

-- The directories on that file system.
abbrev disk_directories : Directories (List ℕ)
disk_directories = record no_files {
  ensure_default_tcp = λ w. ensure_default_tcp_directory fresh_disk w;
  commit_open_tcp_port =
      λ w port. committed (commit_open_tcp_port fresh_disk w default_tcp_directory port) w;
}

disk_directories-AreFiles : AreFiles fresh_disk disk_directories
disk_directories-AreFiles = record {
  ensures = λ w. refl;
  commits = λ w w' port code e. ap (λ r. committed r w) e;
}

-- The system refuses the port.
abbrev refused_system : System (List ℕ)
refused_system = record busy_system { bind = λ w fd a. (false, w) }

refused-Accounts : Accounts refused_system (λ (w : List ℕ). w)
refused-Accounts = record {
  of_no_socket = busy-Accounts.of_no_socket;
  of_socket = busy-Accounts.of_socket;
  of_bind = λ w fd a. refl;
  of_getsockname = λ w fd. refl;
  of_listen = λ w fd. refl;
  of_connect = λ w fd a. refl;
  of_close = λ w fd fds e. ap rest_of e;
}

refused_open :
    is_success (open_tcp refused_system disk_directories [] (prepared (tcp_description 4000))).0
    ≡ false
unfolding open_tcp Tcp.bind_tcp ensure_default_tcp_directory
refused_open = refl

open_tcp-Balanced_example :
    Balanced
      (λ (w : List ℕ). w)
      []
      (open_tcp refused_system disk_directories [] (prepared (tcp_description 4000)))
open_tcp-Balanced_example =
    open_tcp-Balanced refused-Accounts fresh_disk-KeepsDescriptors disk_directories-AreFiles []
      (prepared (tcp_description 4000))

abbrev busy_ops : Connection (List ℕ)
busy_ops = connection busy_system no_files anything little_endian loopback

fresh-Listens : Listens busy_system no_files anything little_endian loopback [] 4000 3 50000
fresh-Listens = record {
  ensured = refl;
  given = refl;
  bound = 3 ∷ [];
  binds = refl;
  named = 3 ∷ [];
  names = refl;
  listening = refl;
}

context_open_tcp-Listens_example :
    let (code, out, s') = context_open_tcp busy_ops (started []) 4000 true in
    (code ≡ Retcode.success)
    × (out ≡ some 0)
    × (contents s'.free_contexts ≡ range_from 31 1)
    × (context_state s' 0 ≡ conn_open)
    × (context_type s' 0 ≡ comm_tcp)
    × ((context_at s' 0).fd ≡ 3)
    × ((context_at s' 0).port ≡ 50000)
    × (set s'.context_list 0 zeroed ≡ set (started {W = List ℕ} []).context_list 0 zeroed)
context_open_tcp-Listens_example =
    context_open_tcp-Listens busy_system no_files anything little_endian loopback
      (init_contexts-ready []).1 4000 fresh-Listens

context_open_unix-refused_example :
    let (code, out, s') = context_open_unix busy_ops (started []) (some (47 ∷ 97 ∷ [])) true in
    (is_success code ≡ false)
    × (out ≡ none)
    × (contents s'.free_contexts ≡ range_from 31 1 ++ (0 ∷ []))
    × (context_at s' 0 ≡ zeroed)
    × (◌≡◌ {A = List ℕ} s'.world [])
    × (set s'.context_list 0 zeroed ≡ set (started {W = List ℕ} []).context_list 0 zeroed)
context_open_unix-refused_example =
    context_open_unix-refused busy_system no_files anything little_endian loopback
      (init_contexts-ready []).1 (47 ∷ 97 ∷ [])

abbrev greeting : Message
greeting = record {
  header = record {
    description = message_identifier;
    message_length = 1;
    message_id = internal_log_uuid;
  };
  message = some (65 ∷ []);
  context = 3;
}
