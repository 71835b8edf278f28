-- ===== src/Sockets.antt =====
-- core/src/details/connection.c, core/src/details/connection_unix.c and
-- core/src/details/network/openconnectionimpl.c: the operations that a context's type chooses, on
-- TCP and Unix sockets. The system's calls are those of `System`, the directories of port files and
-- sockets those of `Directories`, and what a program does after it read or wrote outside of a
-- buffer, of which nothing is known, is `Undefined`.
pub mod Tcp
pub mod Local
pub mod Table
pub mod Filing
pub mod Descriptors
pub mod Opened
pub mod Unknown
mod Tests
use substance_3d_connector.Base.{
  ℕ, ◌+◌, ◌%◌, ◌^◌, ltb, leb, ◌==◌, not, if◌then◌else◌, Bool, true, false, List, Option, none, some,
  length, bit_and,
}
use substance_3d_connector.Retcode.{Retcode}
use substance_3d_connector.Message.{Message}
use substance_3d_connector.Contexts.Types.{Context}

-- Where a socket listens or connects to: a port of the local host, or a path.
pub data Address : Type 0 where
  inet : (port : ℕ) → Address
  unix : (path : List ℕ) → Address

-- The calls of the operating system. `none` is a negative result, and a test is whether the result
-- is not negative.
pub record System (W : Type 0) : Type 0 where
  pub socket : W → Option ℕ × W
  pub bind : W → ℕ → Address → Bool × W
  -- The port of a bound socket, in the order of the host.
  pub getsockname : W → ℕ → Option ℕ × W
  pub listen : W → ℕ → Bool × W
  pub connect : W → ℕ → Address → Bool × W
  pub accept : W → ℕ → Option ℕ × W
  pub close : W → ℕ → Bool × W
  pub unlink : W → List ℕ → W
  -- sizeof(address.sun_path)
  pub sun_path : ℕ

-- core/src/details/system/connectiondirectory.c
pub record Directories (W : Type 0) : Type 0 where
  pub ensure_default_tcp : W → Retcode × W
  pub commit_open_tcp_port : W → ℕ → W
  pub remove_open_tcp_port : W → ℕ → W
  pub ensure_default_unix : W → Retcode × W
  pub build_default_unix_path : Option (List ℕ)

pub record Undefined (W : Type 0) : Type 0 where
  pub at_context : W → Context → Retcode × Context × W
  pub at_write : W → Context → Message → Retcode × W
  pub at_read : W → Context → Message → Retcode × Message × W

-- What a context operation gives.
abbrev pub Result : Type 0 → Type 0
Result W = Retcode × Context × W
