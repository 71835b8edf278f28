-- ===== src/Files.antt =====
-- core/src/details/system/fileutils.c, and the files of open TCP ports of
-- core/src/details/system/connectiondirectory.c. The calls of the operating system are those of
-- `FileSystem`; the allocator has memory and gives it uninitialised.
pub mod Types
mod Cells
pub mod Listing
mod Tests
use substance_3d_connector.Base.{
  ℕ, zero, suc, ◌+◌, ◌*◌, ◌==◌, not, ◌>>=◌, if◌then◌else◌, Bool, true, false, List, [], ◌∷◌, ◌++◌,
  Option, none, some, codes, get_or, set, replicate, bit_and,
}
use substance_3d_connector.Retcode.{Retcode, is_success}
use substance_3d_connector.Ports.{create_tcp_filepath}

-- The calls of the operating system over a state of the outside: the mode that stat gives, the
-- results of mkdir and chmod, of rmdir and unlink, and of opening a file for writing; what readdir
-- gives for a directory that opendir opens.
pub record FileSystem (W : Type 0) : Type 0 where
  pub stat : W → List ℕ → Option ℕ
  pub mkdir : W → List ℕ → Bool × W
  pub chmod : W → List ℕ → Bool × W
  pub rmdir : W → List ℕ → Bool × W
  pub unlink : W → List ℕ → Bool × W
  pub create : W → List ℕ → Bool × W
  pub readdir : W → List ℕ → Option (List (List ℕ))

-- S_IFDIR, S_IFREG and S_IFSOCK
abbrev pub stat_ifdir : ℕ
stat_ifdir = 0x4000

abbrev pub stat_ifreg : ℕ
stat_ifreg = 0x8000

abbrev pub stat_ifsock : ℕ
stat_ifsock = 0xc000

-- `connector_get_default_unix_directory` and `connector_get_default_tcp_directory`, on POSIX.
abbrev pub default_unix_directory : List ℕ
default_unix_directory = codes "/tmp/substanceconnectoropenunix"

abbrev pub default_tcp_directory : List ℕ
default_tcp_directory = codes "/tmp/substanceconnectoropentcp"

-- `connector_setup_default_tcp_directory` and `connector_cleanup_default_tcp_directory`, on POSIX.
abbrev pub setup_default_tcp_directory : Retcode
setup_default_tcp_directory = Retcode.success

abbrev pub cleanup_default_tcp_directory : Retcode
cleanup_default_tcp_directory = Retcode.success

-- `test_file_type` on what stat gave.
abbrev test_mode : Option ℕ → ℕ → Retcode
test_mode none flag = Retcode.error
test_mode (some mode) flag = if not (bit_and mode flag == 0) then Retcode.success else Retcode.error

module _ {W : Type 0} (fs : FileSystem W) where
  -- `test_file_type`
  abbrev test_file_type : W → Option (List ℕ) → ℕ → Retcode
  test_file_type w none flag = Retcode.error
  test_file_type w (some path) flag = test_mode (fs.stat w path) flag

  abbrev pub is_directory : W → Option (List ℕ) → Retcode
  is_directory w path = test_file_type w path stat_ifdir

  abbrev pub is_unix_socket : W → Option (List ℕ) → Retcode
  is_unix_socket w path = test_file_type w path stat_ifsock

  abbrev pub is_file : W → Option (List ℕ) → Retcode
  is_file w path = test_file_type w path stat_ifreg

  -- `connector_make_directory`: the mode is changed only after the directory was made.
  unfoldable pub make_directory : W → Option (List ℕ) → Retcode × W
  make_directory w none = (Retcode.error, w)
  make_directory w (some path) =
      let (made, w1) = fs.mkdir w path in
      let (changed, w2) = fs.chmod w1 path in
      if made then (if changed then Retcode.success else Retcode.error, w2) else (Retcode.error, w1)

  -- `connector_remove_directory`
  unfoldable pub remove_directory : W → List ℕ → Retcode × W
  remove_directory w path =
      let (removed, w') = fs.rmdir w path in
      (if removed then Retcode.success else Retcode.error, w')

  -- `connector_remove_file`
  unfoldable pub remove_file : W → List ℕ → Retcode × W
  remove_file w path =
      let (removed, w') = fs.unlink w path in
      (if removed then Retcode.success else Retcode.error, w')

  -- What `connector_ensure_default_tcp_directory` and its sibling do with their directory.
  unfoldable pub ensure_directory : W → List ℕ → Retcode × W
  unfolding make_directory
  ensure_directory w path =
      let (code, w') = make_directory w (some path) in (is_directory w' (some path), w')

  -- `connector_ensure_default_unix_directory` and `connector_ensure_default_tcp_directory`
  unfoldable pub ensure_default_unix_directory : W → Retcode × W
  unfolding ensure_directory
  ensure_default_unix_directory w = ensure_directory w default_unix_directory

  unfoldable pub ensure_default_tcp_directory : W → Retcode × W
  unfolding ensure_directory
  ensure_default_tcp_directory w = ensure_directory w default_tcp_directory

  -- `connector_commit_open_tcp_port`; `none` where the file could not be opened, which is closed
  -- all the same.
  unfoldable pub commit_open_tcp_port : W → List ℕ → ℕ → Option (Retcode × W)
  commit_open_tcp_port w directory port = do
    buffer ← create_tcp_filepath directory port
    location ← buffer
    let (opened, w') = fs.create w location
    if opened then some (Retcode.success, w') else none

  -- `connector_remove_open_tcp_port`
  unfoldable pub remove_open_tcp_port : W → List ℕ → ℕ → Option (Retcode × W)
  unfolding remove_file
  remove_open_tcp_port w directory port = do
    buffer ← create_tcp_filepath directory port
    location ← buffer
    let removed = remove_file w location
    some (if is_success (is_file w (some location)) then removed else (Retcode.error, w))

-- A cell of an array of pointers to names.
pub data Cell : Type 0 where
  garbage : Cell
  null : Cell
  entry : (name : List ℕ) → Cell

-- The array with its capacity.
pub record FileList : Type 0 where
  pub elements : Option (List Cell)
  pub capacity : ℕ

-- CONNECTOR_DEFAULT_FILE_LIST_SIZE
abbrev file_list_size : ℕ
file_list_size = 16

-- The array that `append_file_list` writes to: a larger one is zeroed up to the old capacity, and
-- the old one is copied over that part.
unfoldable pub make_room : FileList → ℕ → List Cell × ℕ
make_room l size = elim l.elements [
  | none ↦ (replicate file_list_size Cell.null, file_list_size)
  | some array ↦
      if size + 2 == l.capacity
      then (array ++ replicate l.capacity Cell.garbage, l.capacity * 2)
      else (array, l.capacity)
]

-- `append_file_list`
unfoldable pub append_file_list : List ℕ → FileList → ℕ → FileList × ℕ
unfolding make_room
append_file_list path l size =
    let (array, capacity) = make_room l size in
    (record { elements = some (set array size (Cell.entry path)); capacity = capacity }, size + 1)

-- `default_filter`: the first byte of a name, which is the terminator of an empty one, is no dot.
abbrev pub default_filter : List ℕ → Bool
default_filter name = not (get_or name 0 0 == 46)

-- The loop of `connector_list_directory` with a filter.
unfoldable pub list_names : (List ℕ → Bool) → List (List ℕ) → FileList × ℕ → FileList × ℕ
unfolding append_file_list
list_names filter_op [] (l, size) = (l, size)
list_names filter_op (name ∷ names) (l, size) =
    let appended = append_file_list name l size in
    list_names filter_op names (if filter_op name then appended else (l, size))

-- `connector_list_directory` for the default filter and an array that starts as a null pointer.
unfoldable pub list_directory : {W : Type 0} → FileSystem W → W → List ℕ → Retcode × FileList
unfolding list_names
list_directory fs w path = elim (fs.readdir w path) [
  | none ↦ (Retcode.error, record { elements = none; capacity = 0 })
  | some names ↦ (
    Retcode.success,
    (list_names default_filter names (record { elements = none; capacity = 0 }, 0)).0,
  )
]

-- The names that a loop over the array sees up to the null pointer, as in
-- `connector_clear_directory_list`; `none` where it reads a cell that was never written, or one
-- behind the array.
unfoldable pub walk : List Cell → Option (List (List ℕ))
walk [] = none
walk (Cell.garbage ∷ cells) = none
walk (Cell.null ∷ cells) = some []
walk (Cell.entry name ∷ cells) = walk cells >>= λ names. some (name ∷ names)
