-- ===== src/Files/Types.antt =====
-- Which kinds of files the tests of a type accept.
use substance_3d_connector.Base.{
  ℕ, ◌+◌, ◌<◌, ◌≡◌, refl, arith, ◌==◌, ◌&&◌, ◌||◌, not, Bool, true, false, passes, test_of_passes,
  List, some, bit_and,
}
use substance_3d_connector.Retcode.{is_success}
use substance_3d_connector.Files.{
  FileSystem, is_directory, is_unix_socket, is_file, stat_ifdir, stat_ifreg, stat_ifsock,
}

-- The kinds of files that stat tells apart; it follows links.
pub data Kind : Type 0 where
  fifo character_device directory block_device regular socket : Kind

-- S_IFMT's values.
abbrev kind_bits : Kind → ℕ
kind_bits Kind.fifo = 0x1000
kind_bits Kind.character_device = 0x2000
kind_bits Kind.directory = 0x4000
kind_bits Kind.block_device = 0x6000
kind_bits Kind.regular = 0x8000
kind_bits Kind.socket = 0xc000

abbrev passes_directory : Kind → Bool
passes_directory Kind.directory = true
passes_directory Kind.block_device = true
passes_directory Kind.socket = true
passes_directory _ = false

abbrev passes_file : Kind → Bool
passes_file Kind.regular = true
passes_file Kind.socket = true
passes_file _ = false

abbrev same : Bool → Bool → Bool
same true b = b
same false b = not b

abbrev tested : Kind → ℕ → Bool
tested k permissions =
    same (not (bit_and (kind_bits k + permissions) stat_ifdir == 0)) (passes_directory k)
    && same (not (bit_and (kind_bits k + permissions) stat_ifreg == 0)) (passes_file k)
    && same (not (bit_and (kind_bits k + permissions) stat_ifsock == 0))
        (passes_directory k || passes_file k)

mode_test : ℕ → Bool
mode_test permissions =
    tested Kind.fifo permissions
    && tested Kind.character_device permissions
    && tested Kind.directory permissions
    && tested Kind.block_device permissions
    && tested Kind.regular permissions
    && tested Kind.socket permissions

mode_table : passes mode_test 4096 ≡ true
unfolding passes mode_test
mode_table = refl

tested_all :
    (k : Kind) (permissions : ℕ) → mode_test permissions ≡ true → tested k permissions ≡ true
unfolding mode_test
tested_all k permissions e = ground arith

-- The tests look for a common bit and not for the type: a directory, but also a block device and a
-- socket, passes for a directory; a regular file, but also a socket, passes for a file; and each of
-- these four passes for a Unix socket. The mode is one of the kinds with twelve bits of permissions.
pub test_file_type-kinds :
    {W : Type 0} (fs : FileSystem W) (w : W) (path : List ℕ) (k : Kind) (permissions : ℕ)
    → permissions < 4096
    → fs.stat w path ≡ some (kind_bits k + permissions)
    → (is_success (is_directory fs w (some path)) ≡ passes_directory k)
      × (is_success (is_file fs w (some path)) ≡ passes_file k)
      × (is_success (is_unix_socket fs w (some path)) ≡ (passes_directory k || passes_file k))
test_file_type-kinds fs w path k permissions small e =
    let t = tested_all k permissions (test_of_passes mode_test 4096 mode_table permissions small) in
    rw e (ground arith)
