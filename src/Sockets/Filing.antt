-- ===== src/Sockets/Filing.antt =====
-- The directories of the sockets' operations as core/src/details/system/connectiondirectory.c works
-- them over the calls of the file system, and the descriptors that they use.
use substance_3d_connector.Base.{
  ℕ, ◌≡◌, refl, ◌∙◌, Bool-cases, inl, inr, true, List, [], ◌∷◌, ◌++◌, some,
}
use substance_3d_connector.Retcode.{Retcode}
use substance_3d_connector.Strings.Joins.{intercalated, path_join-intercalated}
use substance_3d_connector.Ports.{create_tcp_filepath, print_port}
use substance_3d_connector.Files.{
  FileSystem, make_directory, ensure_directory, ensure_default_tcp_directory, commit_open_tcp_port,
  default_tcp_directory,
}
use substance_3d_connector.Sockets.{Directories}

-- The calls of the file system that open a TCP port leave no descriptor behind, the file of a port
-- being closed again, and that file can be opened.
pub record KeepsDescriptors {W : Type 0} (fs : FileSystem W) (open_fds : W → List ℕ) : Type 0 where
  pub of_mkdir : (w : W) (path : List ℕ) → open_fds (fs.mkdir w path).1 ≡ open_fds w
  pub of_chmod : (w : W) (path : List ℕ) → open_fds (fs.chmod w path).1 ≡ open_fds w
  pub of_create : (w : W) (path : List ℕ) → open_fds (fs.create w path).1 ≡ open_fds w
  pub creates : (w : W) (path : List ℕ) → (fs.create w path).0 ≡ true

-- The functions of the directories that open a TCP port are the ones of Files.
pub record AreFiles {W : Type 0} (fs : FileSystem W) (dirs : Directories W) : Type 0 where
  pub ensures : (w : W) → dirs.ensure_default_tcp w ≡ ensure_default_tcp_directory fs w
  pub commits :
      (w w' : W) (port : ℕ) (code : Retcode)
      → commit_open_tcp_port fs w default_tcp_directory port ≡ some (code, w')
      → dirs.commit_open_tcp_port w port ≡ w'

-- The directories give back the descriptors that they use.
pub record Tidy {W : Type 0} (dirs : Directories W) (open_fds : W → List ℕ) : Type 0 where
  pub of_ensure : (w : W) → open_fds (dirs.ensure_default_tcp w).1 ≡ open_fds w
  pub of_commit : (w : W) (port : ℕ) → open_fds (dirs.commit_open_tcp_port w port) ≡ open_fds w

module _ {W : Type 0} {fs : FileSystem W} {open_fds : W → List ℕ}
    (keeps : KeepsDescriptors fs open_fds) where
  make_directory-keeps :
      (w : W) (path : List ℕ) → open_fds (make_directory fs w (some path)).1 ≡ open_fds w
  unfolding make_directory
  make_directory-keeps w path = elim (Bool-cases (fs.mkdir w path).0) [
    | inl made ↦ rw made (keeps.of_chmod (fs.mkdir w path).1 path ∙ keeps.of_mkdir w path)
    | inr refused ↦ rw refused (keeps.of_mkdir w path)
  ]

  commit-keeps :
      (w : W) (directory : List ℕ) (port : ℕ)
      → (w' : W) × (commit_open_tcp_port fs w directory port ≡ some (Retcode.success, w'))
        × (open_fds w' ≡ open_fds w)
  unfolding commit_open_tcp_port create_tcp_filepath
  commit-keeps w directory port =
      let joined = path_join-intercalated directory (print_port port ∷ []) in
      let location = intercalated (directory ∷ print_port port ∷ []) ++ (0 ∷ []) in
      (
        (fs.create w location).1,
        rw (joined, keeps.creates w location) refl,
        keeps.of_create w location,
      )

  pub AreFiles-Tidy : {dirs : Directories W} → AreFiles fs dirs → Tidy dirs open_fds
  unfolding ensure_default_tcp_directory ensure_directory
  AreFiles-Tidy are = record {
    of_ensure = λ w. rw (are.ensures w) (make_directory-keeps w default_tcp_directory);
    of_commit = λ w port.
        let (w', done, kept) = commit-keeps w default_tcp_directory port in
        rw (are.commits w w' port Retcode.success done) kept;
  }
