-- ===== src/Files/Tests.antt =====
-- Files of a concrete system.
use substance_3d_connector.Base.{◌≡◌, refl, arith, ◌>>=◌, true, [], ◌∷◌, some}
use substance_3d_connector.Retcode.{Retcode}
use substance_3d_connector.Files.{FileSystem, list_directory, walk}
use substance_3d_connector.Files.Listing.{list_directory-walk}

-- Every path is a socket, and every directory holds ".", "a" and "b".
abbrev sockets : FileSystem (Unit {0})
sockets = record {
  stat = λ w path. some 0xc1ff;
  mkdir = λ w path. (true, w);
  chmod = λ w path. (true, w);
  rmdir = λ w path. (true, w);
  unlink = λ w path. (true, w);
  create = λ w path. (true, w);
  readdir = λ w path. some ((46 ∷ []) ∷ (97 ∷ []) ∷ (98 ∷ []) ∷ []);
}

list_directory-walk_example :
    let (code, l) = list_directory sockets tt [] in
    (code ≡ Retcode.success) × ((l.elements >>= walk) ≡ some ((97 ∷ []) ∷ (98 ∷ []) ∷ []))
list_directory-walk_example =
    list_directory-walk sockets tt [] ((46 ∷ []) ∷ (97 ∷ []) ∷ (98 ∷ []) ∷ []) refl (omega arith)
