-- ===== src/Autoconnect/Tests.antt =====
-- Automatic connections at concrete contexts.
use substance_3d_connector.Base.{◌≡◌, refl, arith, true, false, [], ◌∷◌, ◌++◌, none, some}
use substance_3d_connector.Retcode.{Retcode, is_success}
use substance_3d_connector.Contexts.Types.{Connection, conn_open, context_state, context_port}
use substance_3d_connector.UintQueue.Inv.{contents}
use substance_3d_connector.Contexts.Open.{context_connect_tcp}
use substance_3d_connector.Contexts.Starting.{range_from, started, init_contexts-ready}
use substance_3d_connector.Files.{FileSystem}
use substance_3d_connector.Autoconnect.{connect_port}
use substance_3d_connector.Autoconnect.Busy.{failed_connect-blocks}

-- A connection that refuses everything.
abbrev refusing : Connection (Unit {0})
refusing = record {
  open_connection = λ w c. (Retcode.open_fail, c, w);
  bridge_connection = λ w c. (Retcode.open_fail, c, w);
  close_connection = λ w c. (Retcode.success, c, w);
  accept_connection = λ w c. (none, w);
  write_connection = λ w c m. (Retcode.conn_fail, w);
  read_connection = λ w c m. (Retcode.read_fail, m, w);
}

failed_connect-blocks_example :
    let (code, out, s') = context_connect_tcp refusing (started tt) 4000 true in
    (is_success code ≡ false)
    × (out ≡ none)
    × (contents s'.free_contexts ≡ range_from 31 1 ++ (0 ∷ []))
    × (context_state s' 0 ≡ conn_open)
    × (context_port s' 0 ≡ some 4000)
    × (connect_port refusing 4000 s' ≡ (Retcode.success, s'))
failed_connect-blocks_example =
    failed_connect-blocks refusing (init_contexts-ready tt).1 4000 (omega arith) (λ w c. refl)
      (λ w c. refl) refl

-- Every path is a file or a directory, and every directory holds "4000".
abbrev one_port : FileSystem (Unit {0})
one_port = record {
  stat = λ w path. some 0xc1ff;
  mkdir = λ w path. (true, w);
  chmod = λ w path. (true, w);
  rmdir = λ w path. (true, w);
  unlink = λ w path. (true, w);
  create = λ w path. (true, w);
  readdir = λ w path. some ((52 ∷ 48 ∷ 48 ∷ 48 ∷ []) ∷ []);
}
