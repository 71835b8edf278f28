-- ===== src/Retcode.antt =====
-- core/include/substance/connector/errorcodes.h: the return codes of the core.

use substance_3d_connector.Base.{Bool, true, false}

-- The enumeration `SubstanceConnectorError`, without its count.
pub data Retcode : Type 0 where
  success error badalloc notloaded conn_fail : Retcode
  send_fail unsupported invalid read_fail open_fail : Retcode

-- The comparison with SUBSTANCE_CONNECTOR_SUCCESS.
abbrev pub is_success : Retcode → Bool
is_success success = true
is_success _ = false
