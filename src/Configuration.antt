-- ===== src/Configuration.antt =====
-- core/src/details/configuration.c: the name of this application, and the file of a configuration, in
-- which nothing is looked at. The allocator has memory for a copy of a name.
use substance_3d_connector.Base.{ℕ, ◌>>=◌, Bool, true, false, List, [], ◌∷◌, Option, none, some}
use substance_3d_connector.Retcode.{Retcode}

-- `connector_set_application_name`: the old name is freed before the new one is copied.
unfoldable set_name : Option (List ℕ) → Option (List ℕ) → Retcode × Option (List ℕ)
set_name old none = (Retcode.error, none)
set_name old (some name) = (Retcode.success, some name)

-- `connector_parse_configuration_buffer`
unfoldable parse_configuration_buffer : Option (List ℕ) → Retcode
parse_configuration_buffer none = Retcode.error
parse_configuration_buffer (some buffer) = Retcode.success

-- What fread makes of the buffer, if the allocator had memory for it: `none` where bytes go to a null
-- pointer.
abbrev read_buffer : Bool → List ℕ → Option (Option (List ℕ))
read_buffer true bytes = some (some bytes)
read_buffer false [] = some none
read_buffer false (c ∷ bytes) = none

-- The parsing of a file that was opened, for its bytes.
unfoldable parse_opened : Bool → Option (List ℕ) → Option Retcode
unfolding parse_configuration_buffer
parse_opened memory none = some Retcode.error
parse_opened memory (some bytes) = do
  buffer ← read_buffer memory bytes
  some (parse_configuration_buffer buffer)

-- `connector_parse_configuration_file`, for what fopen gives: the bytes of the file.
unfoldable parse_configuration_file :
    (List ℕ → Option (List ℕ)) → Bool → Option (List ℕ) → Option Retcode
unfolding parse_opened
parse_configuration_file fopen memory none = some Retcode.error
parse_configuration_file fopen memory (some path) = parse_opened memory (fopen path)

-- `connector_clear_application_name`
unfoldable clear_name : Option (List ℕ) → Option (List ℕ)
clear_name name = none
