-- ===== src/Framework/Senders/Tests.antt =====
-- Messages of the features, written to a list.
use substance_3d_connector.Base.{ℕ, true, List, [], ◌∷◌, some}
use substance_3d_connector.Retcode.{Retcode}
use substance_3d_connector.Uuid.{Uuid}
use substance_3d_connector.Framework.Applications.{load_mesh_id, rec_mesh_config_id}
use substance_3d_connector.Framework.Core.{Framework, StartupState}
use substance_3d_connector.Framework.Json.Sample.{Value}
use substance_3d_connector.Framework.Schemas.Fields.{codes}
use substance_3d_connector.Framework.Schemas.SendTo
use substance_3d_connector.Framework.Schemas.SendTo.{SendToSchema}
use substance_3d_connector.Framework.Schemas.ConfigRequest
use substance_3d_connector.Framework.Schemas.ConfigRequest.{ConfigRequest}
use substance_3d_connector.Framework.Schemas.MeshExport
use substance_3d_connector.Framework.Schemas.MeshExport.{MeshExport, LengthUnit}
use substance_3d_connector.Framework.Schemas.MeshRoundtrip.{empty}
use substance_3d_connector.Framework.Schemas.ConnectionDetails

abbrev Sent : Type 0
Sent = List (ℕ × Uuid × Value)

abbrev record_message : ℕ → Uuid → Value → Sent → Retcode × Sent
record_message context t text sent = (Retcode.success, (context, t, text) ∷ sent)

abbrev running : Framework Sent
running = record {
  startup_state = StartupState.connector_initialized;
  applications = [];
  feature_level = load_mesh_id ∷ rec_mesh_config_id ∷ [];
  connection_display_name = codes "Painter";
  connection_id = codes "painter";
  callback_map = [];
  outside = [];
}

abbrev request : ConfigRequest
request = record { asset_name = codes "chair"; asset_uuid = some (codes "7") }

abbrev settings : MeshExport
settings = record empty {
  asset_name = codes "chair";
  supported_formats = some [];
  unit = some LengthUnit.feet;
  request_uv = some true;
}

abbrev asset : SendToSchema
asset = record {
  path = codes "/tmp/chair.usd";
  name = codes "chair";
  uuid = [];
  type = codes "mesh";
  take_file_ownership = true;
}
