-- ===== src/Framework/Senders.antt =====
-- What the features of module-cpp/src/framework send: features/sendmesh.cpp, features/sendsbsar.cpp, and
-- the answer of system.cpp to a new connection, with `getConnectionContext` of core.cpp. The core's
-- write_message is a parameter over a state of the outside; its code has no effect.
pub mod Exchange
mod Tests
use substance_3d_connector.Base.{ℕ, List}
use substance_3d_connector.Retcode.{Retcode}
use substance_3d_connector.Uuid.{Uuid}
use substance_3d_connector.Framework.Applications.{
  connection_update_context_id, load_mesh_id, request_mesh_config_id, rec_mesh_config_id,
  load_sbsar_id,
}
use substance_3d_connector.Framework.Core.{Framework}
use substance_3d_connector.Framework.Json.{Json}
use substance_3d_connector.Framework.Schemas.SendTo
use substance_3d_connector.Framework.Schemas.SendTo.{SendToSchema}
use substance_3d_connector.Framework.Schemas.ConfigRequest
use substance_3d_connector.Framework.Schemas.ConfigRequest.{ConfigRequest}
use substance_3d_connector.Framework.Schemas.MeshExport
use substance_3d_connector.Framework.Schemas.MeshExport.{MeshExport}
use substance_3d_connector.Framework.Schemas.ConnectionDetails
use substance_3d_connector.Framework.Schemas.ConnectionDetails.{ConnectionSchema}

-- The details that an application tells, with the version of the core.
unfoldable pub connection_details : {W : Type 0} → List ℕ → Framework W → ConnectionSchema
connection_details version f = record {
  display_name = f.connection_display_name;
  id_name = f.connection_id;
  connector_version = version;
  available_features = f.feature_level;
}

module _ (json : Json) where
  -- `getConnectionContext`
  unfoldable pub get_connection_context : {W : Type 0} → List ℕ → Framework W → json.Text
  unfolding connection_details
  get_connection_context version f =
      ConnectionDetails.get_json_string json (connection_details version f)

  module _ {W : Type 0} (write_message : ℕ → Uuid → json.Text → W → Retcode × W) where
    -- `System::connectionEstablished`
    unfoldable pub connection_established : List ℕ → ℕ → Framework W → Framework W
    unfolding get_connection_context
    connection_established version context f = record f {
      outside =
          (write_message context connection_update_context_id (get_connection_context version f)
            f.outside).1;
    }

    -- `sendRequestMeshConfig`, `sendMeshExportConfig`, `sendLoadMesh` and `sendLoadSbsar` of a text.
    unfoldable pub send_request_mesh_config_text : ℕ → json.Text → W → W
    send_request_mesh_config_text context message w =
        (write_message context request_mesh_config_id message w).1

    unfoldable pub send_mesh_export_config_text : ℕ → json.Text → W → W
    send_mesh_export_config_text context message w =
        (write_message context rec_mesh_config_id message w).1

    unfoldable pub send_load_mesh_text : ℕ → json.Text → W → W
    send_load_mesh_text context message w = (write_message context load_mesh_id message w).1

    unfoldable pub send_load_sbsar_text : ℕ → json.Text → W → W
    send_load_sbsar_text context message w = (write_message context load_sbsar_id message w).1

    -- The same four of a schema.
    unfoldable pub send_request_mesh_config : ℕ → ConfigRequest → W → W
    unfolding send_request_mesh_config_text
    send_request_mesh_config context schema w =
        send_request_mesh_config_text context (ConfigRequest.get_json_string json schema) w

    unfoldable pub send_mesh_export_config : ℕ → MeshExport → W → W
    unfolding send_mesh_export_config_text
    send_mesh_export_config context schema w =
        send_mesh_export_config_text context (MeshExport.get_json_string json schema) w

    unfoldable pub send_load_mesh : ℕ → SendToSchema → W → W
    unfolding send_load_mesh_text
    send_load_mesh context schema w =
        send_load_mesh_text context (SendTo.get_json_string json schema) w

    unfoldable pub send_load_sbsar : ℕ → SendToSchema → W → W
    unfolding send_load_sbsar_text
    send_load_sbsar context schema w =
        send_load_sbsar_text context (SendTo.get_json_string json schema) w
