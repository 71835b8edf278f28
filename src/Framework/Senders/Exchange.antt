-- ===== src/Framework/Senders/Exchange.antt =====
-- What one application sends is what the other reads.
use substance_3d_connector.Retcode.{Retcode}
use substance_3d_connector.Uuid.{Uuid}
use substance_3d_connector.Framework.Core.{Framework}
use substance_3d_connector.Framework.Json.{Json}
use substance_3d_connector.Framework.Schemas.SendTo
use substance_3d_connector.Framework.Schemas.ConfigRequest
use substance_3d_connector.Framework.Schemas.ConfigRequest.{ConfigRequest}
use substance_3d_connector.Framework.Schemas.MeshExport
use substance_3d_connector.Framework.Schemas.MeshExport.{MeshExport}
use substance_3d_connector.Framework.Schemas.MeshRoundtrip
use substance_3d_connector.Framework.Schemas.ConnectionDetails
