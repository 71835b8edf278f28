-- ===== src/Framework/Schemas/Tests.antt =====
-- Schemas over the sample of the JSON library.
use substance_3d_connector.Base.{◌≡◌, refl, true, false, [], none, some}
use substance_3d_connector.Framework.Json.Sample.{sample, sample-IsLawful}
use substance_3d_connector.Framework.Schemas.Fields.{codes}
use substance_3d_connector.Framework.Schemas.SendTo.{get_path_extension}
use substance_3d_connector.Framework.Schemas.MeshExport.{
  MeshExport, LengthUnit, deserialize_text, get_json_string,
}
use substance_3d_connector.Framework.Schemas.MeshRoundtrip.{empty, mesh_export_roundtrip}
use substance_3d_connector.Strings.{memrchr}

abbrev settings : MeshExport
settings = record empty {
  asset_name = codes "chair";
  supported_formats = some [];
  unit = some LengthUnit.feet;
  request_uv = some true;
}

mesh_export_test :
    deserialize_text sample (get_json_string sample settings) empty
    ≡ some (record settings { supported_formats = none })
mesh_export_test =
    mesh_export_roundtrip sample sample-IsLawful settings
      (record { asset_name = refl; asset_uuid = refl }) tt

-- What stands behind the last dot, and the whole path where there is none.
extension :
    get_path_extension (record {
      path = codes "/tmp/a.b.sbsar";
      name = [];
      uuid = [];
      type = [];
      take_file_ownership = false;
    })
    ≡ codes "sbsar"
unfolding get_path_extension memrchr
extension = refl
