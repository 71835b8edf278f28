-- ===== src/Framework/Schemas/ConfigRequest.antt =====
-- `send_mesh_config_request_schema` of module-cpp/src/framework/schemas/sendmeshschema.cpp: a request
-- for the settings of an export.
use substance_3d_connector.Base.{ℕ, ◌≡◌, refl, ◌∙◌, ◌>>=◌, true, List, Option, none, some}
use substance_3d_connector.Framework.Json.{Json, IsLawful, IsPlain, Kind, is_ascii}
use substance_3d_connector.Framework.Schemas.Fields.{
  get_text, get_text-set, put_optional, read_optional, read_optional-put, decode_text,
  get_text-put_ne, decode_text-of_string, is_member-set_ne, are_ascii, put_text-IsPlain,
}

pub record ConfigRequest : Type 0 where
  pub asset_name : List ℕ
  pub asset_uuid : Option (List ℕ)

module _ (json : Json) where
  -- `Serialize`
  unfoldable pub serialize : ConfigRequest → json.Value → json.Value
  serialize m root =
      put_optional json "assetUuid" json.of_string m.asset_uuid
        (json.set root "assetName" (json.of_string m.asset_name))

  -- `Deserialize` of a value, into a schema that may hold an identifier.
  unfoldable pub deserialize : json.Value → ConfigRequest → Option ConfigRequest
  deserialize root old = do
    asset_uuid ← read_optional json "assetUuid" (decode_text json) old.asset_uuid root
    some (record { asset_name = get_text json root "assetName"; asset_uuid = asset_uuid })

  -- `Deserialize` of a text, which leaves the schema as it was where the text is no JSON.
  unfoldable pub deserialize_text : json.Text → ConfigRequest → Option ConfigRequest
  unfolding deserialize
  deserialize_text text old = elim (json.parse text) [
    | none ↦ some old
    | some root ↦ deserialize root old
  ]

  -- `GetJsonString`
  unfoldable pub get_json_string : ConfigRequest → json.Text
  unfolding serialize
  get_json_string m = json.write (serialize m json.null)

deserialize-serialize :
    (json : Json)
    → IsLawful json
    → (m : ConfigRequest) (name : List ℕ)
    → deserialize json
        (serialize json m json.null)
        (record { asset_name = name; asset_uuid = none })
      ≡ some m
unfolding deserialize serialize
deserialize-serialize json laws m name =
    let named = json.set json.null "assetName" (json.of_string m.asset_name) in
    rw
      (
        read_optional-put laws "assetUuid" json.of_string m.asset_uuid (decode_text json) named
            (decode_text-of_string laws)
            (is_member-set_ne laws json.null _ "assetName" "assetUuid" refl
              ∙ laws.is_member-null _),
        get_text-put_ne laws "assetUuid" "assetName" json.of_string m.asset_uuid named refl,
        get_text-set laws json.null (json.of_string m.asset_name) "assetName" "assetName",
        laws.as_string-of_string m.asset_name,
      )
      refl

serialize-IsPlain :
    (json : Json) (m : ConfigRequest)
    → is_ascii m.asset_name ≡ true
    → are_ascii m.asset_uuid ≡ true
    → IsPlain json Kind.object (serialize json m json.null)
unfolding serialize
serialize-IsPlain json m name uuid =
    put_text-IsPlain "assetUuid" m.asset_uuid _ uuid
      (IsPlain.member json.null _ _ IsPlain.no_members (IsPlain.plain_text m.asset_name name))

-- A request whose texts are ASCII is read back by a schema that has no identifier.
pub config_request_roundtrip :
    (json : Json)
    → IsLawful json
    → (m : ConfigRequest) (name : List ℕ) → is_ascii m.asset_name ≡ true
    → are_ascii m.asset_uuid ≡ true
    → deserialize_text json
        (get_json_string json m)
        (record { asset_name = name; asset_uuid = none })
      ≡ some m
unfolding deserialize_text get_json_string
config_request_roundtrip json laws m name ascii ascii' =
    rw
      (
        laws.parse-write (serialize json m json.null) (serialize-IsPlain json m ascii ascii'),
        deserialize_text,
      )
      (deserialize-serialize json laws m name)
