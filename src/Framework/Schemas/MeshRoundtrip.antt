-- ===== src/Framework/Schemas/MeshRoundtrip.antt =====
-- The settings of an export are read back.
use Prim.Native.String.{String}
use text.Mathlib.Text
use substance_3d_connector.Base.{
  ℕ, ◌≡◌, ◌>>=◌, Bool, true, false, List, [], ◌∷◌, Option, none, some, refl, ap, ◌∙◌,
}
use substance_3d_connector.Framework.Json.{Json, IsLawful, IsPlain, Kind, is_ascii}
use substance_3d_connector.Framework.Schemas.Fields.{
  get_text, get_text-set, get_text-put_ne, read_optional, read_optional-set_ne,
  read_optional-put_ne, put_optional, put_optional-IsPlain, put_text-IsPlain, are_ascii,
  decode_text, decode_bool, decode_key,
}
use substance_3d_connector.Framework.Schemas.Layers.{
  written_back, is_member-put, read_optional-put_if,
}
use substance_3d_connector.Framework.Schemas.MeshExport.{
  FileFormat, MeshExport, put_formats, put_key, read_key, serialize_front, serialize, deserialize,
  deserialize_text, get_json_string, read_supported_formats, append_formats, color_encoding_strings,
  color_encodings, color_format_strings, color_formats, axis_convention_strings, axis_conventions,
  unit_strings, units, export_topology_strings, export_topologies,
}
use substance_3d_connector.Framework.Schemas.MeshFormats.{
  ReadsBack, color_encodings-ReadsBack, color_formats-ReadsBack, axis_conventions-ReadsBack,
  units-ReadsBack, export_topologies-ReadsBack, color_encodings-AreAscii, color_formats-AreAscii,
  axis_conventions-AreAscii, units-AreAscii, export_topologies-AreAscii,
}

-- A schema that holds nothing yet.
abbrev pub empty : MeshExport
empty = record {
  asset_name = [];
  asset_uuid = none;
  supported_formats = none;
  color_format = none;
  color_encoding = none;
  allow_negative_transforms = none;
  allow_instances = none;
  flatten_hierarchy = none;
  axis_convention = none;
  unit = none;
  topology = none;
  request_uv = none;
  enable_udims = none;
}

module _ {json : Json} (laws : IsLawful json) where
  null_read :
      {B : Type 0} (j : String) (decode : json.Value → Option B)
      → read_optional json j decode none json.null ≡ some none
  unfolding read_optional
  null_read j decode = rw (laws.is_member-null j) refl

  key_back :
      {E : Type 0} (text : E → List ℕ) (keys : List E)
      → ReadsBack text keys
      → (e : E)
      → (decode_key json text keys (json.of_string (text e)) >>= λ b. some (some b)) ≡ some (some e)
  key_back text keys back e = rw (laws.as_string-of_string (text e), back e) refl

  text_back :
      (s : List ℕ) → (decode_text json (json.of_string s) >>= λ b. some (some b)) ≡ some (some s)
  text_back s = rw (laws.as_string-of_string s) refl

  bool_back :
      (b : Bool) → (decode_bool json (json.of_bool b) >>= λ c. some (some c)) ≡ some (some b)
  bool_back b = rw (laws.as_bool-of_bool b) refl

module _ {json : Json} (laws : IsLawful json) (m : MeshExport)
    (unset : m.supported_formats ≡ none) where
  -- The object behind the formats, which are not written.
  front_is :
      serialize_front json m json.null
      ≡ put_optional json "assetUuid" json.of_string m.asset_uuid
          (json.set json.null "assetName" (json.of_string m.asset_name))
  unfolding serialize_front
  front_is = rw unset refl

  -- It has none of the later members.
  front_read :
      {B : Type 0} (j : String) (decode : json.Value → Option B)
      → Text.◌==◌ "assetUuid" j ≡ false
      → Text.◌==◌ "assetName" j ≡ false
      → read_optional json j decode none (serialize_front json m json.null) ≡ some none
  front_read j decode e' e'' =
      ap (read_optional json j decode none) front_is
      ∙ read_optional-put_ne laws "assetUuid" j json.of_string m.asset_uuid decode none _ e'
      ∙ read_optional-set_ne laws "assetName" j _ decode none json.null e''
      ∙ null_read laws j decode

  color_format-read :
      read_key json "colorFormat" color_format_strings color_formats none
        (serialize json m json.null)
      ≡ some m.color_format
  unfolding serialize
  color_format-read =
      simp (read_optional-put_if laws, front_read)
        (written_back m.color_format _
          (key_back laws color_format_strings color_formats color_formats-ReadsBack))

  color_encoding-read :
      read_key json "colorEncoding" color_encoding_strings color_encodings none
        (serialize json m json.null)
      ≡ some m.color_encoding
  unfolding serialize
  color_encoding-read =
      simp (read_optional-put_if laws, front_read)
        (written_back m.color_encoding _
          (key_back laws color_encoding_strings color_encodings color_encodings-ReadsBack))

  allow_negative_transforms-read :
      read_optional json "allowNegativeTransforms"
        (decode_bool json)
        none
        (serialize json m json.null)
      ≡ some m.allow_negative_transforms
  unfolding serialize
  allow_negative_transforms-read =
      simp (read_optional-put_if laws, front_read)
        (written_back m.allow_negative_transforms _ (bool_back laws))

  allow_instances-read :
      read_optional json "allowInstances" (decode_bool json) none (serialize json m json.null)
      ≡ some m.allow_instances
  unfolding serialize
  allow_instances-read =
      simp (read_optional-put_if laws, front_read)
        (written_back m.allow_instances _ (bool_back laws))

  flatten_hierarchy-read :
      read_optional json "flattenHierarchy" (decode_bool json) none (serialize json m json.null)
      ≡ some m.flatten_hierarchy
  unfolding serialize
  flatten_hierarchy-read =
      simp (read_optional-put_if laws, front_read)
        (written_back m.flatten_hierarchy _ (bool_back laws))

  axis_convention-read :
      read_key json "axisConvention" axis_convention_strings axis_conventions none
        (serialize json m json.null)
      ≡ some m.axis_convention
  unfolding serialize
  axis_convention-read =
      simp (read_optional-put_if laws, front_read)
        (written_back m.axis_convention _
          (key_back laws axis_convention_strings axis_conventions axis_conventions-ReadsBack))

  unit-read :
      read_key json "unit" unit_strings units none (serialize json m json.null) ≡ some m.unit
  unfolding serialize
  unit-read =
      simp (read_optional-put_if laws, front_read)
        (written_back m.unit _ (key_back laws unit_strings units units-ReadsBack))

  topology-read :
      read_key json "topology" export_topology_strings export_topologies none
        (serialize json m json.null)
      ≡ some m.topology
  unfolding serialize
  topology-read =
      simp (read_optional-put_if laws, front_read)
        (written_back m.topology _
          (key_back laws export_topology_strings export_topologies export_topologies-ReadsBack))

  enable_udims-read :
      read_optional json "enableUdims" (decode_bool json) none (serialize json m json.null)
      ≡ some m.enable_udims
  unfolding serialize
  enable_udims-read =
      simp (read_optional-put_if laws, front_read) (written_back m.enable_udims _ (bool_back laws))

  request_uv-read :
      read_optional json "requestUv" (decode_bool json) none (serialize json m json.null)
      ≡ some m.request_uv
  unfolding serialize
  request_uv-read =
      simp (read_optional-put_if laws, front_read) (written_back m.request_uv _ (bool_back laws))

  asset_uuid-read :
      read_optional json "assetUuid" (decode_text json) none (serialize json m json.null)
      ≡ some m.asset_uuid
  unfolding serialize
  asset_uuid-read =
      simp (read_optional-put_if laws, front_is, read_optional-set_ne laws, null_read laws)
        (written_back m.asset_uuid _ (text_back laws))

  asset_name-read : get_text json (serialize json m json.null) "assetName" ≡ m.asset_name
  unfolding serialize
  asset_name-read =
      simp (get_text-put_ne laws, front_is, get_text-set laws, laws.as_string-of_string)

  absent : json.is_member (serialize json m json.null) "supportedFormats" ≡ false
  unfolding serialize
  absent = simp (is_member-put laws, front_is, laws.is_member-set, laws.is_member-null)

  -- There is no array of formats to read.
  supported_formats-read :
      read_supported_formats json none (serialize json m json.null) ≡ some m.supported_formats
  unfolding read_supported_formats
  supported_formats-read = rw (absent, unset) refl

  deserialize-serialize : deserialize json (serialize json m json.null) empty ≡ some m
  unfolding deserialize
  deserialize-serialize =
      rw
        (
          asset_uuid-read, supported_formats-read, color_format-read, color_encoding-read,
          allow_instances-read, flatten_hierarchy-read, allow_negative_transforms-read, unit-read,
          axis_convention-read, topology-read, enable_udims-read, request_uv-read, asset_name-read,
        )
        refl

-- Neither an unset list of formats nor an empty one is written.
abbrev pub NoFormats : Option (List FileFormat) → Type 0
NoFormats none = Unit
NoFormats (some []) = Unit
NoFormats (some (f ∷ formats)) = ⊥

put_formats-none :
    (json : Json) (o : Option (List FileFormat)) (root : json.Value)
    → NoFormats o
    → put_formats json o root ≡ root
unfolding append_formats
put_formats-none json none root e = refl
put_formats-none json (some []) root e = refl
put_formats-none json (some (f ∷ formats)) root e = absurd e

serialize_front-unset :
    (json : Json) (m : MeshExport) (root : json.Value)
    → NoFormats m.supported_formats
    → serialize_front json m root
      ≡ serialize_front json (record m { supported_formats = none }) root
unfolding serialize_front
serialize_front-unset json m root e = put_formats-none json m.supported_formats _ e

get_json_string-unset :
    (json : Json) (m : MeshExport)
    → NoFormats m.supported_formats
    → get_json_string json m ≡ get_json_string json (record m { supported_formats = none })
unfolding get_json_string serialize
get_json_string-unset json m e =
    rw (serialize_front-unset json m json.null e, get_json_string, serialize) refl

-- The texts of the asset are ASCII.
pub record HasPlainTexts (m : MeshExport) : Type 0 where
  pub asset_name : is_ascii m.asset_name ≡ true
  pub asset_uuid : are_ascii m.asset_uuid ≡ true

module _ {json : Json} where
  put_bool-IsPlain :
      (key : String) (o : Option Bool) (root : json.Value)
      → IsPlain json Kind.object root
      → IsPlain json Kind.object (put_optional json key json.of_bool o root)
  put_bool-IsPlain key o root = put_optional-IsPlain key json.of_bool o root IsPlain.truth

  put_key-IsPlain :
      {E : Type 0} (key : String) (text : E → List ℕ) (o : Option E) (root : json.Value)
      → ((e : E) → is_ascii (text e) ≡ true)
      → IsPlain json Kind.object root
      → IsPlain json Kind.object (put_key json key text o root)
  put_key-IsPlain key text o root ascii =
      put_optional-IsPlain key (λ e. json.of_string (text e)) o root
        (λ e. IsPlain.plain_text (text e) (ascii e))

serialize-IsPlain :
    (json : Json) (m : MeshExport)
    → HasPlainTexts m
    → m.supported_formats ≡ none
    → IsPlain json Kind.object (serialize json m json.null)
unfolding serialize serialize_front
serialize-IsPlain json m plain unset = put_bool-IsPlain _ _ _ (
    put_bool-IsPlain _ _ _ (
      put_key-IsPlain _ _ _ _ export_topologies-AreAscii (
        put_key-IsPlain _ _ _ _ units-AreAscii (
          put_key-IsPlain _ _ _ _ axis_conventions-AreAscii (
            put_bool-IsPlain _ _ _ (
              put_bool-IsPlain _ _ _ (
                put_bool-IsPlain _ _ _ (
                  put_key-IsPlain _ _ _ _ color_encodings-AreAscii (
                    put_key-IsPlain _ _ _ _ color_formats-AreAscii (
                      rw unset (
                        put_text-IsPlain _ _ _ plain.asset_uuid (
                          IsPlain.member _ _ _ IsPlain.no_members
                            (IsPlain.plain_text m.asset_name plain.asset_name)))))))))))))

unset_roundtrip :
    (json : Json)
    → IsLawful json
    → (m : MeshExport) → HasPlainTexts m
    → m.supported_formats ≡ none
    → deserialize_text json (get_json_string json m) empty ≡ some m
unfolding deserialize_text get_json_string
unset_roundtrip json laws m plain unset =
    rw
      (
        laws.parse-write (serialize json m json.null) (serialize-IsPlain json m plain unset),
        deserialize_text,
      )
      (deserialize-serialize laws m unset)

-- The settings of an export without formats that are sent are what a schema without values reads:
-- every enumeration comes back from its text, and every value that was not set stays unset; a list of
-- formats that is set and empty comes back as one that is not set. The texts of the asset are ASCII.
pub mesh_export_roundtrip :
    (json : Json)
    → IsLawful json
    → (m : MeshExport) → HasPlainTexts m
    → NoFormats m.supported_formats
    → deserialize_text json (get_json_string json m) empty
      ≡ some (record m { supported_formats = none })
mesh_export_roundtrip json laws m plain e = rw (get_json_string-unset json m e) (
    unset_roundtrip json laws (record m { supported_formats = none })
      (record { asset_name = plain.asset_name; asset_uuid = plain.asset_uuid }) refl)
