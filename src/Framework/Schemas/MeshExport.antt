-- ===== src/Framework/Schemas/MeshExport.antt =====
-- `mesh_export_schema` of module-cpp/src/framework/schemas/sendmeshschema.cpp: the settings of an
-- export, whose values are optional. `none` stands for a read behind the end of a container.
use Prim.Native.String.{String}
use substance_3d_connector.Base.{
  ℕ, zero, suc, ◌+◌, ltb, ◌>>=◌, if◌then◌else◌, Bool, List, [], ◌∷◌, Option, none, some, length,
}
use substance_3d_connector.Framework.Json.{Json}
use substance_3d_connector.Framework.Schemas.Fields.{
  codes, get_key_from_value, get_text, put_optional, read_optional, decode_text, decode_bool,
  decode_key,
}

pub data ColorEncoding : Type 0 where
  linear srgb : ColorEncoding

pub data ColorFormat : Type 0 where
  ignored vertex texture : ColorFormat

pub data FileFormat : Type 0 where
  fbx glb gltf igs jt obj step stl stp usd usda usdz usdc : FileFormat

pub data AxisConvention : Type 0 where
  force_y_up_x_right_m_z_forward force_z_up_x_right_y_forward : AxisConvention

pub data LengthUnit : Type 0 where
  millimeters centimeters meters kilometers inches feet yards miles : LengthUnit

pub data ExportTopology : Type 0 where
  triangles quads : ExportTopology

-- The maps of the enumerations to texts, and their keys in order.
unfoldable pub color_encoding_strings : ColorEncoding → List ℕ
color_encoding_strings ColorEncoding.linear = codes "Linear"
color_encoding_strings ColorEncoding.srgb = codes "SRGB"

abbrev pub color_encodings : List ColorEncoding
color_encodings = ColorEncoding.linear ∷ ColorEncoding.srgb ∷ []

unfoldable pub color_format_strings : ColorFormat → List ℕ
color_format_strings ColorFormat.ignored = codes "None"
color_format_strings ColorFormat.vertex = codes "Vertex"
color_format_strings ColorFormat.texture = codes "Texture"

abbrev pub color_formats : List ColorFormat
color_formats = ColorFormat.ignored ∷ ColorFormat.vertex ∷ ColorFormat.texture ∷ []

unfoldable pub file_format_strings : FileFormat → List ℕ
file_format_strings FileFormat.fbx = codes "fbx"
file_format_strings FileFormat.glb = codes "glb"
file_format_strings FileFormat.gltf = codes "gltf"
file_format_strings FileFormat.igs = codes "igs"
file_format_strings FileFormat.jt = codes "jt"
file_format_strings FileFormat.obj = codes "obj"
file_format_strings FileFormat.step = codes "step"
file_format_strings FileFormat.stl = codes "stl"
file_format_strings FileFormat.stp = codes "stp"
file_format_strings FileFormat.usd = codes "usd"
file_format_strings FileFormat.usda = codes "usda"
file_format_strings FileFormat.usdz = codes "usdz"
file_format_strings FileFormat.usdc = codes "usdc"

abbrev pub file_formats : List FileFormat
file_formats =
    FileFormat.fbx ∷ FileFormat.glb ∷ FileFormat.gltf ∷ FileFormat.igs ∷ FileFormat.jt
    ∷ FileFormat.obj ∷ FileFormat.step ∷ FileFormat.stl ∷ FileFormat.stp ∷ FileFormat.usd
    ∷ FileFormat.usda ∷ FileFormat.usdz ∷ FileFormat.usdc ∷ []

unfoldable pub axis_convention_strings : AxisConvention → List ℕ
axis_convention_strings AxisConvention.force_y_up_x_right_m_z_forward =
    codes "ForceYUp_XRight_mZForward"
axis_convention_strings AxisConvention.force_z_up_x_right_y_forward =
    codes "ForceZUp_XRight_YForward"

abbrev pub axis_conventions : List AxisConvention
axis_conventions =
    AxisConvention.force_y_up_x_right_m_z_forward ∷ AxisConvention.force_z_up_x_right_y_forward ∷ []

unfoldable pub unit_strings : LengthUnit → List ℕ
unit_strings LengthUnit.millimeters = codes "Millimeters"
unit_strings LengthUnit.centimeters = codes "Centimeters"
unit_strings LengthUnit.meters = codes "Meters"
unit_strings LengthUnit.kilometers = codes "Kilometers"
unit_strings LengthUnit.inches = codes "Inches"
unit_strings LengthUnit.feet = codes "Feet"
unit_strings LengthUnit.yards = codes "Yards"
unit_strings LengthUnit.miles = codes "Miles"

abbrev pub units : List LengthUnit
units =
    LengthUnit.millimeters ∷ LengthUnit.centimeters ∷ LengthUnit.meters ∷ LengthUnit.kilometers
    ∷ LengthUnit.inches ∷ LengthUnit.feet ∷ LengthUnit.yards ∷ LengthUnit.miles ∷ []

unfoldable pub export_topology_strings : ExportTopology → List ℕ
export_topology_strings ExportTopology.triangles = codes "Triangles"
export_topology_strings ExportTopology.quads = codes "Quads"

abbrev pub export_topologies : List ExportTopology
export_topologies = ExportTopology.triangles ∷ ExportTopology.quads ∷ []

pub record MeshExport : Type 0 where
  pub asset_name : List ℕ
  pub asset_uuid : Option (List ℕ)
  pub supported_formats : Option (List FileFormat)
  pub color_format : Option ColorFormat
  pub color_encoding : Option ColorEncoding
  pub allow_negative_transforms : Option Bool
  pub allow_instances : Option Bool
  pub flatten_hierarchy : Option Bool
  pub axis_convention : Option AxisConvention
  pub unit : Option LengthUnit
  pub topology : Option ExportTopology
  pub request_uv : Option Bool
  pub enable_udims : Option Bool

module _ (json : Json) where
  -- The loop of `Serialize` over the formats: `root["supportedFormats"].append(...)`.
  unfoldable pub append_formats : List FileFormat → json.Value → json.Value
  append_formats [] root = root
  append_formats (f ∷ formats) root = append_formats formats (
      json.set root "supportedFormats" (
        json.append (json.get root "supportedFormats" json.null)
          (json.of_string (file_format_strings f))))

  abbrev pub put_formats : Option (List FileFormat) → json.Value → json.Value
  put_formats none root = root
  put_formats (some formats) root = append_formats formats root

  abbrev pub put_key : {E : Type 0} → String → (E → List ℕ) → Option E → json.Value → json.Value
  put_key key text = put_optional json key (λ e. json.of_string (text e))

  -- `Serialize`: its first part, and all of it.
  unfoldable pub serialize_front : MeshExport → json.Value → json.Value
  unfolding append_formats
  serialize_front m root = put_formats m.supported_formats (
      put_optional json "assetUuid" json.of_string m.asset_uuid
        (json.set root "assetName" (json.of_string m.asset_name)))

  unfoldable pub serialize : MeshExport → json.Value → json.Value
  serialize m root = put_optional json "requestUv" json.of_bool m.request_uv (
      put_optional json "enableUdims" json.of_bool m.enable_udims (
        put_key "topology" export_topology_strings m.topology (
          put_key "unit" unit_strings m.unit (
            put_key "axisConvention" axis_convention_strings m.axis_convention (
              put_optional json "flattenHierarchy" json.of_bool m.flatten_hierarchy (
                put_optional json "allowInstances" json.of_bool m.allow_instances (
                  put_optional json "allowNegativeTransforms" json.of_bool
                    m.allow_negative_transforms
                    (put_key "colorEncoding" color_encoding_strings m.color_encoding (
                      put_key "colorFormat" color_format_strings m.color_format
                        (serialize_front m root))))))))))

  -- The loop of `Deserialize` over the formats, from an index on for the rounds that are left.
  unfoldable pub read_formats : ℕ → ℕ → json.Value → Option (List FileFormat)
  read_formats zero index formats_array = some []
  read_formats (suc rounds) index formats_array = do
    f ←
        get_key_from_value file_format_strings file_formats
          (json.as_string (json.at formats_array index))
    fs ← read_formats rounds (index + 1) formats_array
    some (f ∷ fs)

  -- The test of the first value, and the loop.
  unfoldable pub read_array :
      List json.Value → json.Value → Option (List FileFormat) → Option (Option (List FileFormat))
  unfolding read_formats
  read_array [] formats_array old = none
  read_array (first ∷ more) formats_array old =
      if ltb 0 (length (json.as_string first))
      then (read_formats (json.end_index formats_array + 1) 0 formats_array >>= λ fs.
          some (some fs))
      else some old

  unfoldable pub read_supported_formats :
      Option (List FileFormat) → json.Value → Option (Option (List FileFormat))
  unfolding read_array
  read_supported_formats old root =
      let formats_array = json.get root "supportedFormats" json.null in
      if json.is_member root "supportedFormats"
      then read_array (json.elements formats_array) formats_array old
      else some old

  abbrev pub read_key :
      {E : Type 0} → String → (E → List ℕ) → List E → Option E → json.Value → Option (Option E)
  read_key key text keys = read_optional json key (decode_key json text keys)

  -- `Deserialize` of a value, into a schema that may hold values.
  unfoldable pub deserialize : json.Value → MeshExport → Option MeshExport
  deserialize root old = do
    asset_uuid ← read_optional json "assetUuid" (decode_text json) old.asset_uuid root
    supported_formats ← read_supported_formats old.supported_formats root
    color_format ← read_key "colorFormat" color_format_strings color_formats old.color_format root
    color_encoding ←
        read_key "colorEncoding" color_encoding_strings color_encodings old.color_encoding root
    allow_instances ←
        read_optional json "allowInstances" (decode_bool json) old.allow_instances root
    flatten_hierarchy ←
        read_optional json "flattenHierarchy" (decode_bool json) old.flatten_hierarchy root
    allow_negative_transforms ←
        read_optional json "allowNegativeTransforms" (decode_bool json)
          old.allow_negative_transforms root
    unit ← read_key "unit" unit_strings units old.unit root
    axis_convention ←
        read_key "axisConvention" axis_convention_strings axis_conventions old.axis_convention root
    topology ← read_key "topology" export_topology_strings export_topologies old.topology root
    enable_udims ← read_optional json "enableUdims" (decode_bool json) old.enable_udims root
    request_uv ← read_optional json "requestUv" (decode_bool json) old.request_uv root
    some (record {
      asset_name = get_text json root "assetName";
      asset_uuid = asset_uuid;
      supported_formats = supported_formats;
      color_format = color_format;
      color_encoding = color_encoding;
      allow_negative_transforms = allow_negative_transforms;
      allow_instances = allow_instances;
      flatten_hierarchy = flatten_hierarchy;
      axis_convention = axis_convention;
      unit = unit;
      topology = topology;
      request_uv = request_uv;
      enable_udims = enable_udims;
    })

  -- `Deserialize` of a text, which leaves the schema as it was where the text is no JSON.
  unfoldable pub deserialize_text : json.Text → MeshExport → Option MeshExport
  unfolding deserialize
  deserialize_text text old = elim (json.parse text) [
    | none ↦ some old
    | some root ↦ deserialize root old
  ]

  -- `GetJsonString`
  unfoldable pub get_json_string : MeshExport → json.Text
  unfolding serialize
  get_json_string m = json.write (serialize m json.null)
