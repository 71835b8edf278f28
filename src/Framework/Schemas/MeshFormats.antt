-- ===== src/Framework/Schemas/MeshFormats.antt =====
-- The names of the enumerations are read back, and are ASCII.
use substance_3d_connector.Base.{ℕ, ◌≡◌, true, List, some, refl}
use substance_3d_connector.Framework.Json.{is_ascii}
use substance_3d_connector.Framework.Schemas.Fields.{get_key_from_value}
use substance_3d_connector.Framework.Schemas.MeshExport.{
  ColorEncoding, ColorFormat, AxisConvention, LengthUnit, ExportTopology, color_encoding_strings,
  color_encodings, color_format_strings, color_formats, axis_convention_strings, axis_conventions,
  unit_strings, units, export_topology_strings, export_topologies,
}

-- The text of a key is the text of that key only.
abbrev pub ReadsBack : {E : Type 0} → (E → List ℕ) → List E → Type 0
ReadsBack {E} text keys = (e : E) → get_key_from_value text keys (text e) ≡ some e

pub color_encodings-ReadsBack : ReadsBack color_encoding_strings color_encodings
unfolding get_key_from_value color_encoding_strings
color_encodings-ReadsBack ColorEncoding.linear = refl
color_encodings-ReadsBack ColorEncoding.srgb = refl

pub color_formats-ReadsBack : ReadsBack color_format_strings color_formats
unfolding get_key_from_value color_format_strings
color_formats-ReadsBack ColorFormat.ignored = refl
color_formats-ReadsBack ColorFormat.vertex = refl
color_formats-ReadsBack ColorFormat.texture = refl

pub axis_conventions-ReadsBack : ReadsBack axis_convention_strings axis_conventions
unfolding get_key_from_value axis_convention_strings
axis_conventions-ReadsBack AxisConvention.force_y_up_x_right_m_z_forward = refl
axis_conventions-ReadsBack AxisConvention.force_z_up_x_right_y_forward = refl

pub units-ReadsBack : ReadsBack unit_strings units
unfolding get_key_from_value unit_strings
units-ReadsBack LengthUnit.millimeters = refl
units-ReadsBack LengthUnit.centimeters = refl
units-ReadsBack LengthUnit.meters = refl
units-ReadsBack LengthUnit.kilometers = refl
units-ReadsBack LengthUnit.inches = refl
units-ReadsBack LengthUnit.feet = refl
units-ReadsBack LengthUnit.yards = refl
units-ReadsBack LengthUnit.miles = refl

pub export_topologies-ReadsBack : ReadsBack export_topology_strings export_topologies
unfolding get_key_from_value export_topology_strings
export_topologies-ReadsBack ExportTopology.triangles = refl
export_topologies-ReadsBack ExportTopology.quads = refl

-- The texts of the enumerations are ASCII.
abbrev AreAscii : {E : Type 0} → (E → List ℕ) → Type 0
AreAscii {E} text = (e : E) → is_ascii (text e) ≡ true

pub color_encodings-AreAscii : AreAscii color_encoding_strings
unfolding color_encoding_strings
color_encodings-AreAscii ColorEncoding.linear = refl
color_encodings-AreAscii ColorEncoding.srgb = refl

pub color_formats-AreAscii : AreAscii color_format_strings
unfolding color_format_strings
color_formats-AreAscii ColorFormat.ignored = refl
color_formats-AreAscii ColorFormat.vertex = refl
color_formats-AreAscii ColorFormat.texture = refl

pub axis_conventions-AreAscii : AreAscii axis_convention_strings
unfolding axis_convention_strings
axis_conventions-AreAscii AxisConvention.force_y_up_x_right_m_z_forward = refl
axis_conventions-AreAscii AxisConvention.force_z_up_x_right_y_forward = refl

pub units-AreAscii : AreAscii unit_strings
unfolding unit_strings
units-AreAscii LengthUnit.millimeters = refl
units-AreAscii LengthUnit.centimeters = refl
units-AreAscii LengthUnit.meters = refl
units-AreAscii LengthUnit.kilometers = refl
units-AreAscii LengthUnit.inches = refl
units-AreAscii LengthUnit.feet = refl
units-AreAscii LengthUnit.yards = refl
units-AreAscii LengthUnit.miles = refl

pub export_topologies-AreAscii : AreAscii export_topology_strings
unfolding export_topology_strings
export_topologies-AreAscii ExportTopology.triangles = refl
export_topologies-AreAscii ExportTopology.quads = refl
