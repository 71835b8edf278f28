-- ===== src/Framework/Schemas/ConnectionDetails.antt =====
-- module-cpp/src/framework/schemas/connectionschema.cpp: what an application tells about itself.
use mathlib.Core.List.{map}
use substance_3d_connector.Base.{
  ℕ, ◌≡◌, refl, ap, ap₂, sym, ◌∙◌, List, [], ◌∷◌, ◌++◌, none, some, true, append_nil,
}
use mathlib.Core.List.{append_assoc}
use substance_3d_connector.Uuid.{Uuid}
use substance_3d_connector.Framework.Uuids.{uuid_to_string, uuid_from_string}
use substance_3d_connector.Framework.Uuids.Texts.{Fits32, uuid_string_roundtrip}
use substance_3d_connector.Framework.Json.{Json, IsLawful, IsPlain, Kind, is_ascii}
use substance_3d_connector.Framework.Schemas.Ascii.{uuid_to_string-is_ascii}
use substance_3d_connector.Framework.Schemas.Fields.{get_text, get_text-set}

pub record ConnectionSchema : Type 0 where
  pub display_name : List ℕ
  pub id_name : List ℕ
  pub connector_version : List ℕ
  pub available_features : List Uuid

module _ (json : Json) where
  -- The loop of `Serialize` over the features.
  unfoldable pub append_features : List Uuid → json.Value → json.Value
  append_features [] v = v
  append_features (u ∷ features) v =
      append_features features (json.append v (json.of_string (uuid_to_string u)))

  -- `Serialize`
  unfoldable pub serialize : ConnectionSchema → json.Value → json.Value
  serialize m root =
      json.set
        (json.set
          (json.set (json.set root "display_name" (json.of_string m.display_name)) "id_name"
            (json.of_string m.id_name))
          "connector_version" (json.of_string m.connector_version))
        "available_features" (append_features m.available_features json.null)

  -- `Deserialize` of a value.
  unfoldable pub deserialize : json.Value → ConnectionSchema
  deserialize root = record {
    display_name = get_text json root "display_name";
    id_name = get_text json root "id_name";
    connector_version = get_text json root "connector_version";
    available_features =
        map (λ v. uuid_from_string (json.as_string v))
          (json.elements (json.get root "available_features" json.null));
  }

  -- `Deserialize` of a text, which leaves the schema as it was where the text is no JSON.
  unfoldable pub deserialize_text : json.Text → ConnectionSchema → ConnectionSchema
  unfolding deserialize
  deserialize_text text old = elim (json.parse text) [ none ↦ old | some root ↦ deserialize root ]

  -- `GetJsonString`
  unfoldable pub get_json_string : ConnectionSchema → json.Text
  unfolding serialize
  get_json_string m = json.write (serialize m json.null)

-- The elements of all identifiers are 32-bit values.
abbrev pub AllFit32 : List Uuid → Type 0
AllFit32 [] = Unit
AllFit32 (u ∷ us) = Fits32 u × AllFit32 us

module _ {json : Json} (laws : IsLawful json) where
  append_features-elements :
      (us : List Uuid) (v : json.Value)
      → json.elements (append_features json us v)
        ≡ json.elements v ++ map (λ u. json.of_string (uuid_to_string u)) us
  unfolding append_features
  append_features-elements [] v = sym (append_nil _)
  append_features-elements (u ∷ us) v =
      append_features-elements us _
      ∙ rw (laws.elements-append v (json.of_string (uuid_to_string u)))
          (append_assoc _ (json.of_string (uuid_to_string u) ∷ []) _)

  features-back :
      (us : List Uuid)
      → AllFit32 us
      → map
          (λ v. uuid_from_string (json.as_string v))
          (map (λ u. json.of_string (uuid_to_string u)) us)
        ≡ us
  features-back [] fit = refl
  features-back (u ∷ us) (fit, fits) =
      ap₂ (λ x xs. x ∷ xs)
        (ap uuid_from_string (laws.as_string-of_string (uuid_to_string u))
          ∙ uuid_string_roundtrip u fit)
        (features-back us fits)

  features-read :
      (us : List Uuid)
      → AllFit32 us
      → map
          (λ v. uuid_from_string (json.as_string v))
          (json.elements (append_features json us json.null))
        ≡ us
  features-read us fits =
      ap (map (λ v. uuid_from_string (json.as_string v))) (
        append_features-elements us json.null
        ∙ ap (λ l. l ++ map (λ u. json.of_string (uuid_to_string u)) us) laws.elements-null)
      ∙ features-back us fits

-- The names and the version are ASCII.
pub record HasPlainTexts (m : ConnectionSchema) : Type 0 where
  pub display_name : is_ascii m.display_name ≡ true
  pub id_name : is_ascii m.id_name ≡ true
  pub connector_version : is_ascii m.connector_version ≡ true

append_features-IsPlain :
    (json : Json) (us : List Uuid) (v : json.Value)
    → IsPlain json Kind.array v
    → IsPlain json Kind.array (append_features json us v)
unfolding append_features
append_features-IsPlain json [] v plain = plain
append_features-IsPlain json (u ∷ us) v plain =
    append_features-IsPlain json us _ (
      IsPlain.element v _ plain (IsPlain.plain_text (uuid_to_string u) (uuid_to_string-is_ascii u)))

serialize-IsPlain :
    (json : Json) (m : ConnectionSchema)
    → HasPlainTexts m
    → IsPlain json Kind.object (serialize json m json.null)
unfolding serialize
serialize-IsPlain json m plain =
    IsPlain.member _ _ _
      (IsPlain.member _ _ _
        (IsPlain.member _ _ _
          (IsPlain.member _ _ _ IsPlain.no_members
            (IsPlain.plain_text m.display_name plain.display_name))
          (IsPlain.plain_text m.id_name plain.id_name))
        (IsPlain.plain_text m.connector_version plain.connector_version))
      (append_features-IsPlain json m.available_features json.null IsPlain.no_elements)

-- What an application tells about itself is what the other side reads, names, version and features in
-- their order, whatever its schema held before. The elements of the identifiers are 32-bit values, and
-- the names and the version are ASCII.
pub connection_roundtrip :
    (json : Json)
    → IsLawful json
    → (m old : ConnectionSchema) → HasPlainTexts m
    → AllFit32 m.available_features
    → deserialize_text json (get_json_string json m) old ≡ m
unfolding deserialize_text get_json_string
connection_roundtrip json laws m old plain fits =
    rw
      (
        laws.parse-write (serialize json m json.null) (serialize-IsPlain json m plain),
        deserialize_text,
      )
      (simp (get_text-set laws, laws.get-set, laws.as_string-of_string)
        (ap (λ us. record m { available_features = us })
          (features-read laws m.available_features fits)))
