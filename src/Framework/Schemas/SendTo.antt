-- ===== src/Framework/Schemas/SendTo.antt =====
-- module-cpp/src/framework/schemas/sendtoschema.cpp: where an asset that is sent lies.
use substance_3d_connector.Base.{ℕ, ◌+◌, ◌≡◌, Bool, true, false, List, none, some, length, drop}
use substance_3d_connector.Strings.{memrchr}
use substance_3d_connector.Framework.Json.{Json, IsLawful, IsPlain, Kind, is_ascii}
use substance_3d_connector.Framework.Schemas.Fields.{get_text, same_text, get_text-set}

pub record SendToSchema : Type 0 where
  pub path : List ℕ
  pub name : List ℕ
  pub uuid : List ℕ
  pub type : List ℕ
  pub take_file_ownership : Bool

-- `getPathExtension`: the bytes behind the last dot, or the whole path where there is none.
unfoldable pub get_path_extension : SendToSchema → List ℕ
get_path_extension m = elim (memrchr m.path 46 (length m.path)) [
  | none ↦ m.path
  | some i ↦ drop (i + 1) m.path
]

-- `isPathFileExtension`
unfoldable pub is_path_file_extension : SendToSchema → List ℕ → Bool
unfolding get_path_extension
is_path_file_extension m extension = same_text (get_path_extension m) extension

module _ (json : Json) where
  -- `Serialize`
  unfoldable pub serialize : SendToSchema → json.Value → json.Value
  serialize m root =
      json.set
        (json.set
          (json.set
            (json.set (json.set root "path" (json.of_string m.path)) "name" (json.of_string m.name))
            "uuid" (json.of_string m.uuid))
          "type" (json.of_string m.type))
        "take_file_ownership" (json.of_bool m.take_file_ownership)

  -- `Deserialize` of a value.
  unfoldable pub deserialize : json.Value → SendToSchema
  deserialize root = record {
    path = get_text json root "path";
    name = get_text json root "name";
    uuid = get_text json root "uuid";
    type = get_text json root "type";
    take_file_ownership = json.as_bool (json.get root "take_file_ownership" (json.of_bool false));
  }

  -- `Deserialize` of a text, which leaves the schema as it was where the text is no JSON.
  unfoldable pub deserialize_text : json.Text → SendToSchema → SendToSchema
  unfolding deserialize
  deserialize_text text old = elim (json.parse text) [ none ↦ old | some root ↦ deserialize root ]

  -- `GetJsonString`
  unfoldable pub get_json_string : SendToSchema → json.Text
  unfolding serialize
  get_json_string m = json.write (serialize m json.null)

-- The texts of the asset are ASCII.
pub record HasPlainTexts (m : SendToSchema) : Type 0 where
  pub path : is_ascii m.path ≡ true
  pub name : is_ascii m.name ≡ true
  pub uuid : is_ascii m.uuid ≡ true
  pub type : is_ascii m.type ≡ true

serialize-IsPlain :
    (json : Json) (m : SendToSchema)
    → HasPlainTexts m
    → IsPlain json Kind.object (serialize json m json.null)
unfolding serialize
serialize-IsPlain json m plain =
    IsPlain.member _ _ _
      (IsPlain.member _ _ _
        (IsPlain.member _ _ _
          (IsPlain.member _ _ _
            (IsPlain.member _ _ _ IsPlain.no_members (IsPlain.plain_text m.path plain.path))
            (IsPlain.plain_text m.name plain.name))
          (IsPlain.plain_text m.uuid plain.uuid))
        (IsPlain.plain_text m.type plain.type))
      (IsPlain.truth m.take_file_ownership)

-- What is sent about an asset, its texts being ASCII, is what the other side reads, whatever its
-- schema held before.
pub send_to_roundtrip :
    (json : Json)
    → IsLawful json
    → (m old : SendToSchema) → HasPlainTexts m
    → deserialize_text json (get_json_string json m) old ≡ m
unfolding deserialize_text get_json_string
send_to_roundtrip json laws m old plain =
    rw
      (
        laws.parse-write (serialize json m json.null) (serialize-IsPlain json m plain),
        deserialize_text,
      )
      (simp (get_text-set laws, laws.get-set, laws.as_string-of_string, laws.as_bool-of_bool))
