-- ===== src/Framework/Json.antt =====
-- The JSON library that the schemas of module-cpp/src/framework/schemas call, as a parameter: its
-- values and texts, the calls of them, and what they rely on.
pub mod Sample
use Prim.Native.String.{String}
use text.Mathlib.Text.{◌==◌}
use substance_3d_connector.Base.{
  ℕ, ltb, ◌≡◌, if◌then◌else◌, Bool, true, false, List, [], ◌∷◌, ◌++◌, Option, some, get_or, ◌&&◌,
}

pub record Json : Type 1 where
  pub Value : Type 0
  pub Text : Type 0
  pub null : Value
  pub of_string : List ℕ → Value
  pub as_string : Value → List ℕ
  pub of_bool : Bool → Value
  pub as_bool : Value → Bool
  -- `root[key] = v`, `root.get(key, v)`, `root.isMember(key)`
  pub set : Value → String → Value → Value
  pub get : Value → String → Value → Value
  pub is_member : Value → String → Bool
  -- `v.append(x)`, the values from `begin()` to `end()`, `v[index]`, `end().index()`
  pub append : Value → Value → Value
  pub elements : Value → List Value
  pub at : Value → ℕ → Value
  pub end_index : Value → ℕ
  -- `writeString` without indentation, and a reader's `parse`
  pub write : Value → Text
  pub parse : Text → Option Value

-- Whether every byte of a text is an ASCII character other than zero.
abbrev pub is_ascii : List ℕ → Bool
is_ascii [] = true
is_ascii (b ∷ bytes) = ltb 0 b && ltb b 128 && is_ascii bytes

-- A null value counts as an object without members and as an array without elements.
pub data Kind : Type 0 where
  scalar object array : Kind

-- The values that are built from texts of ASCII characters and truth values, as arrays and objects.
pub data IsPlain (json : Json) : Kind → json.Value → Type 0 where
  plain_text : (s : List ℕ) → is_ascii s ≡ true → IsPlain json Kind.scalar (json.of_string s)
  truth : (b : Bool) → IsPlain json Kind.scalar (json.of_bool b)
  no_elements : IsPlain json Kind.array json.null
  element :
      {k : Kind} (v x : json.Value)
      → IsPlain json Kind.array v
      → IsPlain json k x
      → IsPlain json Kind.array (json.append v x)
  no_members : IsPlain json Kind.object json.null
  member :
      {k : Kind} (root v : json.Value) (key : String)
      → IsPlain json Kind.object root
      → IsPlain json k v
      → IsPlain json Kind.object (json.set root key v)

-- What the schemas rely on. What is written is read back for the plain values only.
pub record IsLawful (json : Json) : Type 0 where
  pub as_string-of_string : (s : List ℕ) → json.as_string (json.of_string s) ≡ s
  pub as_bool-of_bool : (b : Bool) → json.as_bool (json.of_bool b) ≡ b
  pub get-null : (k : String) (d : json.Value) → json.get json.null k d ≡ d
  pub get-set :
      (root v d : json.Value) (k j : String)
      → json.get (json.set root k v) j d ≡ (if k == j then v else json.get root j d)
  pub is_member-null : (k : String) → json.is_member json.null k ≡ false
  pub is_member-set :
      (root v : json.Value) (k j : String)
      → json.is_member (json.set root k v) j ≡ (if k == j then true else json.is_member root j)
  pub elements-null : json.elements json.null ≡ []
  pub elements-append :
      (v x : json.Value) → json.elements (json.append v x) ≡ json.elements v ++ (x ∷ [])
  pub at-elements : (v : json.Value) (i : ℕ) → json.at v i ≡ get_or (json.elements v) i json.null
  pub parse-write :
      {k : Kind} (v : json.Value) → IsPlain json k v → json.parse (json.write v) ≡ some v
