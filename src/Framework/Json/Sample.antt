-- ===== src/Framework/Json/Sample.antt =====
-- A small library of JSON values that meets what the schemas rely on; a text is the value itself.
use Prim.Native.String.{String}
use text.Mathlib.Text.{◌==◌}
use substance_3d_connector.Base.{
  ℕ, refl, if◌then◌else◌, Bool, true, false, List, [], ◌∷◌, ◌++◌, some, length, get_or,
}
use substance_3d_connector.Framework.Json.{Json, IsLawful}

pub data Value : Type 0 where
  null : Value
  string : List ℕ → Value
  truth : Bool → Value
  snoc : Value → Value → Value
  member : Value → String → Value → Value

abbrev text_of : Value → List ℕ
text_of (Value.string s) = s
text_of _ = []

abbrev truth_of : Value → Bool
truth_of (Value.truth b) = b
truth_of _ = false

abbrev find : Value → String → Value → Value
find (Value.member v k x) j d = if k == j then x else find v j d
find _ j d = d

abbrev has : Value → String → Bool
has (Value.member v k x) j = if k == j then true else has v j
has _ j = false

abbrev items : Value → List Value
items (Value.snoc v x) = items v ++ (x ∷ [])
items _ = []

abbrev pub sample : Json
sample = record {
  Value = Value;
  Text = Value;
  null = Value.null;
  of_string = Value.string;
  as_string = text_of;
  of_bool = Value.truth;
  as_bool = truth_of;
  set = Value.member;
  get = find;
  is_member = has;
  append = Value.snoc;
  elements = items;
  at = λ v i. get_or (items v) i Value.null;
  end_index = λ v. length (items v);
  write = λ v. v;
  parse = some;
}

pub sample-IsLawful : IsLawful sample
sample-IsLawful = record {
  as_string-of_string = λ s. refl;
  as_bool-of_bool = λ b. refl;
  get-null = λ k d. refl;
  get-set = λ root v d k j. refl;
  is_member-null = λ k. refl;
  is_member-set = λ root v k j. refl;
  elements-null = refl;
  elements-append = λ v x. refl;
  at-elements = λ v i. refl;
  parse-write = λ v plain. refl;
}
