-- ===== src/Framework/Schemas/Fields.antt =====
-- The fields of schemas: texts, optional values and the names of enumerations, in a JSON object.
use Prim.Native.String.{String}
use text.Mathlib.Text
use text.Mathlib.TextPositions.{eq_refl}
pub use substance_3d_connector.Base.{codes, same_text}
use substance_3d_connector.Base.{
  ℕ, ◌≡◌, ◌>>=◌, if◌then◌else◌, Bool, true, false, List, [], ◌∷◌, Option, none, some, refl, ap, ◌∙◌,
}
use substance_3d_connector.Framework.Json.{Json, IsLawful, IsPlain, Kind, is_ascii}

-- `getKeyFromValue`, for the keys of a map in their order and the text of each; `none` where no key
-- has the text and the end of the map is read.
unfoldable pub get_key_from_value : {E : Type 0} → (E → List ℕ) → List E → List ℕ → Option E
get_key_from_value text [] value = none
get_key_from_value text (e ∷ keys) value =
    if same_text (text e) value then some e else get_key_from_value text keys value

module _ (json : Json) where
  -- `root.get(key, "").asString()`
  abbrev pub get_text : json.Value → String → List ℕ
  get_text root key = json.as_string (json.get root key (json.of_string []))

  -- An optional member is written where it has a value.
  unfoldable pub put_optional :
      {A : Type 0} → String → (A → json.Value) → Option A → json.Value → json.Value
  put_optional key encode none root = root
  put_optional key encode (some a) root = json.set root key (encode a)

  -- An optional member is read where the object has it, and else left as it was.
  unfoldable pub read_optional :
      {A : Type 0} → String → (json.Value → Option A) → Option A → json.Value → Option (Option A)
  read_optional key decode old root =
      if json.is_member root key
      then (decode (json.get root key (json.of_string [])) >>= λ a. some (some a))
      else some old

  abbrev pub decode_text : json.Value → Option (List ℕ)
  decode_text v = some (json.as_string v)

  abbrev pub decode_bool : json.Value → Option Bool
  decode_bool v = some (json.as_bool v)

  abbrev pub decode_key : {E : Type 0} → (E → List ℕ) → List E → json.Value → Option E
  decode_key text keys v = get_key_from_value text keys (json.as_string v)

-- An optional text is ASCII where it is there.
abbrev pub are_ascii : Option (List ℕ) → Bool
are_ascii none = true
are_ascii (some s) = is_ascii s

module _ {json : Json} where
  pub put_optional-IsPlain :
      {A : Type 0} {k : Kind} (key : String) (encode : A → json.Value) (o : Option A)
      (root : json.Value)
      → ((a : A) → IsPlain json k (encode a))
      → IsPlain json Kind.object root
      → IsPlain json Kind.object (put_optional json key encode o root)
  unfolding put_optional
  put_optional-IsPlain key encode none root each plain = plain
  put_optional-IsPlain key encode (some a) root each plain =
      IsPlain.member root (encode a) key plain (each a)

  pub put_text-IsPlain :
      (key : String) (o : Option (List ℕ)) (root : json.Value)
      → are_ascii o ≡ true
      → IsPlain json Kind.object root
      → IsPlain json Kind.object (put_optional json key json.of_string o root)
  unfolding put_optional
  put_text-IsPlain key none root ascii plain = plain
  put_text-IsPlain key (some s) root ascii plain =
      IsPlain.member root (json.of_string s) key plain (IsPlain.plain_text s ascii)

-- What is read behind a write.
module _ {json : Json} (laws : IsLawful json) where
  -- Members of other names are passed over.
  pub read_optional-put_ne :
      {A B : Type 0} (k j : String) (encode : A → json.Value) (o : Option A)
      (decode : json.Value → Option B) (old : Option B) (root : json.Value)
      → Text.◌==◌ k j ≡ false
      → read_optional json j decode old (put_optional json k encode o root)
        ≡ read_optional json j decode old root
  unfolding read_optional put_optional
  read_optional-put_ne k j encode none decode old root e = refl
  read_optional-put_ne k j encode (some a) decode old root e =
      rw
        (
          laws.is_member-set root (encode a) k j,
          laws.get-set root (encode a) (json.of_string []) k j,
          e,
        )
        refl

  pub read_optional-set_ne :
      {B : Type 0} (k j : String) (v : json.Value) (decode : json.Value → Option B) (old : Option B)
      (root : json.Value)
      → Text.◌==◌ k j ≡ false
      → read_optional json j decode old (json.set root k v) ≡ read_optional json j decode old root
  unfolding read_optional
  read_optional-set_ne k j v decode old root e =
      rw (laws.is_member-set root v k j, laws.get-set root v (json.of_string []) k j, e) refl

  -- A member is read back, if it was not there before.
  pub read_optional-put :
      {A : Type 0} (k : String) (encode : A → json.Value) (o : Option A)
      (decode : json.Value → Option A) (root : json.Value)
      → ((a : A) → decode (encode a) ≡ some a)
      → json.is_member root k ≡ false
      → read_optional json k decode none (put_optional json k encode o root) ≡ some o
  unfolding read_optional put_optional
  read_optional-put k encode none decode root back absent = rw absent refl
  read_optional-put k encode (some a) decode root back absent =
      rw
        (
          laws.is_member-set root (encode a) k k,
          laws.get-set root (encode a) (json.of_string []) k k,
          eq_refl k,
          back a,
        )
        refl

  pub get_text-set :
      (root v : json.Value) (k j : String)
      → get_text json (json.set root k v) j
        ≡ (if Text.◌==◌ k j then json.as_string v else get_text json root j)
  get_text-set root v k j =
      rw (laws.get-set root v (json.of_string []) k j, get_text) (ap_if (Text.◌==◌ k j))
    where
      ap_if :
          (b : Bool)
          → json.as_string (if b then v else json.get root j (json.of_string []))
            ≡ (if b then json.as_string v else json.as_string (json.get root j (json.of_string [])))
      ap_if true = refl
      ap_if false = refl

  -- An optional member of another name does not change a text.
  pub get_text-put_ne :
      {A : Type 0} (k j : String) (encode : A → json.Value) (o : Option A) (root : json.Value)
      → Text.◌==◌ k j ≡ false
      → get_text json (put_optional json k encode o root) j ≡ get_text json root j
  unfolding put_optional
  get_text-put_ne k j encode none root e = refl
  get_text-put_ne k j encode (some a) root e = get_text-set root (encode a) k j ∙ rw e refl

  pub decode_text-of_string : (s : List ℕ) → decode_text json (json.of_string s) ≡ some s
  decode_text-of_string s = ap some (laws.as_string-of_string s)

  pub decode_bool-of_bool : (b : Bool) → decode_bool json (json.of_bool b) ≡ some b
  decode_bool-of_bool b = ap some (laws.as_bool-of_bool b)

  pub is_member-set_ne :
      (root v : json.Value) (k j : String)
      → Text.◌==◌ k j ≡ false
      → json.is_member (json.set root k v) j ≡ json.is_member root j
  is_member-set_ne root v k j e = laws.is_member-set root v k j ∙ rw e refl

  pub is_member-put_ne :
      {A : Type 0} (k j : String) (encode : A → json.Value) (o : Option A) (root : json.Value)
      → Text.◌==◌ k j ≡ false
      → json.is_member (put_optional json k encode o root) j ≡ json.is_member root j
  unfolding put_optional
  is_member-put_ne k j encode none root e = refl
  is_member-put_ne k j encode (some a) root e = is_member-set_ne root (encode a) k j e
