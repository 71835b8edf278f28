-- ===== src/Framework/Schemas/Layers.antt =====
-- What each read of an object sees behind one write, whatever the two names are.
use Prim.Native.String.{String}
use text.Mathlib.Text
use substance_3d_connector.Base.{
  ◌≡◌, ◌>>=◌, if◌then◌else◌, Bool, true, false, [], Option, none, some, refl,
}
use substance_3d_connector.Framework.Json.{Json, IsLawful}
use substance_3d_connector.Framework.Schemas.Fields.{put_optional, read_optional}

-- A value that was written, or else what was there before.
pub written : {A B : Type 0} → Option A → (A → B) → B → B
written none f rest = rest
written (some a) f rest = f a

-- A value that is read as it was written.
pub written_back :
    {A : Type 0} (o : Option A) (f : A → Option (Option A))
    → ((a : A) → f a ≡ some (some a))
    → written o f (some none) ≡ some o
unfolding written
written_back none f back = refl
written_back (some a) f back = back a

module _ {json : Json} (laws : IsLawful json) where
  pub is_member-put :
      {A : Type 0} (k j : String) (encode : A → json.Value) (o : Option A) (root : json.Value)
      → json.is_member (put_optional json k encode o root) j ≡ (
          if Text.◌==◌ k j
          then written o (λ _. true) (json.is_member root j)
          else json.is_member root j)
  unfolding put_optional written
  is_member-put k j encode none root = same (Text.◌==◌ k j)
    where
      same :
          (b : Bool)
          → json.is_member root j ≡ (if b then json.is_member root j else json.is_member root j)
      same true = refl
      same false = refl
  is_member-put k j encode (some a) root = laws.is_member-set root (encode a) k j

  pub read_optional-put_if :
      {A B : Type 0} (k j : String) (encode : A → json.Value) (o : Option A)
      (decode : json.Value → Option B) (old : Option B) (root : json.Value)
      → read_optional json j decode old (put_optional json k encode o root) ≡ (
          if Text.◌==◌ k j
          then written o
              (λ a. decode (encode a) >>= λ b. some (some b))
              (read_optional json j decode old root)
          else read_optional json j decode old root)
  unfolding put_optional written read_optional
  read_optional-put_if k j encode none decode old root = same (Text.◌==◌ k j)
    where
      same :
          (b : Bool)
          → read_optional json j decode old root ≡ (
              if b
              then read_optional json j decode old root
              else read_optional json j decode old root)
      same true = refl
      same false = refl
  read_optional-put_if k j encode (some a) decode old root =
      rw
        (
          laws.is_member-set root (encode a) k j,
          laws.get-set root (encode a) (json.of_string []) k j,
        )
        (same (Text.◌==◌ k j))
    where
      same :
          (b : Bool)
          → (if (if b then true else json.is_member root j)
              then (decode (if b then encode a else json.get root j (json.of_string [])) >>= λ a.
                  some (some a))
              else some old)
            ≡ (if b
                then (decode (encode a) >>= λ b. some (some b))
                else (if json.is_member root j
                    then (decode (json.get root j (json.of_string [])) >>= λ a. some (some a))
                    else some old))
      same true = refl
      same false = refl
