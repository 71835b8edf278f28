-- ===== src/Framework/Callbacks/Bound.antt =====
-- What is bound after callbacks were registered and unregistered.
use substance_3d_connector.Base.{
  ◌≡◌, ◌↔◌, refl, arith, if◌then◌else◌, ℕ, true, List, [], ◌∷◌, Option, none, some,
}
use substance_3d_connector.Uuid.{Uuid}
use substance_3d_connector.Framework.Uuids.{less}
use substance_3d_connector.Framework.Callbacks.{
  equivalent, CallbackPair, CallbackMap, find, erase, is_found, bind_callback, unbind_callback,
}
use substance_3d_connector.Framework.Applications.{register_callbacks, unregister_callbacks}

pub equivalent_iff : (a b : Uuid) → (equivalent a b ≡ true) ↔ (a ≡ b)
unfolding less
equivalent_iff a b = ground arith

-- Each key stands once, as in a std::map.
abbrev pub IsMap : CallbackMap → Type 0
IsMap [] = Unit
IsMap ((t, cs) ∷ m) = (find t m ≡ none) × IsMap m

abbrev pub first_of : Option (List (Option ℕ)) → Option (List (Option ℕ)) → Option (List (Option ℕ))
first_of none o = o
first_of (some cs) o = some cs

find-bind_callback :
    (t u : Uuid) (cs : List (Option ℕ)) (m : CallbackMap)
    → find t (bind_callback u cs m).1
      ≡ first_of (find t m) (if equivalent t u then some cs else none)
unfolding bind_callback find
find-bind_callback t u cs m = ground (arith, equivalent_iff t u)

bind_callback-IsMap :
    (u : Uuid) (cs : List (Option ℕ)) (m : CallbackMap) → IsMap m → IsMap (bind_callback u cs m).1
unfolding bind_callback
bind_callback-IsMap u cs m h = ground arith

find-erase :
    (t u : Uuid) (m : CallbackMap)
    → IsMap m
    → find t (erase u m) ≡ (if equivalent t u then none else find t m)
unfolding erase find
find-erase t u [] h = ground arith
find-erase t u ((v, cs) ∷ m) (fresh, h) =
    ground (arith, find-erase t u m h, equivalent_iff t u, equivalent_iff u v, equivalent_iff t v)

erase-IsMap : (u : Uuid) (m : CallbackMap) → IsMap m → IsMap (erase u m)
unfolding erase
erase-IsMap u [] h = tt
erase-IsMap u ((v, cs) ∷ m) (fresh, h) = ground (arith, erase-IsMap u m h, find-erase v u m h)

find-unbind_callback :
    (t u : Uuid) (m : CallbackMap)
    → IsMap m
    → find t (unbind_callback u m).1 ≡ (if equivalent t u then none else find t m)
unfolding unbind_callback
find-unbind_callback t u m h = ground (arith, find-erase t u m h, equivalent_iff t u)

unbind_callback-IsMap : (u : Uuid) (m : CallbackMap) → IsMap m → IsMap (unbind_callback u m).1
unfolding unbind_callback
unbind_callback-IsMap u m h = ground (arith, erase-IsMap u m h)

-- A type is bound to what it was bound to, or else to what the first pair for it has.
pub find-register_callbacks :
    (t : Uuid) (pairs : List CallbackPair) (m : CallbackMap)
    → find t (register_callbacks pairs m) ≡ first_of (find t m) (find t pairs)
unfolding register_callbacks find
find-register_callbacks t [] m = ground arith
find-register_callbacks t ((u, cs) ∷ pairs) m =
    ground
      (arith, find-register_callbacks t pairs (bind_callback u cs m).1, find-bind_callback t u cs m)

pub register_callbacks-IsMap :
    (pairs : List CallbackPair) (m : CallbackMap) → IsMap m → IsMap (register_callbacks pairs m)
unfolding register_callbacks
register_callbacks-IsMap [] m h = h
register_callbacks-IsMap ((u, cs) ∷ pairs) m h =
    register_callbacks-IsMap pairs _ (bind_callback-IsMap u cs m h)

pub unregister_callbacks-IsMap :
    (pairs : List CallbackPair) (m : CallbackMap) → IsMap m → IsMap (unregister_callbacks pairs m)
unfolding unregister_callbacks
unregister_callbacks-IsMap [] m h = h
unregister_callbacks-IsMap ((u, cs) ∷ pairs) m h =
    unregister_callbacks-IsMap pairs _ (unbind_callback-IsMap u m h)

-- A type that a pair names is not bound any more, whoever bound it.
pub find-unregister_callbacks :
    (t : Uuid) (pairs : List CallbackPair) (m : CallbackMap)
    → IsMap m
    → find t (unregister_callbacks pairs m) ≡ (if is_found (find t pairs) then none else find t m)
unfolding unregister_callbacks find
find-unregister_callbacks t [] m h = refl
find-unregister_callbacks t ((u, cs) ∷ pairs) m h = ground (
  arith,
  find-unregister_callbacks t pairs (unbind_callback u m).1 (unbind_callback-IsMap u m h),
  find-unbind_callback t u m h,
)

-- A map in which nothing is found is empty.
pub empty_of_find : (m : CallbackMap) → ((t : Uuid) → find t m ≡ none) → m ≡ []
unfolding find
empty_of_find [] h = refl
empty_of_find ((u, cs) ∷ m) h = absurd (ground (arith, h u, equivalent_iff u u))
