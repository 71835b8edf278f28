-- ===== src/Framework/Callbacks.antt =====
-- module-cpp/src/framework/details/callbacks.cpp: the functions that are bound to the types of
-- messages. A function is named by the address of its code, which can be null. A std::map is a list
-- of its pairs, found by the order of the keys; no operation of the file depends on their order.
pub mod Bound
use substance_3d_connector.Base.{
  ℕ, ◌==◌, ◌&&◌, not, if◌then◌else◌, Bool, true, false, List, [], ◌∷◌, ◌++◌, Option, none, some,
}
use substance_3d_connector.Uuid.{Uuid}
use substance_3d_connector.Framework.Uuids.{less}

-- The keys of a std::map are the same where neither is below the other.
abbrev pub equivalent : Uuid → Uuid → Bool
equivalent a b = not (less a b) && not (less b a)

-- `CallbackPair`, of application.h
abbrev pub CallbackPair : Type 0
CallbackPair = Uuid × List (Option ℕ)

-- `callbackMap`
abbrev pub CallbackMap : Type 0
CallbackMap = List CallbackPair

unfoldable pub find : Uuid → CallbackMap → Option (List (Option ℕ))
find t [] = none
find t ((u, cs) ∷ m) = if equivalent t u then some cs else find t m

unfoldable pub erase : Uuid → CallbackMap → CallbackMap
erase t [] = []
erase t ((u, cs) ∷ m) = if equivalent t u then m else (u, cs) ∷ erase t m

abbrev pub is_found : Option (List (Option ℕ)) → Bool
is_found none = false
is_found (some cs) = true

-- `bindCallback`
unfoldable pub bind_callback : Uuid → List (Option ℕ) → CallbackMap → Bool × CallbackMap
bind_callback t cs m = if is_found (find t m) then (false, m) else (true, (t, cs) ∷ m)

-- `unbindCallback`
unfoldable pub unbind_callback : Uuid → CallbackMap → Bool × CallbackMap
unbind_callback t m = if is_found (find t m) then (true, erase t m) else (false, m)

-- `findCallbacks`
abbrev pub found_or_empty : Option (List (Option ℕ)) → List (Option ℕ)
found_or_empty none = []
found_or_empty (some cs) = cs

unfoldable pub find_callbacks : Uuid → CallbackMap → List (Option ℕ)
find_callbacks t m = found_or_empty (find t m)
