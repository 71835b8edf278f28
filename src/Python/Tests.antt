-- ===== src/Python/Tests.antt =====
-- The module for Python with an interpreter that numbers its objects.
use substance_3d_connector.Base.{ℕ, ◌+◌, ◌≡◌, refl, List, [], ◌∷◌, none, some}
use substance_3d_connector.Uuid.{internal_log_uuid}
use substance_3d_connector.Python.{Interpreter}
use substance_3d_connector.Python.Calls.{
  Call, run, loaded_module, holding, last_registered, references_held,
}

-- Objects are numbered from the state on, a call gives None, which is 1, and the state counts on.
abbrev numbering : Interpreter ℕ
numbering = record {
  long_from_unsigned_long = λ x n. (n, n + 1);
  unicode_from_string = λ text n. (some n, n + 1);
  list_new = λ n. (n, n + 1);
  list_append = λ list object n. n;
  call_function = λ callback args n. (some 1, n);
  gil_ensure = λ n. n;
  gil_release = λ n. n;
}

-- A function is registered, hears of a message, and is replaced; a registration without an argument
-- changes nothing.
abbrev calls : List Call
calls =
    Call.register (some 5)
    ∷ Call.message 2 internal_log_uuid (76 ∷ [])
    ∷ Call.register (some 6)
    ∷ Call.register none
    ∷ []

references_held_example :
    (w' : ℕ) × (run numbering calls (loaded_module 10)
      ≡ some (holding (last_registered calls none) w'))
references_held_example = references_held numbering calls 10 ((λ w. (w, refl)), tt)

last_registered_test : last_registered calls none ≡ some 6
unfolding last_registered
last_registered_test = refl
