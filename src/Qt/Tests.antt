-- ===== src/Qt/Tests.antt =====
-- Two objects of a class, and what its callbacks emit.
use substance_3d_connector.Base.{ℕ, ◌≡◌, refl, false, List, [], ◌∷◌, ◌++◌, none, some}
use substance_3d_connector.Framework.Applications.{Application, sbsar_application}
use substance_3d_connector.Framework.Core.{Framework, StartupState}
use substance_3d_connector.Qt.{
  Signal, constructed, initialize, shutdown, recv_load_sbsar_callback, through,
  qt_register_application,
}
use substance_3d_connector.Qt.Single
use substance_3d_connector.Qt.Single.{Call, run, objects, holder, single_instance}

abbrev fresh : Application
fresh = sbsar_application (some 70) (some 71)

-- The second object asks while the first has the class, and again after it gave it back.
abbrev calls : List Call
calls =
    Call.initialise fresh 5
    ∷ Call.initialise fresh 6
    ∷ Call.stop 6
    ∷ Call.stop 5
    ∷ Call.initialise fresh 6
    ∷ []

abbrev marked : List ℕ
marked = 1 ∷ []

abbrev idle_framework : Framework (List ℕ)
idle_framework = record {
  startup_state = StartupState.connector_shutdown;
  applications = [];
  feature_level = [];
  connection_display_name = [];
  connection_id = [];
  callback_map = [];
  outside = [];
}

single_instance_example :
    (run calls constructed ≡ objects (holder calls none))
    × ((through ((run calls constructed).application 5) (λ w. w ++ marked) [] ≡ [])
        × (qt_register_application (run calls constructed) 5 idle_framework
            ≡ (false, idle_framework)))
unfolding holder Single.claim Single.release
single_instance_example = single_instance calls 5 idle_framework (λ w. w ++ marked) [] refl

holder_test : holder calls none ≡ some (6, fresh)
unfolding holder Single.claim Single.release
holder_test = refl

emission_test :
    recv_load_sbsar_callback 3 (97 ∷ []) (run calls constructed)
    ≡ record { object = 6; signal = Signal.recv_load_sbsar; context = 3; text = 97 ∷ [] } ∷ []
unfolding recv_load_sbsar_callback run initialize shutdown
emission_test = refl

sent_test : through ((run calls constructed).application 6) (λ w. w ++ marked) [] ≡ marked
unfolding through run initialize shutdown
sent_test = refl
