-- ===== src/Framework/Applications.antt =====
-- module-cpp/src/framework/application.cpp, system.cpp and features: the applications, which bind
-- functions to the types of the messages of a feature.
use substance_3d_connector.Base.{ℕ, List, [], ◌∷◌, ◌++◌, Option, some}
use substance_3d_connector.Uuid.{Uuid}
use substance_3d_connector.Framework.Callbacks.{
  CallbackPair, CallbackMap, bind_callback, unbind_callback,
}

-- An `Application`: the pairs that the `preInit` of its class adds, what `getFeatureIds` gives, and
-- `mCallbacks`. The other two steps of every class have empty bodies.
pub record Application : Type 0 where
  pub own : List CallbackPair
  pub feature_ids : List Uuid
  pub callbacks : List CallbackPair

-- `registerCallbacks` and `unregisterCallbacks`
unfoldable pub register_callbacks : List CallbackPair → CallbackMap → CallbackMap
register_callbacks [] m = m
register_callbacks ((t, cs) ∷ pairs) m = register_callbacks pairs (bind_callback t cs m).1

unfoldable pub unregister_callbacks : List CallbackPair → CallbackMap → CallbackMap
unregister_callbacks [] m = m
unregister_callbacks ((t, cs) ∷ pairs) m = unregister_callbacks pairs (unbind_callback t m).1

-- `preInit` of a feature, with the one of `Application` at its end.
unfoldable pub pre_init : Application → CallbackMap → Application × CallbackMap
unfolding register_callbacks
pre_init a m =
    let callbacks = a.callbacks ++ a.own in
    (record a { callbacks = callbacks }, register_callbacks callbacks m)

-- `preShutdown`
unfoldable pub pre_shutdown : Application → CallbackMap → Application × CallbackMap
unfolding unregister_callbacks
pre_shutdown a m = (record a { callbacks = [] }, unregister_callbacks a.callbacks m)

-- `System`
abbrev pub connection_established_id : Uuid
connection_established_id = record {
  e0 = 0x02572bc5;
  e1 = 0x2d84450a;
  e2 = 0x9e01d22c;
  e3 = 0x66b1abb1;
}

abbrev pub connection_closed_id : Uuid
connection_closed_id = record { e0 = 0x04705ddf; e1 = 0x16d44489; e2 = 0xaf6c6e3a; e3 = 0x93f1959d }

abbrev pub connection_update_context_id : Uuid
connection_update_context_id = record {
  e0 = 0x39b07a67;
  e1 = 0x49964b62;
  e2 = 0xa340908a;
  e3 = 0x81f66562;
}

-- With the address of `connectionEstablished`, and the three functions that the user has set.
unfoldable pub system : ℕ → Option ℕ → Option ℕ → Option ℕ → Application
system answer established closed context = record {
  own =
      (connection_established_id, some answer ∷ established ∷ [])
      ∷ (connection_closed_id, closed ∷ [])
      ∷ (connection_update_context_id, context ∷ [])
      ∷ [];
  feature_ids =
      connection_update_context_id ∷ connection_established_id ∷ connection_closed_id ∷ [];
  callbacks = [];
}

-- `MeshApplication`
abbrev pub load_mesh_id : Uuid
load_mesh_id = record { e0 = 0xfad67b5b; e1 = 0xe1414be7; e2 = 0xb27ad6f6; e3 = 0xa4f89424 }

abbrev pub update_mesh_id : Uuid
update_mesh_id = record { e0 = 0x7c3e3c65; e1 = 0x0c1641d5; e2 = 0x808b9537; e3 = 0x59930ffe }

abbrev pub request_mesh_config_id : Uuid
request_mesh_config_id = record {
  e0 = 0x685dd700;
  e1 = 0x9d31455d;
  e2 = 0x98a4431b;
  e3 = 0xb039819a;
}

abbrev pub rec_mesh_config_id : Uuid
rec_mesh_config_id = record { e0 = 0x0b6d7b54; e1 = 0xa90b4c05; e2 = 0xb0f93592; e3 = 0x71b2efbc }

unfoldable pub mesh_application : Option ℕ → Option ℕ → Option ℕ → Option ℕ → Application
mesh_application load update config request = record {
  own =
      (load_mesh_id, load ∷ [])
      ∷ (update_mesh_id, update ∷ [])
      ∷ (rec_mesh_config_id, config ∷ [])
      ∷ (request_mesh_config_id, request ∷ [])
      ∷ [];
  feature_ids = load_mesh_id ∷ update_mesh_id ∷ rec_mesh_config_id ∷ request_mesh_config_id ∷ [];
  callbacks = [];
}

-- `SbsarApplication`
abbrev pub load_sbsar_id : Uuid
load_sbsar_id = record { e0 = 0x91e3dfbc; e1 = 0x80b84b1a; e2 = 0x92d563ec; e3 = 0x09ac641a }

abbrev pub update_sbsar_id : Uuid
update_sbsar_id = record { e0 = 0x1643e0bf; e1 = 0x73444314; e2 = 0x9cbf6107; e3 = 0xe30e5ed7 }

unfoldable pub sbsar_application : Option ℕ → Option ℕ → Application
sbsar_application load update = record {
  own = (load_sbsar_id, load ∷ []) ∷ (update_sbsar_id, update ∷ []) ∷ [];
  feature_ids = load_sbsar_id ∷ update_sbsar_id ∷ [];
  callbacks = [];
}

-- The pairs that `Livelink` adds; the class leaves `getFeatureIds` to a class below it.
abbrev pub update_image_id : Uuid
update_image_id = record { e0 = 0xfc6491a3; e1 = 0x5d594a59; e2 = 0xaa0889f5; e3 = 0x26958f17 }

unfoldable pub livelink : Option ℕ → List Uuid → Application
livelink update feature_ids = record {
  own = (update_image_id, update ∷ []) ∷ [];
  feature_ids = feature_ids;
  callbacks = [];
}
