-- ===== src/Qt.antt =====
-- module-qt/src: the objects of Qt that stand for the applications of the C++ layer. Of each class one
-- object at a time is the instance, which has an application and emits what comes in. An object is
-- named by its address, and so is a static function; the two loads of the instance in a callback are
-- taken to see the same pointer.
pub mod Single
mod Tests
use substance_3d_connector.Base.{
  ℕ, ◌==◌, if◌then◌else◌, Bool, true, false, List, [], ◌∷◌, Option, none, some,
}
use substance_3d_connector.Retcode.{Retcode}
use substance_3d_connector.Uuid.{Uuid}
use substance_3d_connector.Framework.Applications.{
  Application, system, mesh_application, sbsar_application,
}
use substance_3d_connector.Framework.Core
use substance_3d_connector.Framework.Core.{
  Framework, CoreTable, ConnectionTable, register_application, open_tcp_connection,
  open_default_tcp, broadcast_tcp,
}
use substance_3d_connector.Framework.Json.{Json}
use substance_3d_connector.Framework.Schemas.SendTo.{SendToSchema}
use substance_3d_connector.Framework.Schemas.ConfigRequest.{ConfigRequest}
use substance_3d_connector.Framework.Schemas.MeshExport.{MeshExport}
use substance_3d_connector.Framework.Senders.{
  send_request_mesh_config, send_mesh_export_config, send_load_mesh, send_load_sbsar,
  send_request_mesh_config_text, send_mesh_export_config_text, send_load_mesh_text,
  send_load_sbsar_text,
}

-- `instance` of a class, and `mApplication` of each of its objects.
pub record Objects : Type 0 where
  pub instance_object : Option ℕ
  pub application : ℕ → Option Application

-- A program's start, where every object was constructed with no application.
abbrev pub constructed : Objects
constructed = record { instance_object = none; application = λ p. none }

abbrev pub update : (ℕ → Option Application) → ℕ → Option Application → ℕ → Option Application
update f p a q = if p == q then a else f q

-- Whether the instance is the object.
abbrev pub is_instance : ℕ → Option ℕ → Bool
is_instance p none = false
is_instance p (some q) = p == q

-- What `initialize` does, for the application that the class makes: the exchange from a null pointer
-- fails where an object is the instance already.
unfoldable pub initialize : Application → ℕ → Objects → Objects
initialize fresh p o = elim o.instance_object [
  | none ↦ record { instance_object = some p; application = update o.application p (some fresh) }
  | some q ↦ o
]

-- What `shutdown` does.
unfoldable pub shutdown : ℕ → Objects → Objects
shutdown p o =
    if is_instance p o.instance_object
    then record { instance_object = none; application = update o.application p none }
    else o

-- `ConnectorSystem::initialize`, with the static functions.
unfoldable pub initialize_system : ℕ → ℕ → ℕ → ℕ → ℕ → Objects → Objects
unfolding initialize system
initialize_system answer established closed context =
    initialize (system answer (some established) (some closed) (some context))

-- `MeshApplication::initialize`, which sets no function for an update.
unfoldable pub initialize_mesh : ℕ → ℕ → ℕ → ℕ → Objects → Objects
unfolding initialize mesh_application
initialize_mesh load config request =
    initialize (mesh_application (some load) none (some config) (some request))

-- `SbsarApplication::initialize`
unfoldable pub initialize_sbsar : ℕ → ℕ → ℕ → Objects → Objects
unfolding initialize sbsar_application
initialize_sbsar load updated = initialize (sbsar_application (some load) (some updated))

-- `shutdown` of the three classes.
unfoldable pub shutdown_system : ℕ → Objects → Objects
unfolding shutdown
shutdown_system = shutdown

unfoldable pub shutdown_mesh : ℕ → Objects → Objects
unfolding shutdown
shutdown_mesh = shutdown

unfoldable pub shutdown_sbsar : ℕ → Objects → Objects
unfolding shutdown
shutdown_sbsar = shutdown

-- The signals of the classes.
pub data Signal : Type 0 where
  recv_connection_established recv_connection_closed update_connection_context : Signal
  recv_load_mesh recv_mesh_config_request recv_mesh_export_config : Signal
  recv_load_sbsar recv_update_sbsar : Signal

pub record Emission : Type 0 where
  pub object : ℕ
  pub signal : Signal
  pub context : ℕ
  pub text : List ℕ

-- A static callback: a signal of the instance, if there is one.
unfoldable pub receive : Signal → ℕ → List ℕ → Objects → List Emission
receive signal context text o = elim o.instance_object [
  | none ↦ []
  | some p ↦ record { object = p; signal = signal; context = context; text = text } ∷ []
]

unfoldable pub recv_connection_established_callback : ℕ → List ℕ → Objects → List Emission
unfolding receive
recv_connection_established_callback = receive Signal.recv_connection_established

unfoldable pub recv_connection_closed_callback : ℕ → List ℕ → Objects → List Emission
unfolding receive
recv_connection_closed_callback = receive Signal.recv_connection_closed

unfoldable pub update_connection_context_callback : ℕ → List ℕ → Objects → List Emission
unfolding receive
update_connection_context_callback = receive Signal.update_connection_context

unfoldable pub recv_load_mesh_callback : ℕ → List ℕ → Objects → List Emission
unfolding receive
recv_load_mesh_callback = receive Signal.recv_load_mesh

unfoldable pub recv_request_mesh_config_callback : ℕ → List ℕ → Objects → List Emission
unfolding receive
recv_request_mesh_config_callback = receive Signal.recv_mesh_config_request

unfoldable pub recv_mesh_config_callback : ℕ → List ℕ → Objects → List Emission
unfolding receive
recv_mesh_config_callback = receive Signal.recv_mesh_export_config

unfoldable pub recv_load_sbsar_callback : ℕ → List ℕ → Objects → List Emission
unfolding receive
recv_load_sbsar_callback = receive Signal.recv_load_sbsar

unfoldable pub recv_update_sbsar_callback : ℕ → List ℕ → Objects → List Emission
unfolding receive
recv_update_sbsar_callback = receive Signal.recv_update_sbsar

-- A method that sends, for the object's application: nothing where it has none.
unfoldable pub through : {W : Type 0} → Option Application → (W → W) → W → W
through none send w = w
through (some a) send w = send w

module _ (json : Json) {W : Type 0} (write_message : ℕ → Uuid → json.Text → W → Retcode × W)
    (o : Objects) (p : ℕ) where
  -- The methods of `MeshApplication` and `SbsarApplication` for a text, and for a schema.
  unfoldable pub qt_send_load_mesh_text : ℕ → json.Text → W → W
  unfolding through
  qt_send_load_mesh_text context message =
      through (o.application p) (send_load_mesh_text json write_message context message)

  unfoldable pub qt_send_load_mesh : ℕ → SendToSchema → W → W
  unfolding through
  qt_send_load_mesh context schema =
      through (o.application p) (send_load_mesh json write_message context schema)

  unfoldable pub qt_send_request_mesh_config_text : ℕ → json.Text → W → W
  unfolding through
  qt_send_request_mesh_config_text context message =
      through (o.application p) (send_request_mesh_config_text json write_message context message)

  unfoldable pub qt_send_request_mesh_config : ℕ → ConfigRequest → W → W
  unfolding through
  qt_send_request_mesh_config context schema =
      through (o.application p) (send_request_mesh_config json write_message context schema)

  unfoldable pub qt_send_mesh_export_config_text : ℕ → json.Text → W → W
  unfolding through
  qt_send_mesh_export_config_text context message =
      through (o.application p) (send_mesh_export_config_text json write_message context message)

  unfoldable pub qt_send_mesh_export_config : ℕ → MeshExport → W → W
  unfolding through
  qt_send_mesh_export_config context schema =
      through (o.application p) (send_mesh_export_config json write_message context schema)

  unfoldable pub qt_send_load_sbsar : ℕ → SendToSchema → W → W
  unfolding through
  qt_send_load_sbsar context schema =
      through (o.application p) (send_load_sbsar json write_message context schema)

  unfoldable pub qt_send_load_sbsar_text : ℕ → json.Text → W → W
  unfolding through
  qt_send_load_sbsar_text context message =
      through (o.application p) (send_load_sbsar_text json write_message context message)

-- The pointer that an object hands to the layer.
abbrev pub handed : ℕ → Option Application → Option (ℕ × Application)
handed p none = none
handed p (some a) = some (p, a)

-- `ConnectorModule::registerApplication`, `init` and `shutdown`
unfoldable pub qt_register_application :
    {W : Type 0} → Objects → ℕ → Framework W → Bool × Framework W
unfolding register_application
qt_register_application o p f = register_application (handed p (o.application p)) f

unfoldable pub qt_init :
    {W : Type 0} → CoreTable W → List ℕ → Option ℕ → Framework W → Bool × Framework W
unfolding Core.init
qt_init core name module_handle = Core.init core name name module_handle

unfoldable pub qt_shutdown : {W : Type 0} → CoreTable W → Framework W → Bool × Framework W
unfolding Core.shutdown
qt_shutdown core = Core.shutdown core

-- `openTcpConnection`, `openDefaultTcp` and `broadcastTcp` of the module.
unfoldable pub qt_open_tcp_connection :
    {W : Type 0} → ConnectionTable W → ℕ → W → Bool × Option ℕ × W
unfolding open_tcp_connection
qt_open_tcp_connection table port w = open_tcp_connection table port w

unfoldable pub qt_open_default_tcp : {W : Type 0} → ConnectionTable W → W → Bool × Option ℕ × W
unfolding open_default_tcp
qt_open_default_tcp table w = open_default_tcp table w

unfoldable pub qt_broadcast_tcp : {W : Type 0} → ConnectionTable W → W → Bool × W
unfolding broadcast_tcp
qt_broadcast_tcp table w = broadcast_tcp table w
