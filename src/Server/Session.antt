-- ===== src/Server/Session.antt =====
-- The state of `Session` of foxess_local_cloud/server.py, what its methods call outside it, and the
-- actions that its methods are: each changes the session, makes calls in order, and may raise. What
-- was changed and called before a raise stays.
pub mod Rules
use foxess_local_gateway.Prelude.{
  ℕ, List, [], ◌∷◌, ◌++◌, Bool, true, false, Option, none, some, Result, ok, err, Error,
  if◌then◌else◌,
}
use foxess_local_gateway.LocalControl.{LocalControl, WriteResult, Source}
use foxess_local_gateway.Telemetry.{Telemetry}
use foxess_local_gateway.Firmware.Upload.{FirmwareUploader}
use foxess_local_gateway.Firmware.Capture.{FirmwareCapture}
use foxess_local_gateway.Server.Faults.{FaultState, Report}
use foxess_local_gateway.Server.Faults

pub data MeshRole : Type 0 where
  no_role root follower : MeshRole

-- `self.model` and the like are texts; a serial of `None` is `none`. The tasks, the locks, the two
-- stream buffers and the writers belong to the loops that use them.
pub record Session : Type 0 where
  pub serial : Option (List ℕ)
  pub model : List ℕ
  pub firmware : List ℕ
  pub module_name : List ℕ
  pub mesh_role : MeshRole
  pub mesh_peer_serial : List ℕ
  pub faults : FaultState
  pub bootstrap_step : ℕ
  pub last_telemetry_at : Option ℕ
  pub pending_reads : List (List ℕ × (ℕ × ℕ))
  pub readbacks : List (List ℕ × (ℕ × Source))
  pub pending_writes : List (List ℕ × (ℕ × ℕ))
  pub local_control : Option LocalControl
  pub command_registered : Bool
  pub settle_scheduled : Bool
  pub client_device_tail : List ℕ
  pub last_client_func : ℕ
  pub firmware_uploader : Option FirmwareUploader
  pub firmware_capture : Option FirmwareCapture

-- `__init__`; local control and the capture are there when the configuration enables them.
abbrev pub init : Option LocalControl → Option FirmwareCapture → Session
init local_control firmware_capture = record {
  serial = none;
  model = [];
  firmware = [];
  module_name = [];
  mesh_role = no_role;
  mesh_peer_serial = [];
  faults = Faults.init;
  bootstrap_step = 0;
  last_telemetry_at = none;
  pending_reads = [];
  readbacks = [];
  pending_writes = [];
  local_control = local_control;
  command_registered = false;
  settle_scheduled = false;
  client_device_tail = [];
  last_client_func = 0;
  firmware_uploader = none;
  firmware_capture = firmware_capture;
}

-- How a diagnostic readback ended.
pub data Readback : Type 0 where
  matched mismatch : ℕ → Readback
  no_answer unsent failed : Readback
  modbus_exception : ℕ → Readback

-- The calls of the publisher, the application, the event loop and the writer.
pub data Call (F : Type 0) : Type 0 where
  publish_state : List ℕ → ℕ → Call F
  publish_result : List ℕ → Option WriteResult → Call F
  register_handler : List ℕ → Call F
  announce_limit : List ℕ → Call F
  unregister_handler : List ℕ → Call F
  clear_discovery : List ℕ → Call F
  claim_serial : List ℕ → Call F
  publish_telemetry : List ℕ → Telemetry F → Call F
  report_fault : Report → Call F
  readback_result : ℕ → Source → Readback → Call F
  schedule_settle : Call F
  await_readback : List ℕ → ℕ → Source → Call F
  write_client : List ℕ → Call F
  write_upstream : List ℕ → Call F

pub record Ran (F A : Type 0) : Type 0 where
  pub result : Result A
  pub session : Session
  pub calls : List (Call F)

abbrev pub Action : Type 0 → Type 0 → Type 0
Action F A = Session → Ran F A

module _ {F : Type 0} where
  abbrev pub pure : {A : Type 0} → A → Action F A
  pure a s = record { result = ok a; session = s; calls = [] }

  abbrev pub raise : {A : Type 0} → Error → Action F A
  raise e s = record { result = err e; session = s; calls = [] }

  abbrev pub lift : {A : Type 0} → Result A → Action F A
  lift r s = record { result = r; session = s; calls = [] }

  abbrev pub gets : {A : Type 0} → (Session → A) → Action F A
  gets f s = record { result = ok (f s); session = s; calls = [] }

  abbrev pub modify : (Session → Session) → Action F Bool
  modify f s = record { result = ok true; session = f s; calls = [] }

  abbrev pub call : List (Call F) → Action F Bool
  call cs s = record { result = ok true; session = s; calls = cs }

  -- What `f` does after `r`, which ended with `a`.
  abbrev pub continue :
      {A B : Type 0} → Session → List (Call F) → (A → Action F B) → Result A → Ran F B
  continue s before f (err e) = record { result = err e; session = s; calls = before }
  continue s before f (ok a) =
      let rest = f a s in
      record { result = rest.result; session = rest.session; calls = before ++ rest.calls }

infixl 5 ◌>>=◌ ◌>>◌
abbrev pub ◌>>=◌ : {F A B : Type 0} → Action F A → (A → Action F B) → Action F B
◌>>=◌ m f s = let ran = m s in continue ran.session ran.calls f ran.result

abbrev pub ◌>>◌ : {F A B : Type 0} → Action F A → Action F B → Action F B
m >> k = m >>= λ _. k
