-- ===== src/Server/Handle.antt =====
-- `Session.handle_frame` of foxess_local_cloud/server.py, one action per paragraph of the method.
-- `address` is the configured register, `now` the clock, `F`, `scaled` and `is_nonzero` those of the
-- telemetry. The log is left out, except where it reports a fault or a readback.
pub mod Middle
pub mod Published
pub mod Reports
pub mod Commands
pub mod Lost
use foxess_local_gateway.Prelude.{
  ℕ, List, [], ◌∷◌, drop, Bool, true, false, not, ◌&&◌, ◌||◌, Option, none, some, Result, ok, err,
  ◌==◌, ◌=b◌, if◌then◌else◌,
}
use foxess_local_gateway.Dict.{get, pop}
use foxess_local_gateway.LocalControl.{
  LocalControl, Source, normalize_device, is_our_frame, resolve_response,
}
use foxess_local_gateway.Protocol.Frame.{Frame}
use foxess_local_gateway.Protocol.Bootstrap.{is_registration, registration_serial, response_for}
use foxess_local_gateway.Protocol.Info.{
  is_telemetry, is_product_info, is_module_info, module_info, product_info, ProductInfo,
}
use foxess_local_gateway.Protocol.Mesh.{
  is_mesh_root_frame, is_mesh_follower_frame, mesh_peer_serial,
}
use foxess_local_gateway.Protocol.Modbus.{
  is_modbus_write_success_response, is_modbus_read_response, parse_modbus_read_response,
  ReadResponse, is_modbus_read_exception, parse_modbus_read_exception, ReadException,
}
use foxess_local_gateway.Telemetry.{Telemetry, decode_telemetry, supports_ac_fault_history}
use foxess_local_gateway.Firmware.Upload.{FirmwareUploader, no_future}
use foxess_local_gateway.Server.Faults.{FaultState, Report, update_fault_state}
use foxess_local_gateway.Server.Session.{
  Session, MeshRole, root, follower, no_role, Call, Action, pure, modify, call, lift, ◌>>=◌, ◌>>◌,
  publish_state, claim_serial, unregister_handler, clear_discovery, publish_telemetry, report_fault,
  readback_result, matched, mismatch, modbus_exception, write_client, Readback,
}
use foxess_local_gateway.Server.Control.{
  serial_or_empty, known, is_some, sync_control, maybe_settle,
}

abbrev pub fresh_uploader : FirmwareUploader
fresh_uploader = record {
  active = false;
  expected_tail = none;
  ack_future = no_future;
  progress_queue = [];
  variant = none;
}

abbrev pub or_old : List ℕ → List ℕ → List ℕ
or_old [] old = old
or_old (c ∷ cs) old = c ∷ cs

abbrev pub first_value : Option ReadResponse → Option ℕ
first_value none = none
first_value (some r) = elim r.values [ [] ↦ none | v ∷ vs ↦ some v ]

-- An answer to a request of our own settles the write that waits for it.
abbrev pub resolved : Frame → Option LocalControl → Option LocalControl
resolved frame none = none
resolved frame (some c) =
    if is_our_frame c frame
    then some (resolve_response frame.device (is_modbus_write_success_response frame) c)
    else some c

-- Both entries of the key.
abbrev pub take_read : List ℕ → Session → Session
take_read key t = record t {
  pending_reads = pop key t.pending_reads;
  readbacks = pop key t.readbacks;
}

module _ {F : Type 0} where
  unfoldable pub resolve_own : Frame → Action F Bool
  unfolding is_our_frame resolve_response
  resolve_own frame = modify (λ s. record s { local_control = resolved frame s.local_control })

  -- The state of a setting that the cloud wrote to this register.
  abbrev pub written_state : ℕ → Option (List ℕ) → Option (ℕ × ℕ) → List (Call F)
  written_state address (some serial) (some (a, value)) =
      if a == address then publish_state serial value ∷ [] else []
  written_state address serial written = []

  unfoldable pub cloud_write : ℕ → Frame → Action F Bool
  unfolding normalize_device
  cloud_write address frame s =
      (if is_modbus_write_success_response frame
          then (do
            modify (λ t. record t {
              pending_writes = pop (normalize_device frame.device) t.pending_writes;
            })
            call (
                written_state address (known s.serial)
                  (get (normalize_device frame.device) s.pending_writes)))
          else pure true)
        s

  abbrev pub claim : Option (List ℕ) → Action F Bool
  claim none = pure true
  claim (some serial) = do
    call (claim_serial serial ∷ unregister_handler serial ∷ clear_discovery serial ∷ [])
    modify (λ t. record t { firmware_uploader = some fresh_uploader })

  unfoldable pub note_registration : Frame → Action F Bool
  unfolding is_registration registration_serial
  note_registration frame s =
      (if is_registration frame
          then (do
            modify (λ t. record t {
              serial = registration_serial frame;
              client_device_tail = drop 1 frame.device;
              last_client_func = frame.func;
            })
            claim (known (registration_serial frame)))
          else if not (s.client_device_tail =b []) && drop 1 frame.device =b s.client_device_tail
          then modify (λ t. record t { last_client_func = frame.func })
          else pure true)
        s

  abbrev pub learn : Option ProductInfo → Action F Bool
  learn none = sync_control
  learn (some info) = do
    modify (λ t. record t {
      model = or_old info.model t.model;
      firmware = or_old info.firmware t.firmware;
    })
    sync_control

  unfoldable pub note_product : Frame → Action F Bool
  unfolding is_product_info product_info sync_control
  note_product frame = if is_product_info frame then learn (product_info frame) else pure true

  unfoldable pub note_module : Frame → Action F Bool
  unfolding is_module_info module_info
  note_module frame =
      if is_module_info frame
      then modify (λ t. record t { module_name = or_old (module_info frame) t.module_name })
      else pure true

  unfoldable pub note_mesh : Frame → Action F Bool
  unfolding is_mesh_root_frame is_mesh_follower_frame mesh_peer_serial
  note_mesh frame =
      if is_mesh_root_frame frame
      then modify (λ t. record t { mesh_role = root; mesh_peer_serial = [] })
      else if is_mesh_follower_frame frame
      then modify
          (λ t. record t { mesh_role = follower; mesh_peer_serial = mesh_peer_serial frame })
      else pure true

  -- An empty answer is not written.
  abbrev pub send_reply : Option (List ℕ) → Action F Bool
  send_reply none = pure true
  send_reply (some bytes) = call (write_client bytes ∷ [])

  unfoldable pub answer_bootstrap : Bool → Frame → Action F Bool
  unfolding response_for
  answer_bootstrap send_bootstrap frame s =
      (if send_bootstrap
          then (do
            modify (λ t. record t { bootstrap_step = (response_for s.bootstrap_step frame).0 })
            reply ← lift (response_for s.bootstrap_step frame).1
            send_reply reply)
          else pure true)
        s

  abbrev pub fault_calls : List Report → List (Call F)
  fault_calls [] = []
  fault_calls (r ∷ rs) = report_fault r ∷ fault_calls rs

  -- `_update_fault_state`
  unfoldable pub update_faults : Frame → ℕ → Action F Bool
  unfolding update_fault_state supports_ac_fault_history
  update_faults frame now s =
      (do
        modify (λ t. record t {
          faults =
              (update_fault_state (supports_ac_fault_history s.model) frame.payload now s.faults).0;
        })
        call (
            fault_calls
              (update_fault_state (supports_ac_fault_history s.model) frame.payload now
                s.faults).1))
        s

  unfoldable pub publish_decoded : List ℕ → ℕ → Telemetry F → Action F Bool
  unfolding maybe_settle
  publish_decoded serial now telemetry = do
    call (publish_telemetry serial telemetry ∷ [])
    modify (λ t. record t { last_telemetry_at = some now })
    maybe_settle

  module _ (scaled : ℕ → ℕ → ℕ → F) (is_nonzero : F → Bool) where
    -- With the serial and the model known before the frame.
    unfoldable pub decode_and_publish : Frame → ℕ → List ℕ → List ℕ → Action F Bool
    unfolding decode_telemetry publish_decoded
    decode_and_publish frame now serial model = do
      telemetry ← lift (decode_telemetry F scaled is_nonzero frame.payload model)
      publish_decoded serial now telemetry

    unfoldable pub note_telemetry : Frame → ℕ → Action F Bool
    unfolding is_telemetry update_faults decode_and_publish
    note_telemetry frame now s =
        (if is_telemetry frame
            then (do
              update_faults frame now
              decode_and_publish frame now (serial_or_empty s.serial) s.model)
            else pure true)
          s

  abbrev pub compared : ℕ → Option (ℕ × Source) → List (Call F)
  compared actual none = []
  compared actual (some (requested, source)) =
      readback_result requested source
        (if actual == requested then matched actual else mismatch actual)
      ∷ []

  -- What the value of the register, read for us, is published as.
  abbrev pub read_state :
      ℕ → Bool → Option (List ℕ) → Option (ℕ × ℕ) → Option ℕ → Option (ℕ × Source) → List (Call F)
  read_state address true (some serial) (some (a, n)) (some actual) readback =
      if a == address then publish_state serial actual ∷ compared actual readback else []
  read_state address controlled serial pending value readback = []

  unfoldable pub note_read : ℕ → Frame → Action F Bool
  unfolding is_modbus_read_response parse_modbus_read_response normalize_device
  note_read address frame s =
      let key = normalize_device frame.device in
      (if is_modbus_read_response frame
          then (do
            modify (take_read key)
            call (
                read_state address (is_some s.local_control) (known s.serial)
                  (get key s.pending_reads) (first_value (parse_modbus_read_response frame))
                  (get key s.readbacks)))
          else pure true)
        s

  abbrev pub refused : Option ReadException → Option (ℕ × Source) → List (Call F)
  refused (some e) (some (requested, source)) =
      readback_result requested source (modbus_exception e.exception_code) ∷ []
  refused e readback = []

  unfoldable pub note_exception : Frame → Action F Bool
  unfolding is_modbus_read_exception parse_modbus_read_exception normalize_device
  note_exception frame s =
      let key = normalize_device frame.device in
      (if is_modbus_read_exception frame
          then (do
            modify (take_read key)
            call (refused (parse_modbus_read_exception frame) (get key s.readbacks)))
          else pure true)
        s

  module _ (scaled : ℕ → ℕ → ℕ → F) (is_nonzero : F → Bool) (address now : ℕ)
      (send_bootstrap : Bool) where
    unfoldable pub handle_valid : Frame → Action F Bool
    unfolding resolve_own cloud_write note_registration note_product note_module note_mesh
        answer_bootstrap note_telemetry note_read note_exception
    handle_valid frame = do
      resolve_own frame
      cloud_write address frame
      note_registration frame
      note_product frame
      note_module frame
      note_mesh frame
      answer_bootstrap send_bootstrap frame
      note_telemetry scaled is_nonzero frame now
      note_read address frame
      note_exception frame

    unfoldable pub handle_frame : Frame → Action F Bool
    unfolding handle_valid
    handle_frame frame = if frame.valid_crc then handle_valid frame else pure true
