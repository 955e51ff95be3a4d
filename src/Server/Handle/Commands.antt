-- ===== src/Server/Handle/Commands.antt =====
-- `Session.handle_frame` of foxess_local_cloud/server.py in a session that holds the handler of the
-- setpoint's commands to be registered.
pub mod Unwired
use foxess_local_gateway.Prelude.{
  arith, ℕ, ◌≡◌, refl, List, [], ◌∷◌, drop, Bool, true, false, not, ◌&&◌, ◌||◌, Option, none, some,
  ◌==◌, ◌=b◌, if-split, if◌then◌else◌,
}
use foxess_local_gateway.Protocol.Frame.{Frame}
use foxess_local_gateway.Protocol.Bootstrap.{is_registration, registration_serial, response_for}
use foxess_local_gateway.Protocol.Info.{
  is_telemetry, is_product_info, is_module_info, product_info, ProductInfo,
}
use foxess_local_gateway.Protocol.Mesh.{is_mesh_root_frame, is_mesh_follower_frame}
use foxess_local_gateway.Protocol.Modbus.{
  is_modbus_write_success_response, is_modbus_read_response, parse_modbus_read_response,
  ReadException, is_modbus_read_exception, parse_modbus_read_exception,
}
use foxess_local_gateway.Telemetry.{Telemetry, decode_telemetry, supports_ac_fault_history}
use foxess_local_gateway.LocalControl.{Source, normalize_device}
use foxess_local_gateway.Dict.{get}
use foxess_local_gateway.Server.Faults.{Report, update_fault_state}
use foxess_local_gateway.Server.Support.{supports_active_power_limit}
use foxess_local_gateway.Server.Control.{
  serial_or_empty, known, is_some, wire_at, maybe_wire, maybe_settle, sync_at, sync_control,
}
use foxess_local_gateway.Server.Session.{Session, Call, Action, pure, lift, ◌>>=◌, ◌>>◌}
use foxess_local_gateway.Server.Session.Rules.{AllCalls, Runs, then_Runs, both_Runs, if_Runs}
use foxess_local_gateway.Server.Handle.{
  resolve_own, written_state, cloud_write, claim, note_registration, learn, note_product,
  note_module, note_mesh, send_reply, answer_bootstrap, fault_calls, update_faults, publish_decoded,
  decode_and_publish, or_old, note_telemetry, first_value, compared, read_state, note_read, refused,
  note_exception, handle_valid, handle_frame,
}
use foxess_local_gateway.Server.Handle.Commands.Unwired.{
  NoHandler, Any, Never, reports-NoHandler, if_Never, maybe_settle-Never, note_module-Never,
  note_mesh-Never, answer_bootstrap-Never, note_read-Never, note_exception-Never,
  note_telemetry-Never,
}
use foxess_local_gateway.Server.Handle.Reports.{cloud_write-Reports}

module _ (F : Type 0) where
  -- The session holds its handler to be registered.
  abbrev pub Wired : Session → Type 0
  Wired s = s.command_registered ≡ true

  -- A session that holds its handler to be registered does not register it.
  wire_at-Wired :
      (s : Session) (o : Option (List ℕ))
      → Wired s
      → Runs (Any F) (wire_at s o) (Any F) (NoHandler F)
  wire_at-Wired s none wired = (λ t q. (tt, tt))
  wire_at-Wired s (some serial) wired =
      if_Runs (Any F) (Any F) (NoHandler F)
        (s.command_registered
          || not (is_some s.local_control)
          || not (supports_active_power_limit s.model s.firmware))
        _ _ (λ e t q. (tt, tt)) (λ e. absurd (ground (arith, wired)))

  maybe_wire-Wired : Runs Wired maybe_wire (Any F) (NoHandler F)
  unfolding maybe_wire
  maybe_wire-Wired s wired = wire_at-Wired s (known s.serial) wired s tt

  sync_at-Wired :
      (s : Session) (o : Option (List ℕ)) → Runs Wired (sync_at s o) (Any F) (NoHandler F)
  sync_at-Wired s none = (λ t q. (tt, tt))
  sync_at-Wired s (some serial) =
      if_Runs Wired (Any F) (NoHandler F) (not (is_some s.local_control)) _ _ (λ e t q. (tt, tt))
        (λ e.
          if_Runs Wired (Any F) (NoHandler F) (supports_active_power_limit s.model s.firmware) _ _
            (λ d.
              then_Runs Wired (Any F) (Any F) (NoHandler F) maybe_wire (λ a. maybe_settle)
                maybe_wire-Wired (λ t q. q) (λ a. maybe_settle-Never F))
            (λ d t q. (tt, (tt, (tt, tt)))))

  sync_control-Wired : Runs Wired sync_control (Any F) (NoHandler F)
  unfolding sync_control
  sync_control-Wired s wired = sync_at-Wired s (known s.serial) s wired

  learn-Wired : (o : Option ProductInfo) → Runs Wired (learn o) (Any F) (NoHandler F)
  learn-Wired none s wired = sync_control-Wired s wired
  learn-Wired (some info) s wired =
      sync_control-Wired
        (record s { model = or_old info.model s.model; firmware = or_old info.firmware s.firmware })
        wired

  claim-Wired : (o : Option (List ℕ)) → Runs Wired (claim o) Wired (NoHandler F)
  claim-Wired none s wired = (wired, tt)
  claim-Wired (some serial) s wired = (wired, (tt, (tt, (tt, tt))))

  module _ (f : Frame) where
    note_product-Wired : Runs Wired (note_product f) (Any F) (NoHandler F)
    unfolding note_product
    note_product-Wired =
        if_Runs Wired (Any F) (NoHandler F) (is_product_info f) _ _
          (λ e. learn-Wired (product_info f)) (λ e t q. (tt, tt))

    pub resolve_own-Wired : Runs Wired (resolve_own f) Wired (NoHandler F)
    unfolding resolve_own
    resolve_own-Wired s wired = (wired, tt)

    pub cloud_write-Wired : (address : ℕ) → Runs Wired (cloud_write address f) Wired (NoHandler F)
    cloud_write-Wired address =
        cloud_write-Reports F (NoHandler F) (reports-NoHandler F) Wired f address (λ s key h. h)

    pub note_registration-Wired : Runs Wired (note_registration f) Wired (NoHandler F)
    unfolding note_registration
    note_registration-Wired s =
        if_Runs Wired Wired (NoHandler F) (is_registration f) _ _
          (λ e t q.
            claim-Wired (known (registration_serial f))
              (record t {
                serial = registration_serial f;
                client_device_tail = drop 1 f.device;
                last_client_func = f.func;
              })
              q)
          (λ e.
            if_Runs Wired Wired (NoHandler F)
              (not (s.client_device_tail =b []) && drop 1 f.device =b s.client_device_tail) _ _
              (λ d t q. (q, tt)) (λ d t q. (q, tt)))
          s

    module _ (scaled : ℕ → ℕ → ℕ → F) (is_nonzero : F → Bool) (address now : ℕ)
        (send_bootstrap : Bool) where
      -- What is left of the method after some of its paragraphs.
      abbrev product_rest : Action F Bool
      product_rest = do
        note_module f
        note_mesh f
        answer_bootstrap send_bootstrap f
        note_telemetry scaled is_nonzero f now
        note_read address f
        note_exception f

      abbrev pub registration_rest : Action F Bool
      registration_rest = note_product f >> product_rest

      abbrev write_rest : Action F Bool
      write_rest = note_registration f >> registration_rest

      both : (m k : Action F Bool) → Never F m → Never F k → Never F (m >> k)
      both m k h r = both_Runs (Any F) (NoHandler F) m (λ a. k) h (λ a. r)

      product_rest-Never : Never F product_rest
      product_rest-Never =
          both (note_module f)
            (note_mesh f
              >> (answer_bootstrap send_bootstrap f
                  >> (note_telemetry scaled is_nonzero f now
                      >> (note_read address f >> note_exception f))))
            (note_module-Never F f)
            (both (note_mesh f)
              (answer_bootstrap send_bootstrap f
                >> (note_telemetry scaled is_nonzero f now
                    >> (note_read address f >> note_exception f)))
              (note_mesh-Never F f)
              (both (answer_bootstrap send_bootstrap f)
                (note_telemetry scaled is_nonzero f now
                  >> (note_read address f >> note_exception f))
                (answer_bootstrap-Never F f send_bootstrap)
                (both (note_telemetry scaled is_nonzero f now)
                  (note_read address f >> note_exception f)
                  (note_telemetry-Never F f scaled is_nonzero address now send_bootstrap)
                  (both (note_read address f) (note_exception f) (note_read-Never F f address)
                    (note_exception-Never F f)))))

      step :
          (m rest : Action F Bool)
          → Runs Wired m Wired (NoHandler F)
          → Runs Wired rest (Any F) (NoHandler F)
          → Runs Wired (m >> rest) (Any F) (NoHandler F)
      step m rest h r =
          then_Runs Wired Wired (Any F) (NoHandler F) m (λ a. rest) h (λ s p. tt) (λ a. r)

      pub registration_rest-Wired : Runs Wired registration_rest (Any F) (NoHandler F)
      registration_rest-Wired =
          then_Runs Wired (Any F) (Any F) (NoHandler F) (note_product f) (λ a. product_rest)
            note_product-Wired (λ s p. tt) (λ a. product_rest-Never)

      handle_valid-Wired :
          Runs Wired
            (handle_valid scaled is_nonzero address now send_bootstrap f)
            (Any F)
            (NoHandler F)
      unfolding handle_valid
      handle_valid-Wired =
          step (resolve_own f) (cloud_write address f >> write_rest) resolve_own-Wired (
            step (cloud_write address f) write_rest (cloud_write-Wired address) (
              step (note_registration f) registration_rest note_registration-Wired
                registration_rest-Wired))

      pub handle_frame-Wired :
          Runs Wired
            (handle_frame scaled is_nonzero address now send_bootstrap f)
            (Any F)
            (NoHandler F)
      unfolding handle_frame
      handle_frame-Wired =
          if_Runs Wired (Any F) (NoHandler F) f.valid_crc _ _ (λ e. handle_valid-Wired)
            (λ e t q. (tt, tt))
