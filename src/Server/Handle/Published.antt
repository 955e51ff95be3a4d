-- ===== src/Server/Handle/Published.antt =====
-- Why `Session.handle_frame` of foxess_local_cloud/server.py publishes the state of the setpoint, or
-- reports a readback.
use foxess_local_gateway.Prelude.{ℕ, ◌≡◌, ◌≢◌, ◌⊎◌, inr, ap, List, Bool, true, none, some}
use foxess_local_gateway.Dict.{get}
use foxess_local_gateway.LocalControl.{LocalControl, normalize_device}
use foxess_local_gateway.Protocol.Frame.{Frame}
use foxess_local_gateway.Protocol.Modbus.{
  is_modbus_write_success_response, is_modbus_read_response, parse_modbus_read_response,
  ReadException, is_modbus_read_exception, parse_modbus_read_exception,
}
use foxess_local_gateway.Server.Control.{is_some}
use foxess_local_gateway.Server.Session.{
  Session, Call, Action, ◌>>◌, publish_state, readback_result, Readback, matched, mismatch,
  modbus_exception, no_answer, unsent, failed,
}
use foxess_local_gateway.Server.Handle.{
  note_registration, note_product, note_module, note_mesh, answer_bootstrap, note_telemetry,
  first_value, note_read, note_exception,
}
use foxess_local_gateway.Server.Handle.Middle.{Held, Holding}

module _ (F : Type 0) (address : ℕ) (f : Frame) (s0 : Session) where
  abbrev key : List ℕ
  key = normalize_device f.device

  -- The cloud wrote the value to the register, and this frame is the inverter's success response; or
  -- the register was read, and this frame is the read response with the value first.
  abbrev pub Supported : ℕ → Type 0
  Supported value =
      ((is_modbus_write_success_response f ≡ true)
        × (get key s0.pending_writes ≡ some (address, value)))
      ⊎ ((count : ℕ) × (is_modbus_read_response f ≡ true)
          × (get key s0.pending_reads ≡ some (address, count))
          × (first_value (parse_modbus_read_response f) ≡ some value))

  -- The frame is a read response with `value` first.
  abbrev pub Answers : ℕ → Type 0
  Answers value =
      (is_modbus_read_response f ≡ true) × (first_value (parse_modbus_read_response f) ≡ some value)

  -- The result is what the frame says of the value that was asked for.
  abbrev pub Agrees : ℕ → Readback → Type 0
  Agrees requested (matched value) = Answers value × (value ≡ requested)
  Agrees requested (mismatch value) = Answers value × (value ≢ requested)
  Agrees requested (modbus_exception code) =
      (e : ReadException) × (is_modbus_read_exception f ≡ true)
      × (parse_modbus_read_exception f ≡ some e)
      × (code ≡ e.exception_code)
  Agrees requested no_answer = ⊥
  Agrees requested unsent = ⊥
  Agrees requested failed = ⊥

  abbrev pub Justified : Call F → Type 0
  Justified (publish_state serial value) = Supported value
  Justified (readback_result requested source result) =
      (get key s0.readbacks ≡ some (requested, source)) × Agrees requested result
  Justified c = Unit

  -- What the middle keeps, and what the last action finds.
  abbrev known_reads : Held
  known_reads reads readbacks writes c u =
      (reads ≡ s0.pending_reads)
      × (readbacks ≡ s0.readbacks)
      × (is_some c ≡ is_some s0.local_control)

  abbrev known_all : Held
  known_all reads readbacks writes c u =
      known_reads reads readbacks writes c u × (writes ≡ s0.pending_writes)

  abbrev AtMost : Session → Type 0
  AtMost s = (get key s.readbacks ≡ none) ⊎ (get key s.readbacks ≡ get key s0.readbacks)

  module _ (scaled : ℕ → ℕ → ℕ → F) (is_nonzero : F → Bool) (now : ℕ) (send_bootstrap : Bool) where
    reads-AtMost : (s : Session) → Holding known_reads s → AtMost s
    reads-AtMost s h = inr (ap (get key) (h.1))

    -- What is left of the method after each of its paragraphs.
    abbrev telemetry_rest : Action F Bool
    telemetry_rest = note_read address f >> note_exception f

    abbrev bootstrap_rest : Action F Bool
    bootstrap_rest = note_telemetry scaled is_nonzero f now >> telemetry_rest

    abbrev mesh_rest : Action F Bool
    mesh_rest = answer_bootstrap send_bootstrap f >> bootstrap_rest

    abbrev module_rest : Action F Bool
    module_rest = note_mesh f >> mesh_rest

    abbrev product_rest : Action F Bool
    product_rest = note_module f >> module_rest

    abbrev registration_rest : Action F Bool
    registration_rest = note_product f >> product_rest

    abbrev write_rest : Action F Bool
    write_rest = note_registration f >> registration_rest
