-- ===== src/Server/Relay/Keeping.antt =====
-- `Session.handle_frame` of foxess_local_cloud/server.py keeps what is said of local control and of the
-- firmware upload alone, and writes nothing to the cloud.
use foxess_local_gateway.Prelude.{ℕ, arith, Bool, Option, some}
use foxess_local_gateway.LocalControl.{LocalControl}
use foxess_local_gateway.Protocol.Frame.{Frame}
use foxess_local_gateway.Firmware.Upload.{FirmwareUploader}
use foxess_local_gateway.Server.Session.{Session, Call, Action, ◌>>◌, write_upstream}
use foxess_local_gateway.Server.Session.Rules.{Runs, then_Runs, if_Runs}
use foxess_local_gateway.Server.Handle.{
  resolved, resolve_own, cloud_write, note_registration, note_product, note_module, note_mesh,
  answer_bootstrap, note_telemetry, note_read, note_exception, handle_valid, handle_frame,
  fresh_uploader,
}
use foxess_local_gateway.Server.Handle.Middle.{
  Quiet, Keeps, weaker_Runs, note_registration-Keeps, note_product-Keeps, note_module-Keeps,
  note_mesh-Keeps, answer_bootstrap-Keeps, note_telemetry-Keeps,
}
use foxess_local_gateway.Server.Handle.Reports.{
  Reports, cloud_write-Reports, note_read-Reports, note_exception-Reports,
}

-- Local control, and the firmware upload.
abbrev pub Control : Type 1
Control = Option LocalControl → Option FirmwareUploader → Type 0

abbrev pub At : Control → Session → Type 0
At kept s = kept s.local_control s.firmware_uploader

module _ {F : Type 0} where
  abbrev pub NotCloud : Call F → Type 0
  NotCloud (write_upstream bytes) = ⊥
  NotCloud c = Unit

  Quiet-NotCloud : (c : Call F) → Quiet c → NotCloud c
  Quiet-NotCloud c q = ground arith

  Reports-NotCloud : (c : Call F) → Reports c → NotCloud c
  Reports-NotCloud c r = ground arith

module _ (F : Type 0) (kept : Control)
    (restarts : (s : Session)
      → At kept s
      → At kept (record s { firmware_uploader = some fresh_uploader }))
    (resolves : (f : Frame) (s : Session)
      → At kept s
      → At kept (record s { local_control = resolved f s.local_control })) where
  abbrev Passes : Action F Bool → Type 0
  Passes m = Runs (At kept) m (At kept) NotCloud

  middle :
      (m : Action F Bool) → Keeps F (λ reads readbacks writes c u. kept c u) restarts m → Passes m
  middle m h = weaker_Runs (At kept) (At kept) NotCloud m Quiet-NotCloud h

  both : (m k : Action F Bool) → Passes m → Passes k → Passes (m >> k)
  both m k h r = then_Runs (At kept) (At kept) (At kept) NotCloud m (λ a. k) h (λ s p. p) (λ a. r)

  module _ (f : Frame) where
    resolve_own-Passes : Passes (resolve_own f)
    unfolding resolve_own
    resolve_own-Passes s p = (resolves f s p, tt)

    module _ (scaled : ℕ → ℕ → ℕ → F) (is_nonzero : F → Bool) (address now : ℕ)
        (send_bootstrap : Bool) where
      -- What is left of the method after some of its paragraphs.
      abbrev telemetry_rest : Action F Bool
      telemetry_rest = note_read address f >> note_exception f

      abbrev mesh_rest : Action F Bool
      mesh_rest =
          answer_bootstrap send_bootstrap f
          >> (note_telemetry scaled is_nonzero f now >> telemetry_rest)

      abbrev write_rest : Action F Bool
      write_rest =
          note_registration f >> (note_product f >> (note_module f >> (note_mesh f >> mesh_rest)))

      mesh_rest-Passes : Passes mesh_rest
      mesh_rest-Passes =
          both (answer_bootstrap send_bootstrap f)
            (note_telemetry scaled is_nonzero f now >> telemetry_rest)
            (middle (answer_bootstrap send_bootstrap f) (
              answer_bootstrap-Keeps F (λ reads readbacks writes c u. kept c u) restarts
                send_bootstrap f))
            (both (note_telemetry scaled is_nonzero f now) telemetry_rest
              (middle (note_telemetry scaled is_nonzero f now) (
                note_telemetry-Keeps F (λ reads readbacks writes c u. kept c u) restarts scaled
                  is_nonzero f now))
              (both (note_read address f) (note_exception f)
                (note_read-Reports F NotCloud Reports-NotCloud (At kept) f address (λ s key h. h))
                (note_exception-Reports F NotCloud Reports-NotCloud (At kept) f (λ s key h. h))))

      write_rest-Passes : Passes write_rest
      write_rest-Passes =
          both (note_registration f)
            (note_product f >> (note_module f >> (note_mesh f >> mesh_rest)))
            (middle (note_registration f)
              (note_registration-Keeps F (λ reads readbacks writes c u. kept c u) restarts f))
            (both (note_product f) (note_module f >> (note_mesh f >> mesh_rest))
              (middle (note_product f)
                (note_product-Keeps F (λ reads readbacks writes c u. kept c u) restarts f))
              (both (note_module f) (note_mesh f >> mesh_rest)
                (middle (note_module f)
                  (note_module-Keeps F (λ reads readbacks writes c u. kept c u) restarts f))
                (both (note_mesh f) mesh_rest
                  (middle (note_mesh f)
                    (note_mesh-Keeps F (λ reads readbacks writes c u. kept c u) restarts f))
                  mesh_rest-Passes)))

      pub handle_frame-Passes : Passes (handle_frame scaled is_nonzero address now send_bootstrap f)
      unfolding handle_frame handle_valid
      handle_frame-Passes =
          if_Runs (At kept) (At kept) NotCloud f.valid_crc _ _
            (λ e. both (resolve_own f) (cloud_write address f >> write_rest) resolve_own-Passes (
              both (cloud_write address f) write_rest
                (cloud_write-Reports F NotCloud Reports-NotCloud (At kept) f address (λ s key h. h))
                write_rest-Passes))
            (λ e s p. (p, tt))
