-- ===== src/Server/Handle/Middle.antt =====
-- What the middle of `Session.handle_frame` of foxess_local_cloud/server.py, from the registration to the
-- telemetry, leaves alone: the pending requests, local control, and the reports about them.
use foxess_local_gateway.Prelude.{
  ℕ, List, [], ◌∷◌, drop, Bool, not, ◌&&◌, ◌||◌, Option, none, some, ◌=b◌, if◌then◌else◌,
}
use foxess_local_gateway.LocalControl.{LocalControl, Source}
use foxess_local_gateway.Protocol.Frame.{Frame}
use foxess_local_gateway.Protocol.Bootstrap.{is_registration, registration_serial, response_for}
use foxess_local_gateway.Protocol.Info.{
  is_telemetry, is_product_info, is_module_info, product_info, ProductInfo,
}
use foxess_local_gateway.Protocol.Mesh.{is_mesh_root_frame, is_mesh_follower_frame}
use foxess_local_gateway.Telemetry.{Telemetry, decode_telemetry, supports_ac_fault_history}
use foxess_local_gateway.Firmware.Upload.{FirmwareUploader}
use foxess_local_gateway.Server.Faults.{Report, update_fault_state}
use foxess_local_gateway.Server.Support.{supports_active_power_limit}
use foxess_local_gateway.Server.Control.{
  serial_or_empty, known, is_some, wire_at, maybe_wire, maybe_settle, sync_at, sync_control,
}
use foxess_local_gateway.Server.Session.{
  Session, Call, Action, lift, publish_state, readback_result, write_upstream,
}
use foxess_local_gateway.Server.Session.Rules.{AllCalls, Runs, both_Runs, lift_Runs, if_Runs}
use foxess_local_gateway.Server.Handle.{
  fresh_uploader, claim, note_registration, learn, note_product, note_module, note_mesh, send_reply,
  answer_bootstrap, fault_calls, update_faults, publish_decoded, decode_and_publish, note_telemetry,
  or_old,
}

-- The pending reads, the readbacks, the cloud's writes, local control and the firmware upload.
abbrev pub Held : Type 1
Held =
    List (List ℕ × (ℕ × ℕ))
    → List (List ℕ × (ℕ × Source))
    → List (List ℕ × (ℕ × ℕ))
    → Option LocalControl
    → Option FirmwareUploader
    → Type 0

abbrev pub Holding : Held → Session → Type 0
Holding held s =
    held s.pending_reads s.readbacks s.pending_writes s.local_control s.firmware_uploader

module _ {F : Type 0} where
  -- Neither a state of the setpoint, nor the result of a readback, nor bytes for the cloud.
  abbrev pub Quiet : Call F → Type 0
  Quiet (publish_state serial value) = ⊥
  Quiet (readback_result value source r) = ⊥
  Quiet (write_upstream bytes) = ⊥
  Quiet c = Unit

  all_weaker :
      (good : Call F → Type 0)
      → ((c : Call F) → Quiet c → good c)
      → (cs : List (Call F)) → AllCalls Quiet cs
      → AllCalls good cs
  all_weaker good w [] h = tt
  all_weaker good w (c ∷ cs) (hc, h) = (w c hc, all_weaker good w cs h)

  pub weaker_Runs :
      {A : Type 0} (pre post : Session → Type 0) (good : Call F → Type 0) (m : Action F A)
      → ((c : Call F) → Quiet c → good c)
      → Runs pre m post Quiet
      → Runs pre m post good
  weaker_Runs pre post good m w h s p =
      let (kept, made) = h s p in (kept, all_weaker good w (m s).calls made)

-- A new upload, not started, may take the place of the one there.
abbrev pub Restarts : Held → Type 0
Restarts held =
    (s : Session)
    → Holding held s
    → Holding held (record s { firmware_uploader = some fresh_uploader })

module _ (F : Type 0) (held : Held) (restarts : Restarts held) where
  abbrev pub Keeps : Action F Bool → Type 0
  Keeps m = Runs (Holding held) m (Holding held) Quiet

  if_Keeps : (b : Bool) (m k : Action F Bool) → Keeps m → Keeps k → Keeps (if b then m else k)
  if_Keeps b m k hm hk = if_Runs (Holding held) (Holding held) Quiet b m k (λ _. hm) (λ _. hk)

  claim-Keeps : (o : Option (List ℕ)) → Keeps (claim o)
  claim-Keeps none s p = (p, tt)
  claim-Keeps (some serial) s p = (restarts s p, (tt, (tt, (tt, tt))))

  pub note_registration-Keeps : (f : Frame) → Keeps (note_registration f)
  unfolding note_registration
  note_registration-Keeps f s p =
      if_Keeps (is_registration f) _ _
        (λ t q.
          claim-Keeps (known (registration_serial f))
            (record t {
              serial = registration_serial f;
              client_device_tail = drop 1 f.device;
              last_client_func = f.func;
            })
            q)
        (if_Keeps (not (s.client_device_tail =b []) && drop 1 f.device =b s.client_device_tail) _ _
          (λ t q. (q, tt)) (λ t q. (q, tt)))
        s p

  maybe_settle-Keeps : Keeps maybe_settle
  unfolding maybe_settle
  maybe_settle-Keeps s p =
      if_Keeps
        (s.settle_scheduled
          || not (is_some s.last_telemetry_at)
          || not (is_some s.local_control)
          || not s.command_registered)
        _ _ (λ t q. (q, tt)) (λ t q. (q, (tt, tt))) s p

  wire_at-Keeps : (s : Session) (o : Option (List ℕ)) → Keeps (wire_at s o)
  wire_at-Keeps s none = (λ t q. (q, tt))
  wire_at-Keeps s (some serial) =
      if_Keeps
        (s.command_registered
          || not (is_some s.local_control)
          || not (supports_active_power_limit s.model s.firmware))
        _ _ (λ t q. (q, tt)) (λ t q. (q, (tt, (tt, tt))))

  maybe_wire-Keeps : Keeps maybe_wire
  unfolding maybe_wire
  maybe_wire-Keeps s p = wire_at-Keeps s (known s.serial) s p

  sync_at-Keeps : (s : Session) (o : Option (List ℕ)) → Keeps (sync_at s o)
  sync_at-Keeps s none = (λ t q. (q, tt))
  sync_at-Keeps s (some serial) =
      if_Keeps (not (is_some s.local_control)) _ _ (λ t q. (q, tt))
        (if_Keeps (supports_active_power_limit s.model s.firmware) _ _
          (both_Runs (Holding held) Quiet maybe_wire (λ a. maybe_settle) maybe_wire-Keeps
            (λ a. maybe_settle-Keeps))
          (λ t q. (q, (tt, (tt, tt)))))

  sync_control-Keeps : Keeps sync_control
  unfolding sync_control
  sync_control-Keeps s p = sync_at-Keeps s (known s.serial) s p

  learn-Keeps : (o : Option ProductInfo) → Keeps (learn o)
  learn-Keeps none s p = sync_control-Keeps s p
  learn-Keeps (some info) s p =
      sync_control-Keeps
        (record s { model = or_old info.model s.model; firmware = or_old info.firmware s.firmware })
        p

  pub note_product-Keeps : (f : Frame) → Keeps (note_product f)
  unfolding note_product
  note_product-Keeps f =
      if_Keeps (is_product_info f) _ _ (learn-Keeps (product_info f)) (λ t q. (q, tt))

  pub note_module-Keeps : (f : Frame) → Keeps (note_module f)
  unfolding note_module
  note_module-Keeps f = if_Keeps (is_module_info f) _ _ (λ t q. (q, tt)) (λ t q. (q, tt))

  pub note_mesh-Keeps : (f : Frame) → Keeps (note_mesh f)
  unfolding note_mesh
  note_mesh-Keeps f =
      if_Keeps (is_mesh_root_frame f) _ _ (λ t q. (q, tt))
        (if_Keeps (is_mesh_follower_frame f) _ _ (λ t q. (q, tt)) (λ t q. (q, tt)))

  send_reply-Keeps : (o : Option (List ℕ)) → Keeps (send_reply o)
  send_reply-Keeps none s p = (p, tt)
  send_reply-Keeps (some bytes) s p = (p, (tt, tt))

  pub answer_bootstrap-Keeps : (b : Bool) (f : Frame) → Keeps (answer_bootstrap b f)
  unfolding answer_bootstrap
  answer_bootstrap-Keeps b f s p =
      if_Keeps b _ _
        (λ t q.
          both_Runs (Holding held) Quiet (lift (response_for s.bootstrap_step f).1) send_reply
            (lift_Runs {F = F} (Holding held) Quiet (response_for s.bootstrap_step f).1)
            send_reply-Keeps (record t { bootstrap_step = (response_for s.bootstrap_step f).0 }) q)
        (λ t q. (q, tt)) s p

  fault_calls-Quiet : (rs : List Report) → AllCalls Quiet (fault_calls {F = F} rs)
  fault_calls-Quiet [] = tt
  fault_calls-Quiet (r ∷ rs) = (tt, fault_calls-Quiet rs)

  update_faults-Keeps : (f : Frame) (now : ℕ) → Keeps (update_faults f now)
  unfolding update_faults
  update_faults-Keeps f now s p = (
    p,
    fault_calls-Quiet
        (update_fault_state (supports_ac_fault_history s.model) f.payload now s.faults).1,
  )

  publish_decoded-Keeps :
      (serial : List ℕ) (now : ℕ) (t : Telemetry F) → Keeps (publish_decoded serial now t)
  unfolding publish_decoded
  publish_decoded-Keeps serial now t s p =
      let (kept, made) = maybe_settle-Keeps (record s { last_telemetry_at = some now }) p in
      (kept, (tt, made))

  module _ (scaled : ℕ → ℕ → ℕ → F) (is_nonzero : F → Bool) where
    decode_and_publish-Keeps :
        (f : Frame) (now : ℕ) (serial model : List ℕ)
        → Keeps (decode_and_publish scaled is_nonzero f now serial model)
    unfolding decode_and_publish
    decode_and_publish-Keeps f now serial model =
        both_Runs (Holding held) Quiet (lift (decode_telemetry F scaled is_nonzero f.payload model))
          (publish_decoded serial now)
          (lift_Runs {F = F} (Holding held) Quiet
            (decode_telemetry F scaled is_nonzero f.payload model))
          (publish_decoded-Keeps serial now)

    pub note_telemetry-Keeps :
        (f : Frame) (now : ℕ) → Keeps (note_telemetry scaled is_nonzero f now)
    unfolding note_telemetry
    note_telemetry-Keeps f now s p =
        if_Keeps (is_telemetry f) _ _
          (both_Runs (Holding held) Quiet (update_faults f now)
            (λ a. decode_and_publish scaled is_nonzero f now (serial_or_empty s.serial) s.model)
            (update_faults-Keeps f now)
            (λ a. decode_and_publish-Keeps f now (serial_or_empty s.serial) s.model))
          (λ t q. (q, tt)) s p
