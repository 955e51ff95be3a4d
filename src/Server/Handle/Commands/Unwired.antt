-- ===== src/Server/Handle/Commands/Unwired.antt =====
-- The paragraphs of `Session.handle_frame` of foxess_local_cloud/server.py that register no handler for
-- the setpoint's commands.
use foxess_local_gateway.Prelude.{
  arith, ℕ, List, [], ◌∷◌, Bool, not, ◌||◌, Option, none, some, if◌then◌else◌,
}
use foxess_local_gateway.Protocol.Frame.{Frame}
use foxess_local_gateway.Protocol.Bootstrap.{response_for}
use foxess_local_gateway.Protocol.Info.{is_telemetry, is_module_info}
use foxess_local_gateway.Protocol.Mesh.{is_mesh_root_frame, is_mesh_follower_frame}
use foxess_local_gateway.Telemetry.{Telemetry, decode_telemetry, supports_ac_fault_history}
use foxess_local_gateway.Server.Faults.{Report, update_fault_state}
use foxess_local_gateway.Server.Control.{serial_or_empty, is_some, maybe_settle}
use foxess_local_gateway.Server.Session.{
  announce_limit, Session, Call, Action, lift, register_handler,
}
use foxess_local_gateway.Server.Session.Rules.{AllCalls, Runs, both_Runs, if_Runs}
use foxess_local_gateway.Server.Handle.{
  note_module, note_mesh, send_reply, answer_bootstrap, fault_calls, update_faults, publish_decoded,
  decode_and_publish, note_telemetry, note_read, note_exception,
}
use foxess_local_gateway.Server.Handle.Reports.{Reports, note_read-Reports, note_exception-Reports}

module _ (F : Type 0) where
  -- Any call but the registration of a command handler and the announcement of the entities.
  abbrev pub NoHandler : Call F → Type 0
  NoHandler (register_handler serial) = ⊥
  NoHandler (announce_limit serial) = ⊥
  NoHandler c = Unit

  abbrev pub Any : Session → Type 0
  Any s = Unit {0}

  abbrev pub Never : Action F Bool → Type 0
  Never m = Runs Any m Any NoHandler

  pub if_Never : (b : Bool) (m k : Action F Bool) → Never m → Never k → Never (if b then m else k)
  if_Never b m k hm hk = if_Runs Any Any NoHandler b m k (λ _. hm) (λ _. hk)

  pub reports-NoHandler : (c : Call F) → Reports c → NoHandler c
  reports-NoHandler c r = ground arith

  fault_calls-NoHandler : (rs : List Report) → AllCalls NoHandler (fault_calls {F = F} rs)
  fault_calls-NoHandler [] = tt
  fault_calls-NoHandler (r ∷ rs) = (tt, fault_calls-NoHandler rs)

  send_reply-Never : (o : Option (List ℕ)) → Never (send_reply o)
  send_reply-Never none s p = (tt, tt)
  send_reply-Never (some bytes) s p = (tt, (tt, tt))

  pub maybe_settle-Never : Never maybe_settle
  unfolding maybe_settle
  maybe_settle-Never s =
      if_Never
        (s.settle_scheduled
          || not (is_some s.last_telemetry_at)
          || not (is_some s.local_control)
          || not s.command_registered)
        _ _ (λ t q. (tt, tt)) (λ t q. (tt, (tt, tt))) s

  module _ (f : Frame) where
    pub note_module-Never : Never (note_module f)
    unfolding note_module
    note_module-Never = if_Never (is_module_info f) _ _ (λ t q. (tt, tt)) (λ t q. (tt, tt))

    pub note_mesh-Never : Never (note_mesh f)
    unfolding note_mesh
    note_mesh-Never =
        if_Never (is_mesh_root_frame f) _ _ (λ t q. (tt, tt))
          (if_Never (is_mesh_follower_frame f) _ _ (λ t q. (tt, tt)) (λ t q. (tt, tt)))

    pub answer_bootstrap-Never : (b : Bool) → Never (answer_bootstrap b f)
    unfolding answer_bootstrap
    answer_bootstrap-Never b s =
        if_Never b _ _
          (λ t q.
            both_Runs Any NoHandler (lift (response_for s.bootstrap_step f).1) send_reply
              (λ u r. (tt, tt)) send_reply-Never
              (record t { bootstrap_step = (response_for s.bootstrap_step f).0 }) q)
          (λ t q. (tt, tt)) s

    pub note_read-Never : (address : ℕ) → Never (note_read address f)
    note_read-Never address =
        note_read-Reports F NoHandler reports-NoHandler Any f address (λ s key h. tt)

    pub note_exception-Never : Never (note_exception f)
    note_exception-Never =
        note_exception-Reports F NoHandler reports-NoHandler Any f (λ s key h. tt)

    publish_decoded-Never :
        (serial : List ℕ) (now : ℕ) (t : Telemetry F) → Never (publish_decoded serial now t)
    unfolding publish_decoded
    publish_decoded-Never serial now t s p =
        let (kept, made) = maybe_settle-Never (record s { last_telemetry_at = some now }) tt in
        (kept, (tt, made))

    update_faults-Never : (now : ℕ) → Never (update_faults f now)
    unfolding update_faults
    update_faults-Never now s p = (
      tt,
      fault_calls-NoHandler
          (update_fault_state (supports_ac_fault_history s.model) f.payload now s.faults).1,
    )

    module _ (scaled : ℕ → ℕ → ℕ → F) (is_nonzero : F → Bool) (address now : ℕ)
        (send_bootstrap : Bool) where
      decode_and_publish-Never :
          (serial model : List ℕ) → Never (decode_and_publish scaled is_nonzero f now serial model)
      unfolding decode_and_publish
      decode_and_publish-Never serial model =
          both_Runs Any NoHandler (lift (decode_telemetry F scaled is_nonzero f.payload model))
            (publish_decoded serial now) (λ s p. (tt, tt)) (publish_decoded-Never serial now)

      pub note_telemetry-Never : Never (note_telemetry scaled is_nonzero f now)
      unfolding note_telemetry
      note_telemetry-Never s =
          if_Never (is_telemetry f) _ _
            (both_Runs Any NoHandler (update_faults f now)
              (λ a. decode_and_publish scaled is_nonzero f now (serial_or_empty s.serial) s.model)
              (update_faults-Never now)
              (λ a. decode_and_publish-Never (serial_or_empty s.serial) s.model))
            (λ t q. (tt, tt)) s
