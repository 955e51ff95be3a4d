-- ===== src/Server/Control.antt =====
-- The ActivePowerLimit workflow of `Session` in foxess_local_cloud/server.py: the MQTT command path,
-- and the settling that telemetry starts. `address` and `waits` are the configured register and
-- whether a write waits for its answer.
pub mod Setpoint
pub mod Delivery
use foxess_local_gateway.Prelude.{
  ℕ, List, [], ◌∷◌, Bool, true, false, not, ◌&&◌, ◌||◌, Option, none, some, Result, ok, err, ◌=b◌,
  if◌then◌else◌,
}
use foxess_local_gateway.Dict.{get, put, pop}
use foxess_local_gateway.LocalControl.{LocalControl, Registry, Source}
use foxess_local_gateway.Server.Session.{
  Session, Call, Action, pure, modify, call, gets, ◌>>=◌, ◌>>◌, register_handler, announce_limit,
  unregister_handler, clear_discovery, schedule_settle, readback_result, no_answer,
}
use foxess_local_gateway.Server.Support.{supports_active_power_limit}

-- `_register_pending_read` and `_unregister_pending_read`
unfoldable pub register_pending_read : List ℕ → ℕ → ℕ → Option ℕ → Source → Session → Session
register_pending_read key address count none source s = record s {
  pending_reads = put key (address, count) s.pending_reads;
}
register_pending_read key address count (some expected) source s = record s {
  pending_reads = put key (address, count) s.pending_reads;
  readbacks = put key (expected, source) s.readbacks;
}

unfoldable pub unregister_pending_read : List ℕ → Session → Session
unregister_pending_read key s = record s {
  pending_reads = pop key s.pending_reads;
  readbacks = pop key s.readbacks;
}

abbrev pub session_reads : Registry Session
session_reads = record { register = register_pending_read; unregister = unregister_pending_read }

-- A serial that is known and not empty.
abbrev pub known : Option (List ℕ) → Option (List ℕ)
known none = none
known (some []) = none
known (some (c ∷ cs)) = some (c ∷ cs)

abbrev pub serial_or_empty : Option (List ℕ) → List ℕ
serial_or_empty none = []
serial_or_empty (some serial) = serial

abbrev pub is_some {ℓ} : {A : Type ℓ} → Option A → Bool
is_some none = false
is_some (some a) = true

module _ {F : Type 0} where
  -- `_maybe_wire_active_power_limit_mqtt`
  abbrev pub wire_at : Session → Option (List ℕ) → Action F Bool
  wire_at s none = pure true
  wire_at s (some serial) =
      if s.command_registered
        || not (is_some s.local_control)
        || not (supports_active_power_limit s.model s.firmware)
      then pure true
      else (do
        call (register_handler serial ∷ announce_limit serial ∷ [])
        modify (λ t. record t { command_registered = true }))

  unfoldable pub maybe_wire : Action F Bool
  unfolding supports_active_power_limit
  maybe_wire s = wire_at s (known s.serial) s

  -- `_maybe_settle_inverter_control`
  unfoldable pub maybe_settle : Action F Bool
  maybe_settle s =
      (if s.settle_scheduled
            || not (is_some s.last_telemetry_at)
            || not (is_some s.local_control)
            || not s.command_registered
          then pure true
          else (do modify (λ t. record t { settle_scheduled = true }); call (schedule_settle ∷ [])))
        s

  -- `_sync_active_power_limit_mqtt`
  abbrev pub sync_at : Session → Option (List ℕ) → Action F Bool
  sync_at s none = pure true
  sync_at s (some serial) =
      if not (is_some s.local_control)
      then pure true
      else if supports_active_power_limit s.model s.firmware
      then (do maybe_wire; maybe_settle)
      else (do
        call (unregister_handler serial ∷ clear_discovery serial ∷ [])
        modify (λ t. record t { command_registered = false }))

  unfoldable pub sync_control : Action F Bool
  unfolding supports_active_power_limit maybe_wire maybe_settle
  sync_control s = sync_at s (known s.serial) s

  -- `_active_power_limit_readback_timeout`, once its sleep is over.
  abbrev pub expire_at : List ℕ → Option (ℕ × Source) → Action F Bool
  expire_at key none = pure true
  expire_at key (some (requested, source)) = do
    modify
        (λ s. record s { readbacks = pop key s.readbacks; pending_reads = pop key s.pending_reads })
    call (readback_result requested source no_answer ∷ [])

  unfoldable pub readback_timeout : List ℕ → Action F Bool
  readback_timeout key s = expire_at key (get key s.readbacks) s
