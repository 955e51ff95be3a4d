-- ===== src/Server/Control/Setpoint.antt =====
-- Setpoints of `Session` in foxess_local_cloud/server.py: applying one, reading the register back, and
-- the settling of a session. `_apply_active_power_limit` is split at its wait for the answer:
-- `begin_apply` runs up to it, `finish_apply` from its end.
use foxess_local_gateway.Prelude.{
  ℕ, List, [], ◌∷◌, ◌++◌, Bool, true, false, Option, none, some, Result, ok, err, ◌==◌,
  if◌then◌else◌,
}
use foxess_local_gateway.LocalControl.{
  LocalControl, Source, startup, WriteResult, confirmed, Begun, settled, waiting, begin_write,
  read_holding, normalize_device,
}
use foxess_local_gateway.Server.PowerLimit.{
  PowerLimits, set_desired, current_generation, mark_applied, pending,
}
use foxess_local_gateway.Server.Session.{
  Session, Call, publish_result, publish_state, readback_result, unsent, failed, await_readback,
}
use foxess_local_gateway.Server.Control.{known, session_reads, serial_or_empty}

-- How far an application has come: there is nothing to write to, the write raised, it is settled, or
-- it waits for the answer with the key.
pub data Applying : Type 0 where
  inapplicable raised : Applying
  written : WriteResult → Applying
  awaiting : List ℕ → Applying

abbrev pub applying : Result Begun → Applying
applying (err e) = raised
applying (ok (settled r)) = written r
applying (ok (waiting key)) = awaiting key

abbrev pub with_control : LocalControl → Session → Session
with_control c s = record s { local_control = some c }

abbrev pub is_confirmed : WriteResult → Bool
is_confirmed confirmed = true
is_confirmed r = false

abbrev pub pending_for : Option (List ℕ) → PowerLimits → Option ℕ
pending_for none p = none
pending_for (some serial) p = pending serial p

module _ (address : ℕ) (waits : Bool) where
  abbrev pub begin_at : Option LocalControl → Option (List ℕ) → ℕ → Session → Session × Applying
  begin_at (some c) (some serial) percent s =
      let (c', begun) = begin_write waits address percent c in (with_control c' s, applying begun)
  begin_at c serial percent s = (s, inapplicable)

  unfoldable pub begin_apply : ℕ → Session → Session × Applying
  unfolding begin_write
  begin_apply percent s = begin_at s.local_control (known s.serial) percent s

  abbrev pub set_at :
      Option LocalControl
      → Option (List ℕ)
      → ℕ
      → Session
      → PowerLimits
      → (Session × PowerLimits) × Applying × ℕ
  set_at (some c) (some serial) percent s p =
      let (p', generation) = set_desired serial percent p in
      let (s', applied) = begin_apply percent s in ((s', p'), applied, generation)
  set_at c serial percent s p = ((s, p), inapplicable, 0)

  -- `_handle_active_power_limit_setpoint` up to the wait: the state, how far the write has come, and
  -- the generation of the command.
  unfoldable pub handle_setpoint :
      ℕ → Session → PowerLimits → (Session × PowerLimits) × Applying × ℕ
  unfolding set_desired begin_apply
  handle_setpoint percent s p = set_at s.local_control (known s.serial) percent s p

  module _ {F : Type 0} where
    -- What the read reports, and whether its answer is awaited.
    abbrev pub read_calls : Option ℕ → Source → Result (Option (List ℕ)) → List (Call F)
    read_calls none source r = []
    read_calls (some value) source (err e) = readback_result value source failed ∷ []
    read_calls (some value) source (ok none) = readback_result value source unsent ∷ []
    read_calls (some value) source (ok (some device)) =
        await_readback (normalize_device device) value source ∷ []

    abbrev pub read_at :
        Option LocalControl
        → Option (List ℕ)
        → Option ℕ
        → Source
        → Session
        → Session × List (Call F)
    read_at (some c) (some serial) expected source s =
        let (both, sent) = read_holding session_reads address 1 expected source c s in
        (with_control both.0 both.1, read_calls expected source sent)
    read_at c serial expected source s = (s, [])

    -- `_read_active_power_limit_once`
    unfoldable pub read_once : Option ℕ → Source → Session → Session × List (Call F)
    unfolding read_holding normalize_device
    read_once expected source s = read_at s.local_control (known s.serial) expected source s

    -- `_apply_active_power_limit` from the end of its wait; `none`: the write raised. The serial is
    -- the one that the session has by then. None and the empty string are one key here: neither is
    -- ever asked for.
    unfoldable pub finish_apply :
        ℕ
        → ℕ
        → Source
        → Option WriteResult
        → Session × PowerLimits
        → (Session × PowerLimits) × List (Call F)
    unfolding mark_applied current_generation read_once
    finish_apply percent generation source none (s, p) =
        ((s, p), publish_result (serial_or_empty s.serial) none ∷ [])
    finish_apply percent generation source (some r) (s, p) =
        let serial = serial_or_empty s.serial in
        let marked = mark_applied serial percent generation p in
        let latest = generation == current_generation serial marked in
        let (s', calls) = read_once (some percent) source s in
        if is_confirmed r
        then (
          (s', marked),
          publish_result serial (some r)
              ∷ ((if latest then publish_state serial percent ∷ [] else []) ++ calls),
        )
        else ((s, p), publish_result serial (some r) ∷ [])

    abbrev pub settle_at : Option ℕ → Session → Session × Applying × List (Call F)
    settle_at none s = let (s', calls) = read_once none startup s in (s', inapplicable, calls)
    settle_at (some value) s = let (s', applied) = begin_apply value s in (s', applied, [])

    -- `_settle_inverter_control` up to the wait: it writes a pending setpoint, or reads the register.
    unfoldable pub settle_control : Session → PowerLimits → Session × Applying × List (Call F)
    unfolding pending begin_apply read_once
    settle_control s p = settle_at (pending_for (known s.serial) p) s
