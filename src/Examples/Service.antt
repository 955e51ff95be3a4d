-- ===== src/Examples/Service.antt =====
-- Runs of the application's and the session's bookkeeping of foxess_local_cloud/server.py.
use foxess_local_gateway.Prelude.{
  ℕ, ◌≡◌, ◌↔◌, arith, List, [], ◌∷◌, length, true, none, err, key_error,
}
use foxess_local_gateway.Protocol.Frame.{Frame}
use foxess_local_gateway.Protocol.Modbus.{is_modbus_command, byte_at}
use foxess_local_gateway.Server.PowerLimit.{pending}
use foxess_local_gateway.Server.PowerLimit.Pending.{
  Event, command, acknowledged, after, unacknowledged, IsHistory, pending_refines,
}
use foxess_local_gateway.Server.Staleness
use foxess_local_gateway.Server.Staleness.Availability
use foxess_local_gateway.Server.Session.{Session, init}
use foxess_local_gateway.Server.Upstream.{handle_upstream_frame}
use foxess_local_gateway.Server.Upstream.Commands.{upstream_error_iff}
use foxess_local_gateway.Server.Faults
use foxess_local_gateway.Server.Faults.Latest.{
  Heard, update_all, latest, last_active, fault_state_latest,
}
use foxess_local_gateway.Examples.Requests.{carrying}

abbrev serial : List ℕ
serial = b'6' ∷ b'0' ∷ []

-- Two commands, then the late acknowledgement of the first.
abbrev history : List Event
history = acknowledged serial 50 1 ∷ command serial 80 ∷ command serial 50 ∷ []

history-IsHistory : IsHistory history
history-IsHistory = (omega arith, tt)

pending_refines_example : pending serial (after history) ≡ unacknowledged serial history
pending_refines_example = pending_refines serial history history-IsHistory

-- Telemetry, a silence that the watchdog finds, telemetry again.
abbrev day : List Availability.Event
day =
    Availability.heard serial 0 0
    ∷ Availability.watchdog 400
    ∷ Availability.heard serial 500 500
    ∷ []

abbrev short_write : Frame
short_write = carrying (1 ∷ 0x10 ∷ 0xca ∷ 0x5a ∷ 0 ∷ 1 ∷ [])

abbrev fresh : Session
fresh = init none none

upstream_error_iff_example :
    handle_upstream_frame short_write fresh ≡ err key_error
    ↔ (is_modbus_command short_write ≡ true)
      × (byte_at short_write 1 ≡ 0x10)
      × (length short_write.payload ≡ 6)
upstream_error_iff_example = upstream_error_iff short_write fresh

-- Under voltage, then nothing.
abbrev faults : List Heard
faults =
    (record { offset_98 = 0; w100 = 4; w102 = 0; w104 = 0; w106 = 0 }, 10)
    ∷ (record { offset_98 = 0; w100 = 0; w102 = 0; w104 = 0; w106 = 0 }, 20)
    ∷ []

fault_state_latest_example :
    ((update_all faults Faults.init).last_fault_code ≡ latest faults Faults.init.last_fault_code)
    × ((update_all faults Faults.init).previous_fault_active
        ≡ last_active faults Faults.init.previous_fault_active)
fault_state_latest_example = fault_state_latest faults Faults.init
