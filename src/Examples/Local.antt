-- ===== src/Examples/Local.antt =====
-- Runs of foxess_local_cloud/local_control.py.
use foxess_local_gateway.Prelude.{ℕ, ◌≡◌, inr, refl, List, [], ◌∷◌, true, false, none, ok, bit_or}
use foxess_local_gateway.Protocol.Frame.{Frame, make_frame}
use foxess_local_gateway.Protocol.Modbus.{build_modbus_write_single}
use foxess_local_gateway.LocalControl.{
  LocalControl, init, attach_inverter_writer, begin_write, waiting, normalize_device, device_for,
  device_byte_write, is_our_frame, next_counter, injected_counter_start, send,
}
use foxess_local_gateway.LocalControl.Devices.{request_recognised}
use foxess_local_gateway.LocalControl.Outcome.{Event, answer, read}
use foxess_local_gateway.Examples.Requests.{carrying}

abbrev counter : ℕ
counter = next_counter injected_counter_start

abbrev attached : LocalControl
unfolding attach_inverter_writer
attached = attach_inverter_writer init

abbrev key : List ℕ
key = normalize_device (device_for device_byte_write 0xf001)

-- The session after the write of 80 percent was sent.
abbrev waiting_state : LocalControl
unfolding begin_write
waiting_state = (begin_write true 0xca5a 80 attached).0

began : begin_write true 0xca5a 80 attached ≡ (waiting_state, ok (waiting key))
unfolding begin_write waiting_state attached build_modbus_write_single make_frame send
began = refl

abbrev echoed : Frame
unfolding device_for
echoed = record (carrying []) { device = device_for (bit_or device_byte_write 0x80) 0xf001 }

request_recognised_example : is_our_frame waiting_state echoed ≡ true
unfolding echoed attached
request_recognised_example =
    request_recognised true 0xca5a 80 attached waiting_state (waiting key) echoed
      (bit_or device_byte_write 0x80) began refl (inr refl) refl

-- A read is issued and answered, then the inverter refuses the write.
abbrev events : List Event
events =
    read 0xca5a 1 none
    ∷ answer (0x91 ∷ 0x02 ∷ 0xf0 ∷ 0xaa ∷ []) true
    ∷ answer (0x92 ∷ 0x01 ∷ 0xf0 ∷ 0xaa ∷ []) false
    ∷ []
