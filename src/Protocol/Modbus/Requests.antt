-- ===== src/Protocol/Modbus/Requests.antt =====
-- Requests that the gateway builds are read back from the wire.
use foxess_local_gateway.Prelude.{
  ℕ, ◌/◌, ◌%◌, ◌<◌, ◌≡◌, refl, arith, List, [], ◌∷◌, length, true, some, ok, ◌⊎◌, inl, inr,
}
use foxess_local_gateway.Protocol.Extract.{marker_7f}
use foxess_local_gateway.Protocol.Frame.{Frame, parse_frame}
use foxess_local_gateway.Protocol.Frame.RoundTrip.{
  described, parse-make_frame, make_frame_bytes, two_bytes,
}
use foxess_local_gateway.Protocol.Modbus.{
  read_request, write_single, build_modbus, build_modbus_write_single, build_modbus_read_holding,
  build_modbus_read_input, parse_modbus_command, is_modbus_write_success_response,
  command_envelope_func, end_7f,
}

abbrev request_payload : ℕ → ℕ → ℕ → List ℕ
request_payload function address word =
    0x01 ∷ function ∷ address / 256 ∷ address % 256 ∷ word / 256 ∷ word % 256 ∷ []

-- The frame that a builder puts on the wire.
abbrev pub request_frame : ℕ → List ℕ → ℕ → ℕ → Frame
request_frame function device address word =
    described marker_7f device command_envelope_func (request_payload function address word) end_7f

pub build_bytes :
    (function : ℕ) (device : List ℕ) (address word : ℕ)
    → address < 65536
    → word < 65536
    → build_modbus function device address word
      ≡ ok (request_frame function device address word).raw
unfolding build_modbus
build_bytes function device address word ha hw =
    rw (two_bytes address ha, two_bytes word hw)
      (make_frame_bytes marker_7f device command_envelope_func
        (request_payload function address word) end_7f (omega arith) (omega arith))

parse_write :
    (device : List ℕ) (address value : ℕ)
    → parse_modbus_command (request_frame 0x06 device address value)
      ≡ some (write_single 1 address value)
unfolding parse_modbus_command
parse_write device address value = ground arith

write_confirms :
    (device : List ℕ) (address value : ℕ)
    → is_modbus_write_success_response (request_frame 0x06 device address value) ≡ true
unfolding is_modbus_write_success_response
write_confirms device address value = ground arith

pub request_parses :
    (function : ℕ) (device : List ℕ) (address word : ℕ)
    → length device ≡ 4
    → parse_frame (request_frame function device address word).raw
      ≡ ok (request_frame function device address word)
request_parses function device address word hd =
    let payload : List ℕ = request_payload function address word in
    parse-make_frame marker_7f device command_envelope_func payload end_7f _ refl hd refl (
      make_frame_bytes marker_7f device command_envelope_func payload end_7f (omega arith)
        (omega arith))

-- A write-single request for a 16-bit address and value is built without an error; parsed from the
-- wire it is a valid frame whose PDU is that write to slave 1, and it has the form of a successful
-- write response, as the inverter's echo has.
pub write_single_round_trip :
    (device : List ℕ) (address value : ℕ)
    → length device ≡ 4
    → address < 65536
    → value < 65536
    → (raw : List ℕ) × (f : Frame) × (build_modbus_write_single device address value ≡ ok raw)
      × (parse_frame raw ≡ ok f)
      × (f.valid_crc ≡ true)
      × (parse_modbus_command f ≡ some (write_single 1 address value))
      × (is_modbus_write_success_response f ≡ true)
unfolding build_modbus_write_single
write_single_round_trip device address value hd ha hv =
    let f : Frame = request_frame 0x06 device address value in
    let made : build_modbus 0x06 device address value ≡ ok f.raw =
      build_bytes 0x06 device address value ha hv in
    (
      f.raw,
      f,
      made,
      request_parses 0x06 device address value hd,
      refl,
      parse_write device address value,
      write_confirms device address value,
    )

pub parse_read :
    (function : ℕ) (device : List ℕ) (address count : ℕ)
    → (function ≡ 3) ⊎ (function ≡ 4)
    → parse_modbus_command (request_frame function device address count)
      ≡ some (read_request 1 function address count)
unfolding parse_modbus_command
parse_read function device address count h = ground arith

-- The read requests for holding and for input registers, with a 16-bit address and count, are built
-- without an error, and parsed from the wire to that request to slave 1.
pub read_round_trip :
    (device : List ℕ) (address count : ℕ)
    → length device ≡ 4
    → address < 65536
    → count < 65536
    → (raw : List ℕ) × (raw' : List ℕ) × (f : Frame) × (f' : Frame) × (build_modbus_read_holding
          device address count
        ≡ ok raw)
      × (build_modbus_read_input device address count ≡ ok raw')
      × (parse_frame raw ≡ ok f)
      × (parse_frame raw' ≡ ok f')
      × (parse_modbus_command f ≡ some (read_request 1 3 address count))
      × (parse_modbus_command f' ≡ some (read_request 1 4 address count))
unfolding build_modbus_read_holding build_modbus_read_input
read_round_trip device address count hd ha hc =
    let f : Frame = request_frame 3 device address count in
    let f' : Frame = request_frame 4 device address count in
    (
      f.raw,
      f'.raw,
      f,
      f',
      build_bytes 3 device address count ha hc,
      build_bytes 4 device address count ha hc,
      request_parses 3 device address count hd,
      request_parses 4 device address count hd,
      parse_read 3 device address count (inl refl),
      parse_read 4 device address count (inr refl),
    )
