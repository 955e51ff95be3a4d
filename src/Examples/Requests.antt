-- ===== src/Examples/Requests.antt =====
-- Runs of the Modbus, mesh and product-info readers of foxess_local_cloud/protocol.py.
use foxess_local_gateway.Prelude.{
  ℕ, ◌*◌, ◌≡◌, refl, arith, List, [], ◌∷◌, ◌++◌, length, true, false, ◌&&◌, ◌||◌, some, ok, inl,
}
use foxess_local_gateway.Protocol.Frame.{Frame, parse_frame}
use foxess_local_gateway.Protocol.Frame.RoundTrip.{described}
use foxess_local_gateway.Protocol.Extract.{marker_7e, marker_7f}
use foxess_local_gateway.Protocol.Bootstrap.{end_7e}
use foxess_local_gateway.Protocol.Modbus.{
  build_modbus_write_single, build_modbus_read_holding, build_modbus_read_input,
  parse_modbus_command, is_modbus_command, is_modbus_write_success_response,
  is_modbus_read_response, is_modbus_read_exception, parse_modbus_read_response, write_single,
  read_request,
}
use foxess_local_gateway.Protocol.Modbus.Requests.{write_single_round_trip, read_round_trip}
use foxess_local_gateway.Protocol.Modbus.Responses.{read_response_values}
use foxess_local_gateway.Protocol.Mesh.{
  is_mesh_root_frame, is_mesh_follower_frame, mesh_peer_serial,
}
use foxess_local_gateway.Protocol.Mesh.Roles.{mesh_not_modbus, mesh_peer_serial_read}
use foxess_local_gateway.Protocol.Info.{
  ProductInfo, is_product_info, info_strings, next_with, product_info,
}
use foxess_local_gateway.Examples.Wire.{device, end}

-- A 7f frame with the payload.
abbrev pub carrying : List ℕ → Frame
carrying payload = described marker_7f device 0 payload end

write_single_round_trip_example :
    (raw : List ℕ) × (f : Frame) × (build_modbus_write_single device 0xca5a 80 ≡ ok raw)
    × (parse_frame raw ≡ ok f)
    × (f.valid_crc ≡ true)
    × (parse_modbus_command f ≡ some (write_single 1 0xca5a 80))
    × (is_modbus_write_success_response f ≡ true)
write_single_round_trip_example =
    write_single_round_trip device 0xca5a 80 refl (omega arith) (omega arith)

read_round_trip_example :
    (raw : List ℕ) × (raw' : List ℕ) × (f : Frame) × (f' : Frame) × (build_modbus_read_holding
        device 0xca5a 1
      ≡ ok raw)
    × (build_modbus_read_input device 0xca5a 1 ≡ ok raw')
    × (parse_frame raw ≡ ok f)
    × (parse_frame raw' ≡ ok f')
    × (parse_modbus_command f ≡ some (read_request 1 3 0xca5a 1))
    × (parse_modbus_command f' ≡ some (read_request 1 4 0xca5a 1))
read_round_trip_example = read_round_trip device 0xca5a 1 refl (omega arith) (omega arith)

abbrev values : List ℕ
values = 80 ∷ 258 ∷ []

abbrev pub two_values : Frame
two_values = carrying (1 ∷ 3 ∷ 4 ∷ 0 ∷ 80 ∷ 1 ∷ 2 ∷ [])

read_response_values_example :
    parse_modbus_read_response two_values
    ≡ some (record { slave = 1; function = 3; byte_count = length values * 2; values = values })
read_response_values_example =
    read_response_values two_values 1 3 values refl refl (inl refl) (omega arith) (omega arith)
      (omega arith)

-- The text `60M1`.
abbrev serial : List ℕ
serial = b'6' ∷ b'0' ∷ b'M' ∷ b'1' ∷ []

abbrev follower : Frame
follower = carrying (0x01 ∷ 0x05 ∷ 0x01 ∷ 0x02 ∷ 4 ∷ (serial ++ 0 ∷ []))

role_declared : (is_mesh_root_frame follower || is_mesh_follower_frame follower) ≡ true
unfolding is_mesh_root_frame is_mesh_follower_frame
role_declared = refl

mesh_not_modbus_example :
    (is_modbus_command follower ≡ false)
    × (is_modbus_read_response follower ≡ false)
    × (is_modbus_read_exception follower ≡ false)
    × (is_modbus_write_success_response follower ≡ false)
    × ((is_mesh_root_frame follower && is_mesh_follower_frame follower) ≡ false)
mesh_not_modbus_example = mesh_not_modbus follower role_declared

mesh_peer_serial_read_example : mesh_peer_serial follower ≡ serial
mesh_peer_serial_read_example =
    mesh_peer_serial_read follower serial (0 ∷ []) refl refl (omega arith) (omega arith) refl

-- A payload of 32 bytes: `M1-800`, then `1.82`, the rest zero.
abbrev product : Frame
product =
    described marker_7e (0x01 ∷ 0x00 ∷ 0x00 ∷ 0x00 ∷ []) 0
      (b'M' ∷ b'1' ∷ b'-' ∷ b'8' ∷ b'0' ∷ b'0' ∷ 0 ∷ b'1' ∷ b'.' ∷ b'8' ∷ b'2' ∷ 0 ∷ 0 ∷ 0 ∷ 0 ∷ 0
        ∷ 0 ∷ 0 ∷ 0 ∷ 0 ∷ 0 ∷ 0 ∷ 0 ∷ 0 ∷ 0 ∷ 0 ∷ 0 ∷ 0 ∷ 0 ∷ 0 ∷ 0 ∷ 0 ∷ [])
      end_7e

abbrev info : ProductInfo
info = record {
  module_name = b'M' ∷ b'1' ∷ b'-' ∷ b'8' ∷ b'0' ∷ b'0' ∷ [];
  family = [];
  model = b'M' ∷ b'1' ∷ b'-' ∷ b'8' ∷ b'0' ∷ b'0' ∷ [];
  firmware = b'1' ∷ b'.' ∷ b'8' ∷ b'2' ∷ [];
}

read_info : product_info product ≡ some info
unfolding product_info is_product_info info_strings next_with
read_info = refl
