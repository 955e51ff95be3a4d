-- ===== src/Server/Upstream/Commands.antt =====
-- The pending requests that cloud commands leave in a session of foxess_local_cloud/server.py.
use foxess_local_gateway.Prelude.{◌≡◌, ◌↔◌, arith, length, true, err, key_error}
use foxess_local_gateway.Protocol.Frame.{Frame}
use foxess_local_gateway.Protocol.Modbus.{is_modbus_command, parse_modbus_command, byte_at}
use foxess_local_gateway.Server.Session.{Session}
use foxess_local_gateway.Server.Upstream.{handle_pdu, handle_upstream_frame}

-- A frame from the cloud raises exactly when it passes as a Modbus command but has no PDU, and the
-- only such frame is a write-multiple of six bytes.
pub upstream_error_iff :
    (f : Frame) (s : Session)
    → handle_upstream_frame f s ≡ err key_error
      ↔ (is_modbus_command f ≡ true) × (byte_at f 1 ≡ 0x10) × (length f.payload ≡ 6)
unfolding handle_upstream_frame handle_pdu parse_modbus_command is_modbus_command
upstream_error_iff f s = (λ h. (ground arith, ground arith, ground arith), λ h. ground arith)
