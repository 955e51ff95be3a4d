-- ===== src/Server/Upstream.antt =====
-- `Session.choose_upstream` and `Session.handle_upstream_frame` of foxess_local_cloud/server.py: what a
-- frame from the cloud leaves in the session. Logging is left out.
pub mod Commands
use foxess_local_gateway.Prelude.{
  ℕ, List, [], ◌∷◌, length, Bool, true, false, not, ◌&&◌, Option, none, some, Result, ok, err,
  key_error, get_or, leb, ◌==◌, ◌=b◌, if◌then◌else◌,
}
use foxess_local_gateway.Dict.{get, put}
use foxess_local_gateway.Protocol.Frame.{Frame}
use foxess_local_gateway.Protocol.Modbus.{
  is_modbus_command, parse_modbus_command, Pdu, read_request, write_single, write_multiple,
}
use foxess_local_gateway.Server.Session.{Session}
use foxess_local_gateway.LocalControl.{
  LocalControl, normalize_device, is_our_frame, observe_session_marker,
}

abbrev pub Endpoint : Type 0
Endpoint = List ℕ × ℕ

abbrev pub only_value : List (List ℕ × Endpoint) → Option Endpoint
only_value ((k, v) ∷ []) = some v
only_value other = none

-- With an original address that is not empty; `public` is `is_public_ipv4(original_ip)`.
abbrev pub choose_known :
    List (List ℕ × Endpoint) → Bool → List ℕ → Option Endpoint → Option Endpoint
choose_known upstreams open_to_all original_ip (some target) = some target
choose_known upstreams open_to_all original_ip none =
    if open_to_all then some (original_ip, 14431) else only_value upstreams

-- No address (`None` or empty) is the empty list.
unfoldable pub choose_upstream :
    List (List ℕ × Endpoint) → Bool → (List ℕ → Bool) → List ℕ → Option Endpoint
choose_upstream upstreams fallback is_public original_ip =
    if original_ip =b []
    then only_value upstreams
    else choose_known upstreams (fallback && is_public original_ip) original_ip
        (get original_ip upstreams)

-- `self.local_control is not None and not self.local_control.is_our_frame(frame)`
abbrev pub foreign : Option LocalControl → Frame → Bool
foreign none frame = false
foreign (some c) frame = not (is_our_frame c frame)

-- What the PDU adds to the pending requests.
unfoldable pub note_request : Frame → Pdu → Session → Session
unfolding is_our_frame normalize_device
note_request frame (read_request slave function address count) s =
    if function == 0x03
    then record s {
      pending_reads = put (normalize_device frame.device) (address, count) s.pending_reads;
    }
    else if function == 0x04
    then record s {
      pending_reads = put (normalize_device frame.device) (address, count) s.pending_reads;
    }
    else s
note_request frame (write_single slave address value) s =
    if foreign s.local_control frame
    then record s {
      pending_writes = put (normalize_device frame.device) (address, value) s.pending_writes;
    }
    else s
note_request frame (write_multiple slave address count byte_count words) s = s

abbrev pub marked : Bool → Frame → Option LocalControl → Option LocalControl
marked true frame (some c) = some ((observe_session_marker (get_or frame.device 3 0) c).0)
marked b frame other = other

unfoldable pub note_marker : Frame → Session → Session
unfolding is_our_frame observe_session_marker
note_marker frame s = record s {
  local_control =
      marked (foreign s.local_control frame && leb 4 (length frame.device)) frame s.local_control;
}

-- `pdu["function"]` raises `KeyError` for the empty dictionary.
unfoldable pub handle_pdu : Frame → Option Pdu → Session → Result Session
unfolding note_request note_marker
handle_pdu frame none s = err key_error
handle_pdu frame (some pdu) s = ok (note_marker frame (note_request frame pdu s))

unfoldable pub handle_upstream_frame : Frame → Session → Result Session
unfolding is_modbus_command parse_modbus_command handle_pdu
handle_upstream_frame frame s =
    if is_modbus_command frame then handle_pdu frame (parse_modbus_command frame) s else ok s
