-- ===== src/Protocol/Mesh.antt =====
-- The mesh-role frames of foxess_local_cloud/protocol.py.
pub mod Roles
use foxess_local_gateway.Prelude.{
  ℕ, ◌+◌, List, [], ◌∷◌, length, take, Bool, false, ◌&&◌, not, ◌||◌, ok, err, leb, ltb, ◌=b◌,
  if◌then◌else◌, Result,
}
use foxess_local_gateway.Bytes.{slice, decode_ascii}
use foxess_local_gateway.Protocol.Frame.{Frame}
use foxess_local_gateway.Protocol.Extract.{marker_7f}
use foxess_local_gateway.Protocol.Modbus.{byte_at}

unfoldable pub is_mesh_root_frame : Frame → Bool
is_mesh_root_frame frame =
    frame.start =b marker_7f
    && leb 12 (length frame.payload)
    && take 4 frame.payload =b 0x01 ∷ 0x05 ∷ 0x01 ∷ 0x01 ∷ []

unfoldable pub is_mesh_follower_frame : Frame → Bool
is_mesh_follower_frame frame =
    let serial_len = byte_at frame 4 in
    if not (frame.start =b marker_7f) || ltb (length frame.payload) 5
    then false
    else if not (take 4 frame.payload =b 0x01 ∷ 0x05 ∷ 0x01 ∷ 0x02 ∷ [])
    then false
    else leb 1 serial_len && leb serial_len 32 && leb (5 + serial_len) (length frame.payload)

-- `UnicodeDecodeError` gives the empty string.
abbrev pub or_empty : Result (List ℕ) → List ℕ
or_empty (ok s) = s
or_empty (err e) = []

unfoldable pub mesh_peer_serial : Frame → List ℕ
unfolding is_mesh_follower_frame
mesh_peer_serial frame =
    if not (is_mesh_follower_frame frame)
    then []
    else or_empty (decode_ascii (slice 5 (5 + byte_at frame 4) frame.payload))
