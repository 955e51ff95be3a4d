-- ===== src/Server/Relay.antt =====
-- `Session.run_local` and `Session.relay_client_to_upstream` of foxess_local_cloud/server.py: the loops over
-- what the inverter sends. The clock is read once for each read. The clean-up in `finally`, which
-- closes the writer, is left out.
pub mod Keeping
pub mod Silent
pub mod Accounts
pub mod Transparent
pub mod Downstream
pub mod Removal
pub mod Owned
use foxess_local_gateway.Prelude.{
  ℕ, ◌+◌, ◌-◌, List, [], ◌∷◌, ◌++◌, length, take, drop, Bool, true, false, ◌||◌, Option, none, some,
  Result, ok, err, if◌then◌else◌,
}
use foxess_local_gateway.Bytes.{find}
use foxess_local_gateway.LocalControl.{LocalControl, is_our_frame, attach_inverter_writer}
use foxess_local_gateway.Protocol.Frame.{Frame}
use foxess_local_gateway.Protocol.Extract.{Extracted, extract_frames}
use foxess_local_gateway.Firmware.Upload.{FirmwareUploader, handle_client_frame}
use foxess_local_gateway.Server.Session.{
  Session, Call, Action, Ran, pure, call, modify, gets, ◌>>=◌, ◌>>◌, write_upstream,
}
use foxess_local_gateway.Server.Handle.{handle_frame}

-- `forward.find(raw)`, and the deletion of what was found.
abbrev pub remove_at : Option ℕ → List ℕ → List ℕ → List ℕ
remove_at none raw forward = forward
remove_at (some i) raw forward = take i forward ++ drop (i + length raw) forward

unfoldable pub remove : List ℕ → List ℕ → List ℕ
remove raw forward = remove_at (find raw forward) raw forward

-- `_handle_firmware_upload_frame`
abbrev pub uploaded : Frame → Option FirmwareUploader → Option FirmwareUploader × Bool
uploaded frame none = (none, false)
uploaded frame (some u) = let (u', owned) = handle_client_frame frame u in (some u', owned)

abbrev pub ours : Option LocalControl → Frame → Bool
ours none frame = false
ours (some c) frame = is_our_frame c frame

abbrev pub attached : Option LocalControl → Option LocalControl
attached none = none
attached (some c) = some (attach_inverter_writer c)

module _ {F : Type 0} where
  unfoldable pub handle_firmware_upload_frame : Frame → Action F Bool
  unfolding handle_client_frame
  handle_firmware_upload_frame frame s =
      let (uploader, owned) = uploaded frame s.firmware_uploader in
      record { result = ok owned; session = record s { firmware_uploader = uploader }; calls = [] }

  -- Nothing is written when nothing is left.
  abbrev pub forward_bytes : (List ℕ → Call F) → List ℕ → Action F Bool
  forward_bytes write [] = pure true
  forward_bytes write (b ∷ bs) = call (write (b ∷ bs) ∷ [])

  module _ (scaled : ℕ → ℕ → ℕ → F) (is_nonzero : F → Bool) (address : ℕ) where
    module _ (now : ℕ) where
      -- The frames of one read, and the bytes that stay for the cloud.
      unfoldable pub relay_frames : List Frame → List ℕ → Action F (List ℕ)
      unfolding handle_firmware_upload_frame handle_frame is_our_frame remove
      relay_frames [] forward = pure forward
      relay_frames (frame ∷ frames) forward = do
        firmware_owned ← handle_firmware_upload_frame frame
        handle_frame scaled is_nonzero address now false frame
        local_control_owned ← gets (λ s. ours s.local_control frame)
        relay_frames frames
            (if local_control_owned || firmware_owned then remove frame.raw forward else forward)

      -- The buffer after the read. `extract_frames` always returns.
      abbrev pub relay_extracted : List ℕ → Extracted → Action F (List ℕ)
      relay_extracted snapshot none = pure snapshot
      relay_extracted snapshot (some (frames, leftover)) = do
        forward ← relay_frames frames (take (length snapshot - length leftover) snapshot)
        forward_bytes write_upstream forward
        pure leftover

      unfoldable pub relay_read : List ℕ → List ℕ → Action F (List ℕ)
      unfolding extract_frames relay_frames
      relay_read buffer bytes = relay_extracted (buffer ++ bytes) (extract_frames (buffer ++ bytes))

      unfoldable pub local_frames : List Frame → Action F Bool
      unfolding handle_firmware_upload_frame handle_frame
      local_frames [] = pure true
      local_frames (frame ∷ frames) = do
        handle_firmware_upload_frame frame
        handle_frame scaled is_nonzero address now true frame
        local_frames frames

      abbrev pub local_extracted : List ℕ → Extracted → Action F (List ℕ)
      local_extracted snapshot none = pure snapshot
      local_extracted snapshot (some (frames, leftover)) = do local_frames frames; pure leftover

      unfoldable pub local_read : List ℕ → List ℕ → Action F (List ℕ)
      unfolding extract_frames local_frames
      local_read buffer bytes = local_extracted (buffer ++ bytes) (extract_frames (buffer ++ bytes))

    -- The reads with their times; an empty one is the end of the stream.
    unfoldable pub relay_client_to_upstream : List ℕ → List (List ℕ × ℕ) → Action F (List ℕ)
    unfolding relay_read
    relay_client_to_upstream buffer [] = pure buffer
    relay_client_to_upstream buffer (([], now) ∷ reads) = pure buffer
    relay_client_to_upstream buffer ((b ∷ bs, now) ∷ reads) = do
      rest ← relay_read now buffer (b ∷ bs)
      relay_client_to_upstream rest reads

    unfoldable pub local_loop : List ℕ → List (List ℕ × ℕ) → Action F (List ℕ)
    unfolding local_read
    local_loop buffer [] = pure buffer
    local_loop buffer (([], now) ∷ reads) = pure buffer
    local_loop buffer ((b ∷ bs, now) ∷ reads) = do
      rest ← local_read now buffer (b ∷ bs)
      local_loop rest reads

    unfoldable pub run_local : List ℕ → List (List ℕ × ℕ) → Action F (List ℕ)
    unfolding attach_inverter_writer local_loop
    run_local buffer reads = do
      modify (λ s. record s { local_control = attached s.local_control })
      local_loop buffer reads
