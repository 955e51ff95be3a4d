-- ===== src/Server/Relay/Downstream.antt =====
-- `Session.relay_upstream_to_client` of foxess_local_cloud/server.py: the loop over what the cloud sends, with
-- or without a firmware capture, whose parameters are those of `Firmware.Capture`. Its acknowledgements
-- go to the cloud; closing the writer at the end is left out.
pub mod Returned
pub mod Withheld
use foxess_local_gateway.Prelude.{
  ℕ, ◌-◌, List, [], ◌∷◌, ◌++◌, length, take, Bool, false, Option, none, some, Result, ok, err,
  if◌then◌else◌,
}
use foxess_local_gateway.Protocol.Frame.{Frame}
use foxess_local_gateway.Protocol.Extract.{Extracted, extract_frames}
use foxess_local_gateway.Firmware.Capture
use foxess_local_gateway.Firmware.Capture.{FirmwareCapture, Effect}
use foxess_local_gateway.Server.Session.{
  Session, Call, Action, Ran, pure, ◌>>=◌, ◌>>◌, write_upstream, write_client,
}
use foxess_local_gateway.Server.Upstream.{handle_upstream_frame}
use foxess_local_gateway.Server.Control.{serial_or_empty}
use foxess_local_gateway.Server.Relay.{remove, forward_bytes}

module _ {F : Type 0} where
  -- An exception comes before the state is changed.
  abbrev pub heard : Session → Result Session → Ran F Bool
  heard s (ok t) = pure false t
  heard s (err e) = record { result = err e; session = s; calls = [] }

  unfoldable pub hear : Frame → Action F Bool
  unfolding handle_upstream_frame
  hear frame s = heard s (handle_upstream_frame frame s)

  abbrev pub acks : List Effect → List (Call F)
  acks [] = []
  acks (Effect.ack raw ∷ effects) = write_upstream raw ∷ acks effects
  acks (effect ∷ effects) = acks effects

  module _ (save : List ℕ → Bool) (simulate_progress idle : Bool)
      (path_name : List ℕ → List ℕ) where
    abbrev pub captured : Option FirmwareCapture → Frame → Action F Bool
    captured none frame s = pure false s
    captured (some c) frame s =
        let step =
          Capture.handle_upstream_frame save simulate_progress idle path_name c frame
            (serial_or_empty s.serial) in
        record {
          result = step.handled;
          session = record s { firmware_capture = some step.capture };
          calls = acks step.effects;
        }

    unfoldable pub capture_frame : Frame → Action F Bool
    unfolding Capture.handle_upstream_frame
    capture_frame frame s = captured s.firmware_capture frame s

    -- The frames of one read, and the bytes that stay for the inverter.
    unfoldable pub return_frames : List Frame → List ℕ → Action F (List ℕ)
    unfolding hear capture_frame remove
    return_frames [] forward = pure forward
    return_frames (frame ∷ frames) forward = do
      hear frame
      taken ← capture_frame frame
      return_frames frames (if taken then remove frame.raw forward else forward)

    abbrev pub return_extracted : List ℕ → Extracted → Action F (List ℕ)
    return_extracted snapshot none = pure snapshot
    return_extracted snapshot (some (frames, leftover)) = do
      forward ← return_frames frames (take (length snapshot - length leftover) snapshot)
      forward_bytes write_client forward
      pure leftover

    unfoldable pub return_read : List ℕ → List ℕ → Action F (List ℕ)
    unfolding extract_frames return_frames
    return_read buffer bytes = return_extracted (buffer ++ bytes) (extract_frames (buffer ++ bytes))

    -- The reads; an empty one is the end of the stream.
    unfoldable pub relay_upstream_to_client : List ℕ → List (List ℕ) → Action F (List ℕ)
    unfolding return_read
    relay_upstream_to_client buffer [] = pure buffer
    relay_upstream_to_client buffer ([] ∷ reads) = pure buffer
    relay_upstream_to_client buffer ((b ∷ bs) ∷ reads) = do
      rest ← return_read buffer (b ∷ bs)
      relay_upstream_to_client rest reads
