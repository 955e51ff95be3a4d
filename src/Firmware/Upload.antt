-- ===== src/Firmware/Upload.antt =====
-- `FirmwareUploader.handle_client_frame` of foxess_local_cloud/firmware.py.
use foxess_local_gateway.Prelude.{
  ℕ, ◌≡◌, ap, arith, List, [], ◌∷◌, ◌++◌, length, drop, Bool, true, false, not, ◌&&◌, ◌||◌, Option,
  none, some, get_or, ◌==◌, ◌=b◌, =b→eq, if◌then◌else◌,
}
use foxess_local_gateway.Bytes.{starts_with}
use foxess_local_gateway.Protocol.Frame.{Frame, Family, family_7e, family_7f, unknown, family}
use foxess_local_gateway.Firmware.Variant.{FirmwareVariant, is_7f}

-- The acknowledgement awaited: none, one that has not come, or the payload that came.
pub data AckFuture : Type 0 where
  no_future : AckFuture
  open_future : AckFuture
  done_with : List ℕ → AckFuture

pub record FirmwareUploader : Type 0 where
  pub active : Bool
  pub expected_tail : Option (List ℕ)
  pub ack_future : AckFuture
  pub progress_queue : List ℕ
  pub variant : Option FirmwareVariant

abbrev pub same_family : Family → Family → Bool
same_family family_7e family_7e = true
same_family family_7f family_7f = true
same_family unknown unknown = true
same_family f g = false

abbrev pub set_result : List ℕ → AckFuture → AckFuture
set_result payload open_future = done_with payload
set_result payload other = other

-- A frame with the family and the function of an acknowledgement.
unfoldable pub take_ack : Frame → FirmwareUploader → Option (List ℕ) → FirmwareUploader × Bool
take_ack frame u none = (u, false)
take_ack frame u (some tail) =
    if drop 1 frame.device =b tail
    then (record u { ack_future = set_result frame.payload u.ack_future }, true)
    else (u, false)

unfoldable pub take_frame : Frame → FirmwareUploader → FirmwareVariant → FirmwareUploader × Bool
unfolding family take_ack
take_frame frame u v =
    if not (starts_with frame.payload v.magic)
    then (u, false)
    else if is_7f (family frame) && length frame.payload == 7 && get_or frame.payload 5 0 == 0
    then (record u { progress_queue = u.progress_queue ++ get_or frame.payload 6 0 ∷ [] }, true)
    else if (same_family (family frame) v.family || is_7f (family frame)) && frame.func == v.func
    then take_ack frame u u.expected_tail
    else (u, false)

unfoldable pub take_found :
    Frame → FirmwareUploader → Option FirmwareVariant → FirmwareUploader × Bool
unfolding take_frame
take_found frame u none = (u, false)
take_found frame u (some v) = if u.active then take_frame frame u v else (u, false)

-- The new state, and whether the frame was taken.
unfoldable pub handle_client_frame : Frame → FirmwareUploader → FirmwareUploader × Bool
unfolding take_found
handle_client_frame frame u = take_found frame u u.variant

take_ack_matches :
    (f : Frame) (u : FirmwareUploader) (tail payload : List ℕ)
    → u.ack_future ≡ open_future
    → (take_ack f u (some tail)).0.ack_future ≡ done_with payload
    → (payload ≡ f.payload) × (drop 1 f.device ≡ tail)
unfolding take_ack
take_ack_matches f u tail payload opened came =
    (ground (arith, =b→eq (drop 1 f.device) tail), ground (arith, =b→eq (drop 1 f.device) tail))

take_frame_matches :
    (f : Frame) (u : FirmwareUploader) (v : FirmwareVariant) (tail payload : List ℕ)
    → u.ack_future ≡ open_future
    → u.expected_tail ≡ some tail
    → (take_frame f u v).0.ack_future ≡ done_with payload
    → (payload ≡ f.payload) × (drop 1 f.device ≡ tail)
unfolding take_frame
take_frame_matches f u v tail payload opened awaited came =
    let here : take_ack f u u.expected_tail ≡ take_ack f u (some tail) =
      ap (take_ack f u) awaited in
    let matches : (take_ack f u (some tail)).0.ack_future ≡ done_with payload =
      ground (arith, here) in
    take_ack_matches f u tail payload opened matches

found_matches :
    (f : Frame) (u : FirmwareUploader) (found : Option FirmwareVariant) (tail payload : List ℕ)
    → u.ack_future ≡ open_future
    → u.expected_tail ≡ some tail
    → (take_found f u found).0.ack_future ≡ done_with payload
    → (payload ≡ f.payload) × (drop 1 f.device ≡ tail)
unfolding take_found
found_matches f u none tail payload opened awaited came = (ground arith, ground arith)
found_matches f u (some v) tail payload opened awaited came =
    take_frame_matches f u v tail payload opened awaited (ground arith)

-- While a request awaits its acknowledgement, the payload that is handed to it is that of the frame,
-- and the frame has the request's device tail: an answer to another request is never handed over.
pub ack_belongs :
    (f : Frame) (u : FirmwareUploader) (tail payload : List ℕ)
    → u.ack_future ≡ open_future
    → u.expected_tail ≡ some tail
    → (handle_client_frame f u).0.ack_future ≡ done_with payload
    → (payload ≡ f.payload) × (drop 1 f.device ≡ tail)
unfolding handle_client_frame
ack_belongs f u tail payload opened awaited came =
    found_matches f u u.variant tail payload opened awaited came
