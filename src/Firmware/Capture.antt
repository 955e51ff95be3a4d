-- ===== src/Firmware/Capture.antt =====
-- `FirmwareCapture` of foxess_local_cloud/firmware.py. `save` says whether `_save_capture` writes the
-- image without an `OSError`; `idle`: no flash-progress task is running.
pub mod Safety
use foxess_local_gateway.Prelude.{
  ℕ, zero, suc, ◌+◌, ◌%◌, List, [], ◌∷◌, ◌++◌, length, drop, Bool, true, false, not, ◌&&◌, ◌||◌,
  Option, none, some, Result, ok, err, Error, ltb, ◌==◌, ◌=b◌, ◌>>=◌, if◌then◌else◌,
}
use foxess_local_gateway.Bytes.{slice, from_bytes, to_bytes}
use foxess_local_gateway.Protocol.Crc.{crc16_le}
use foxess_local_gateway.Protocol.Frame.{Frame, make_frame}
use foxess_local_gateway.Firmware.Variant.{
  FirmwareVariant, VariantName, foxess_7e_func_a2, foxess_7f_dynamic, foxess_7f_func_a2, crc_field,
  firmware_variant_for_frame,
}
use foxess_local_gateway.Firmware.Metadata.{FirmwareMetadata, parse_firmware_metadata}

pub record FirmwareCapture : Type 0 where
  pub metadata : Option FirmwareMetadata
  pub variant : Option FirmwareVariant
  pub data_bytes : List ℕ
  pub expected_chunk : ℕ

unfoldable pub init : FirmwareCapture
init = record { metadata = none; variant = none; data_bytes = []; expected_chunk = 0 }

pub data Failure : Type 0 where
  invalid_frame_crc serial_mismatch chunk_without_metadata protocol_changed image_too_large
        crc_mismatch save_failed :
      Failure

-- The reports, the acknowledgements written to the cloud, and the finished image.
pub data Effect : Type 0 where
  failed : Failure → Effect
  started : FirmwareMetadata → Effect
  chunk_error : ℕ → ℕ → Effect
  ack : List ℕ → Effect
  complete : FirmwareMetadata → List ℕ → Effect
  start_progress : Effect

-- What a call leaves: the state, the effects in order, and whether the frame was taken.
pub record Step : Type 0 where
  pub capture : FirmwareCapture
  pub effects : List Effect
  pub handled : Result Bool

-- `_send_ack`: the frame written.
unfoldable pub ack_frame : Frame → List ℕ → ℕ → FirmwareVariant → Result (List ℕ)
unfolding make_frame
ack_frame request payload first_device_byte v =
    make_frame v.start (first_device_byte ∷ drop 1 request.device) request.func payload v.end

abbrev pub same_name : VariantName → VariantName → Bool
same_name foxess_7e_func_a2 foxess_7e_func_a2 = true
same_name foxess_7f_dynamic foxess_7f_dynamic = true
same_name foxess_7f_func_a2 foxess_7f_func_a2 = true
same_name n m = false

-- Dataclass equality; the fields left out follow from the name.
abbrev pub same_variant : FirmwareVariant → FirmwareVariant → Bool
same_variant v w = same_name v.name w.name && v.func == w.func && v.magic =b w.magic

-- Send an acknowledgement and return true; an error in building it is raised.
abbrev pub acknowledge : FirmwareCapture → List Effect → Result (List ℕ) → Step
acknowledge c before (ok raw) = record {
  capture = c;
  effects = before ++ (ack raw ∷ []);
  handled = ok true;
}
acknowledge c before (err e) = record { capture = c; effects = before; handled = err e }

abbrev pub refuse : FirmwareCapture → Failure → Step
refuse c f = record { capture = c; effects = failed f ∷ []; handled = ok true }

-- `variant.magic + index.to_bytes(2, "big") + b"\x05"`, sent as an acknowledgement.
abbrev pub ack_next : Frame → FirmwareVariant → ℕ → Result (List ℕ)
ack_next frame v n = do
  number ← to_bytes 2 n
  ack_frame frame (v.magic ++ (number ++ 0x05 ∷ [])) 0xa1 v

unfoldable pub on_metadata :
    FirmwareCapture → Frame → FirmwareVariant → FirmwareMetadata → List ℕ → Step
unfolding ack_frame
on_metadata c frame v m serial =
    if serial =b [] || not (m.serial =b serial)
    then refuse c serial_mismatch
    else acknowledge
        (record { metadata = some m; variant = some v; data_bytes = []; expected_chunk = 0 })
        (started m ∷ []) (ack_frame frame (v.magic ++ 0x00 ∷ 0x00 ∷ 0x05 ∷ []) 0xa1 v)

-- The final acknowledgement, the report, the flash progress and the reset.
unfoldable pub finished : Bool → Bool → FirmwareCapture → FirmwareMetadata → Result (List ℕ) → Step
unfolding init
finished simulate_progress idle c m (ok raw) = record {
  capture = init;
  effects =
      ack raw
      ∷ complete m c.data_bytes
      ∷ (if simulate_progress && idle then start_progress ∷ [] else []);
  handled = ok true;
}
finished simulate_progress idle c m (err e) = record { capture = c; effects = []; handled = err e }

module _ (save : List ℕ → Bool) (simulate_progress idle : Bool) where
  -- All bytes have arrived.
  unfoldable pub on_image : FirmwareCapture → Frame → FirmwareVariant → FirmwareMetadata → Step
  unfolding finished ack_frame
  on_image c frame v m =
      if not (crc_field v (crc16_le c.data_bytes) =b m.crc)
      then refuse c crc_mismatch
      else if not (save c.data_bytes)
      then refuse c save_failed
      else finished simulate_progress idle c m
          (ack_frame frame (v.magic ++ v.final_ack_suffix) 0xa2 v)

  -- A chunk with the expected number, already appended to `c`.
  unfoldable pub on_appended : FirmwareCapture → Frame → FirmwareVariant → FirmwareMetadata → Step
  unfolding on_image ack_frame
  on_appended c frame v m =
      if ltb m.size (length c.data_bytes)
      then refuse c image_too_large
      else if ltb (length c.data_bytes) m.size
      then acknowledge c [] (ack_next frame v c.expected_chunk)
      else on_image c frame v m

  unfoldable pub on_chunk :
      FirmwareCapture → Frame → FirmwareVariant → FirmwareMetadata → FirmwareVariant → Step
  unfolding on_appended ack_frame
  on_chunk c frame v m current =
      if not (same_variant v current)
      then refuse c protocol_changed
      else (let chunk_index = from_bytes (slice 5 7 frame.payload) in
          if not (chunk_index == c.expected_chunk)
          then acknowledge c (chunk_error c.expected_chunk chunk_index ∷ [])
              (ack_next frame v c.expected_chunk)
          else on_appended
              (record c {
                data_bytes = c.data_bytes ++ drop 7 frame.payload;
                expected_chunk = c.expected_chunk + 1;
              })
              frame v m)

  -- No metadata in this frame.
  unfoldable pub on_data :
      FirmwareCapture
      → Frame
      → FirmwareVariant
      → Option FirmwareMetadata
      → Option FirmwareVariant
      → Step
  unfolding on_chunk
  on_data c frame v (some m) (some current) =
      if ltb (length frame.payload) 7
      then refuse c chunk_without_metadata
      else on_chunk c frame v m current
  on_data c frame v m current = refuse c chunk_without_metadata

  -- A frame of a firmware transfer.
  unfoldable pub on_transfer :
      FirmwareCapture → Frame → FirmwareVariant → List ℕ → Result FirmwareMetadata → Step
  unfolding on_metadata on_data
  on_transfer c frame v serial parsed =
      if frame.valid_crc
      then elim parsed [
        | ok m ↦ on_metadata c frame v m serial
        | err e ↦ on_data c frame v c.metadata c.variant
      ]
      else refuse c invalid_frame_crc

  module _ (path_name : List ℕ → List ℕ) where
    -- With the variant found for the frame.
    unfoldable pub on_frame : FirmwareCapture → Frame → List ℕ → Option FirmwareVariant → Step
    unfolding parse_firmware_metadata on_transfer
    on_frame c frame serial none = record { capture = c; effects = []; handled = ok false }
    on_frame c frame serial (some v) =
        on_transfer c frame v serial (parse_firmware_metadata path_name frame.payload (some v))

    unfoldable pub handle_upstream_frame : FirmwareCapture → Frame → List ℕ → Step
    unfolding firmware_variant_for_frame on_frame
    handle_upstream_frame c frame serial =
        on_frame c frame serial (firmware_variant_for_frame frame)
