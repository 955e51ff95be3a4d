-- ===== src/Examples/Updates.antt =====
-- Runs of foxess_local_cloud/firmware.py, foxess_local_cloud/telemetry.py and
-- foxess_local_cloud/ble_provision.py.
use foxess_local_gateway.Prelude.{
  arith, ◌>>=◌, ℕ, zero, suc, ◌+◌, ◌≡◌, ◌↔◌, refl, List, [], ◌∷◌, ◌++◌, length, map, Bool, true,
  false, not, some, ok, ◌==◌,
}
use foxess_local_gateway.Protocol.Crc.{crc16_le}
use foxess_local_gateway.Protocol.Frame.{Frame}
use foxess_local_gateway.Firmware.Variant.{
  crc_field, firmware_magic, firmware_variant_7f_a2, firmware_variant_for_frame,
  is_firmware_transfer_frame,
}
use foxess_local_gateway.Protocol.Info.{strip}
use foxess_local_gateway.Firmware.Metadata.{
  FirmwareMetadata, FirmwareImage, safe_firmware_filename, replace_unsafe, build_firmware_metadata,
  parse_firmware_metadata,
}
use foxess_local_gateway.Firmware.Metadata.RoundTrip.{metadata_round_trip}
use foxess_local_gateway.Firmware.Capture.{FirmwareCapture, handle_upstream_frame}
use foxess_local_gateway.Firmware.Capture.Safety.{
  EveryComplete, Verified, transfers_withheld, saved_images_checked,
}
use foxess_local_gateway.Firmware.Chunks.{chunks, join, AllSized, chunks_rejoin}
use foxess_local_gateway.Telemetry.{Telemetry, u16, decoded, decode_telemetry}
use foxess_local_gateway.Telemetry.Strings.{or_none, pv_power_total}
use foxess_local_gateway.Ble.{scan_body}
use foxess_local_gateway.Ble.Scan.{records_of, network_of, scan_round_trip}
use foxess_local_gateway.Examples.Requests.{carrying}

-- A file system that takes every image, and file names without a directory.
abbrev accepted : List ℕ → Bool
accepted image = true

abbrev same_path : List ℕ → List ℕ
same_path name = name

abbrev serial : List ℕ
serial = b'6' ∷ b'0' ∷ []

abbrev image_bytes : List ℕ
image_bytes = 1 ∷ 2 ∷ 3 ∷ []

-- The only chunk of a three-byte image.
abbrev chunk : Frame
chunk = record (carrying (firmware_magic ++ 0 ∷ 0 ∷ image_bytes)) { func = 0xa2 }

abbrev announced : FirmwareMetadata
unfolding crc_field crc16_le
announced = record {
  size = 3;
  crc = crc_field firmware_variant_7f_a2 (crc16_le image_bytes);
  filename = b'f' ∷ [];
  serial = serial;
  timeout_seconds = 300;
  variant = firmware_variant_7f_a2;
}

abbrev collecting : FirmwareCapture
collecting = record {
  metadata = some announced;
  variant = some firmware_variant_7f_a2;
  data_bytes = [];
  expected_chunk = 0;
}

is_7f_a2 : firmware_variant_for_frame chunk ≡ some firmware_variant_7f_a2
unfolding firmware_variant_for_frame
is_7f_a2 = refl

transfers_withheld_example :
    (handle_upstream_frame accepted true true same_path collecting chunk serial).handled ≡ ok false
    ↔ is_firmware_transfer_frame chunk ≡ false
transfers_withheld_example = transfers_withheld accepted true true same_path collecting chunk serial

saved_images_checked_example :
    EveryComplete
      (Verified accepted collecting chunk firmware_variant_7f_a2)
      (handle_upstream_frame accepted true true same_path collecting chunk serial).effects
saved_images_checked_example =
    saved_images_checked accepted true true same_path collecting chunk serial firmware_variant_7f_a2
      is_7f_a2

abbrev image : FirmwareImage
unfolding crc16_le
image = record { image = image_bytes; filename = b'f' ∷ []; size = 3; crc = crc16_le image_bytes }

chunks_rejoin_example : (join (chunks image) ≡ image.image) × AllSized (chunks image)
unfolding image
chunks_rejoin_example = chunks_rejoin image refl

-- `n` copies of a byte.
abbrev filled : ℕ → ℕ → List ℕ
filled zero b = []
filled (suc n) b = b ∷ filled n b

-- Floats shown by the number before scaling.
abbrev unscaled : ℕ → ℕ → ℕ → ℕ
unscaled v d n = v

abbrev not_zero : ℕ → Bool
not_zero v = not (v == 0)

abbrev reading : Telemetry ℕ
unfolding decoded
reading = decoded ℕ unscaled not_zero (filled 238 1) [] true

reading_decoded : decode_telemetry ℕ unscaled not_zero (filled 238 1) [] ≡ ok reading
unfolding decode_telemetry reading
reading_decoded = refl

pv_power_total_example :
    (reading.pv_power_w
      ≡ u16 (filled 238 1) 40
        + u16 (filled 238 1) 46
        + u16 (filled 238 1) 52
        + u16 (filled 238 1) 58)
    × (reading.pv_power_w
        ≡ reading.pv1_power_w
          + reading.pv2_power_w
          + or_none reading.pv3_power_w
          + or_none reading.pv4_power_w)
pv_power_total_example =
    pv_power_total ℕ unscaled not_zero (filled 238 1) [] reading reading_decoded

abbrev seen : List (ℕ × List ℕ)
seen = (200, b'a' ∷ b'b' ∷ []) ∷ (190, b'c' ∷ []) ∷ []

scan_round_trip_example :
    scan_body (List ℕ) same_path (1 ∷ length seen ∷ (records_of seen ++ 0 ∷ []))
    ≡ map (network_of (List ℕ) same_path) seen
scan_round_trip_example = scan_round_trip (List ℕ) same_path 1 seen (0 ∷ [])

image_safe : safe_firmware_filename same_path image.filename ≡ ok (b'f' ∷ [])
unfolding image safe_firmware_filename replace_unsafe strip
image_safe = refl

metadata_round_trip_example :
    (build_firmware_metadata image serial firmware_variant_7f_a2 >>= λ payload.
    parse_firmware_metadata same_path payload (some firmware_variant_7f_a2))
    ≡ ok (record {
      size = image.size;
      crc = crc_field firmware_variant_7f_a2 image.crc;
      filename = image.filename;
      serial = serial;
      timeout_seconds = 300;
      variant = firmware_variant_7f_a2;
    })
unfolding image
metadata_round_trip_example =
    metadata_round_trip same_path image serial (b'f' ∷ []) firmware_variant_7f_a2 refl refl
      (omega arith) refl (omega arith) (omega arith) (omega arith) refl refl image_safe
