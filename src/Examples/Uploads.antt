-- ===== src/Examples/Uploads.antt =====
-- A run of the uploader of foxess_local_cloud/firmware.py.
use foxess_local_gateway.Prelude.{ℕ, ◌≡◌, refl, List, [], ◌∷◌, ◌++◌, drop, true, some}
use foxess_local_gateway.Protocol.Frame.{Frame}
use foxess_local_gateway.Firmware.Variant.{firmware_magic, firmware_variant_7f_a2}
use foxess_local_gateway.Firmware.Upload.{
  FirmwareUploader, open_future, done_with, handle_client_frame, ack_belongs,
}
use foxess_local_gateway.Examples.Requests.{carrying}

abbrev awaited_tail : List ℕ
awaited_tail = 0x00 ∷ 0xf0 ∷ 0xaa ∷ []

abbrev uploading : FirmwareUploader
uploading = record {
  active = true;
  expected_tail = some awaited_tail;
  ack_future = open_future;
  progress_queue = [];
  variant = some firmware_variant_7f_a2;
}

abbrev first_ack : Frame
first_ack = record (carrying (firmware_magic ++ 0 ∷ 1 ∷ 5 ∷ [])) { func = 0xa2 }

acknowledged_now :
    (handle_client_frame first_ack uploading).0.ack_future ≡ done_with first_ack.payload
unfolding handle_client_frame
acknowledged_now = refl

ack_belongs_example :
    (first_ack.payload ≡ first_ack.payload) × (drop 1 first_ack.device ≡ awaited_tail)
ack_belongs_example =
    ack_belongs first_ack uploading awaited_tail first_ack.payload refl refl acknowledged_now
