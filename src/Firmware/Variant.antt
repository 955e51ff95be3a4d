-- ===== src/Firmware/Variant.antt =====
-- The transfer variants of foxess_local_cloud/firmware.py, and how a frame or a payload selects one.
use mathlib.Core.List.{reverse}
use foxess_local_gateway.Prelude.{
  ℕ, List, [], ◌∷◌, length, take, Bool, true, false, ◌&&◌, ◌||◌, Option, none, some, leb, ◌==◌,
  ◌=b◌, if◌then◌else◌,
}
use foxess_local_gateway.Bytes.{slice, starts_with}
use foxess_local_gateway.Protocol.Frame.{Frame, Family, family_7e, family_7f, family}

pub data VariantName : Type 0 where
  foxess_7e_func_a2 foxess_7f_dynamic foxess_7f_func_a2 : VariantName

pub record FirmwareVariant : Type 0 where
  pub name : VariantName
  pub start : List ℕ
  pub end : List ℕ
  pub family : Family
  pub func : ℕ
  pub magic : List ℕ
  pub filename_has_length : Bool
  pub crc_field_big_endian : Bool
  pub final_ack_suffix : List ℕ

unfoldable pub crc_field : FirmwareVariant → List ℕ → List ℕ
crc_field v crc_le = if v.crc_field_big_endian then reverse crc_le else crc_le

abbrev pub firmware_magic : List ℕ
firmware_magic = 0xfa ∷ 0x6b ∷ 0x7c ∷ 0x7a ∷ 0x4d ∷ []

abbrev pub firmware_envelope_func : ℕ
firmware_envelope_func = 0xa2

abbrev pub firmware_variant_7e_a2 : FirmwareVariant
firmware_variant_7e_a2 = record {
  name = foxess_7e_func_a2;
  start = 0x7e ∷ 0x7e ∷ [];
  end = 0xe7 ∷ 0xe7 ∷ [];
  family = family_7e;
  func = firmware_envelope_func;
  magic = firmware_magic;
  filename_has_length = true;
  crc_field_big_endian = false;
  final_ack_suffix = [];
}

abbrev pub firmware_variant_7f_99 : FirmwareVariant
firmware_variant_7f_99 = record {
  name = foxess_7f_dynamic;
  start = 0x7f ∷ 0x7f ∷ [];
  end = 0xf7 ∷ 0xf7 ∷ [];
  family = family_7f;
  func = 0x99;
  magic = 0x01 ∷ 0x74 ∷ 0x7c ∷ 0x7a ∷ 0x4d ∷ [];
  filename_has_length = true;
  crc_field_big_endian = true;
  final_ack_suffix = 0x00 ∷ [];
}

abbrev pub firmware_variant_7f_a2 : FirmwareVariant
firmware_variant_7f_a2 = record firmware_variant_7f_99 {
  name = foxess_7f_func_a2;
  func = firmware_envelope_func;
  magic = firmware_magic;
}

-- Bytes 2 to 4 of every transfer id.
abbrev pub stable_signature : List ℕ
stable_signature = 0x7c ∷ 0x7a ∷ 0x4d ∷ []

unfoldable pub variant_for_payload : List ℕ → Option FirmwareVariant
variant_for_payload payload =
    if starts_with payload firmware_variant_7e_a2.magic
    then some firmware_variant_7f_a2
    else if leb 5 (length payload) && slice 2 5 payload =b stable_signature
    then some (record firmware_variant_7f_99 { magic = take 5 payload })
    else none

abbrev pub is_7e : Family → Bool
is_7e family_7e = true
is_7e f = false

abbrev pub is_7f : Family → Bool
is_7f family_7f = true
is_7f f = false

unfoldable pub firmware_variant_for_frame : Frame → Option FirmwareVariant
unfolding family
firmware_variant_for_frame frame =
    if is_7e (family frame)
      && frame.func == firmware_envelope_func
      && starts_with frame.payload firmware_magic
    then some firmware_variant_7e_a2
    else if is_7f (family frame)
        && frame.func == firmware_envelope_func
        && starts_with frame.payload firmware_magic
    then some firmware_variant_7f_a2
    else if is_7f (family frame)
        && (take 1 frame.device =b 0x21 ∷ [] || take 1 frame.device =b 0x22 ∷ [])
        && leb 5 (length frame.payload)
        && slice 2 5 frame.payload =b stable_signature
    then some (record firmware_variant_7f_99 { func = frame.func; magic = take 5 frame.payload })
    else none

abbrev pub is_found {ℓ} : {A : Type ℓ} → Option A → Bool
is_found none = false
is_found (some v) = true

unfoldable pub is_firmware_transfer_frame : Frame → Bool
unfolding firmware_variant_for_frame
is_firmware_transfer_frame frame = is_found (firmware_variant_for_frame frame)
