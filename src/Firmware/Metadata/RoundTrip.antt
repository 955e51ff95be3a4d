-- ===== src/Firmware/Metadata/RoundTrip.antt =====
-- `parse_firmware_metadata` after `build_firmware_metadata` of foxess_local_cloud/firmware.py.
use foxess_local_gateway.Prelude.{
  ℕ, ◌/◌, ◌%◌, ◌<◌, ◌≤◌, ◌≡◌, refl, sym, ap, ◌∙◌, arith, List, [], ◌∷◌, ◌++◌, length, Bool, true,
  some, Bool-cases, inl, inr, Result, ok, ltb, ◌>>=◌, if◌then◌else◌,
}
use foxess_local_gateway.Protocol.Frame.RoundTrip.{two_bytes}
use foxess_local_gateway.Bytes.{all_bytes}
use foxess_local_gateway.Firmware.Variant.{FirmwareVariant, crc_field}
use foxess_local_gateway.Firmware.Metadata.{
  FirmwareMetadata, FirmwareImage, safe_firmware_filename, parse_firmware_metadata,
  build_firmware_metadata,
}
use foxess_local_gateway.Firmware.Metadata.Parsing.{whole_parses}

built_bytes :
    (image : FirmwareImage) (serial : List ℕ) (v : FirmwareVariant)
    → v.filename_has_length ≡ true
    → image.size < 65536
    → length image.filename < 256
    → 1 ≤ length serial
    → length serial < 256
    → all_bytes (λ b. ltb b 128) image.filename ≡ true
    → all_bytes (λ b. ltb b 128) serial ≡ true
    → build_firmware_metadata image serial v
      ≡ ok (
          v.magic
          ++ (0
              ∷ 0
              ∷ (image.size / 256
                  ∷ image.size % 256
                  ∷ (crc_field v image.crc
                      ++ (length image.filename
                          ∷ (image.filename ++ (0 ∷ length serial ∷ (serial ++ (1 ∷ 44 ∷ [])))))))))
unfolding build_firmware_metadata
built_bytes image serial v counted fits name_fits some_serial serial_fits name_ascii ascii =
    ground (arith, two_bytes image.size fits)

five_bytes :
    (xs : List ℕ)
    → length xs ≡ 5
    → (a : ℕ) × (b : ℕ) × (c : ℕ) × (d : ℕ) × (e : ℕ) × (xs ≡ a ∷ b ∷ c ∷ d ∷ e ∷ [])
five_bytes (a ∷ b ∷ c ∷ d ∷ e ∷ []) h = (a, b, c, d, e, refl)
five_bytes [] h = absurd (omega arith)
five_bytes (a ∷ []) h = absurd (omega arith)
five_bytes (a ∷ b ∷ []) h = absurd (omega arith)
five_bytes (a ∷ b ∷ c ∷ []) h = absurd (omega arith)
five_bytes (a ∷ b ∷ c ∷ d ∷ []) h = absurd (omega arith)
five_bytes (a ∷ b ∷ c ∷ d ∷ e ∷ f ∷ xs) h = absurd (omega arith)

crc_two :
    (v : FirmwareVariant) (crc : List ℕ)
    → length crc ≡ 2
    → (c0 : ℕ) × (c1 : ℕ) × (crc_field v crc ≡ c0 ∷ c1 ∷ [])
unfolding crc_field
crc_two v (a ∷ b ∷ []) h = elim (Bool-cases v.crc_field_big_endian) [
  | inl e ↦ (b, a, ap (λ (x : Bool). if x then b ∷ a ∷ [] else a ∷ b ∷ []) e)
  | inr e ↦ (a, b, ap (λ (x : Bool). if x then b ∷ a ∷ [] else a ∷ b ∷ []) e)
]
crc_two v [] h = absurd (omega arith)
crc_two v (a ∷ []) h = absurd (omega arith)
crc_two v (a ∷ b ∷ c ∷ xs) h = absurd (omega arith)

-- For a variant with a five-byte transfer id whose filenames carry their length, and an image whose
-- fields fit the protocol, with an ASCII serial of 1 to 255 characters and an accepted ASCII filename
-- of at most 255: the metadata is built without an error, and parsed back to the same fields and a
-- timeout of 300 seconds.
pub metadata_round_trip :
    (path_name : List ℕ → List ℕ) (image : FirmwareImage) (serial safe : List ℕ)
    (v : FirmwareVariant)
    → v.filename_has_length ≡ true
    → length v.magic ≡ 5
    → image.size < 65536
    → length image.crc ≡ 2
    → length image.filename < 256
    → 1 ≤ length serial
    → length serial < 256
    → all_bytes (λ b. ltb b 128) image.filename ≡ true
    → all_bytes (λ b. ltb b 128) serial ≡ true
    → safe_firmware_filename path_name image.filename ≡ ok safe
    → (build_firmware_metadata image serial v >>= λ payload.
        parse_firmware_metadata path_name payload (some v))
      ≡ ok (record {
        size = image.size;
        crc = crc_field v image.crc;
        filename = image.filename;
        serial = serial;
        timeout_seconds = 300;
        variant = v;
      })
metadata_round_trip path_name image serial safe v counted five fits two name_fits some_serial
      serial_fits name_ascii ascii good =
    let (m0, m1, m2, m3, m4, magic) = five_bytes v.magic five in
    let (c0, c1, crc) = crc_two v image.crc two in
    let rest : List ℕ =
      length image.filename ∷ (image.filename ++ (0 ∷ length serial ∷ (serial ++ (1 ∷ 44 ∷ [])))) in
    let parse : List ℕ → Result FirmwareMetadata =
      λ payload. parse_firmware_metadata path_name payload (some v) in
    ap (λ (r : Result (List ℕ)). r >>= parse)
      (built_bytes image serial v counted fits name_fits some_serial serial_fits name_ascii ascii)
    ∙ ap
        (λ (m : List ℕ).
          parse (
            m ++ (0 ∷ 0 ∷ (image.size / 256 ∷ image.size % 256 ∷ (crc_field v image.crc ++ rest)))))
        magic
    ∙ ap
        (λ (c : List ℕ).
          parse
            (m0 ∷ m1 ∷ m2 ∷ m3 ∷ m4 ∷ 0 ∷ 0 ∷ image.size / 256 ∷ image.size % 256 ∷ (c ++ rest)))
        crc
    ∙ whole_parses path_name v m0 m1 m2 m3 m4 image.size c0 c1 image.filename serial safe counted
        magic fits some_serial name_ascii ascii good
    ∙ ap
        (λ (c : List ℕ). ok (record {
          size = image.size;
          crc = c;
          filename = image.filename;
          serial = serial;
          timeout_seconds = 300;
          variant = v;
        }))
        (sym crc)
