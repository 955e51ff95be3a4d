-- ===== src/Firmware/Metadata.antt =====
-- `FirmwareMetadata`, `FirmwareImage` and their wire form, of foxess_local_cloud/firmware.py. Text is
-- a list of code points; `path_name` stands for pathlib's `Path(…).name`.
pub mod Parsing
pub mod RoundTrip
use foxess_local_gateway.Prelude.{
  ℕ, ◌+◌, List, [], ◌∷◌, ◌++◌, length, drop, Bool, true, false, not, ◌||◌, Option, none, some,
  Result, ok, err, firmware_error, unicode_error, ltb, ◌==◌, ◌=b◌, ◌>>=◌, if◌then◌else◌,
}
use foxess_local_gateway.Bytes.{slice, index, from_bytes, to_bytes, starts_with, find, all_bytes}
use foxess_local_gateway.Protocol.Crc.{crc16_le}
use foxess_local_gateway.Protocol.Frame.{single_byte}
use foxess_local_gateway.Protocol.Info.{strip, is_alnum}
use foxess_local_gateway.Firmware.Variant.{FirmwareVariant, variant_for_payload, crc_field}

pub record FirmwareMetadata : Type 0 where
  pub size : ℕ
  pub crc : List ℕ
  pub filename : List ℕ
  pub serial : List ℕ
  pub timeout_seconds : ℕ
  pub variant : FirmwareVariant

-- The SHA-256 digest, which only reports use, is left out.
pub record FirmwareImage : Type 0 where
  pub image : List ℕ
  pub filename : List ℕ
  pub size : ℕ
  pub crc : List ℕ

abbrev pub firmware_timeout_seconds : ℕ
firmware_timeout_seconds = 300

-- `[A-Za-z0-9._() -]`
abbrev pub is_safe_char : ℕ → Bool
is_safe_char c =
    is_alnum c || c == b'.' || c == b'_' || c == b'(' || c == b')' || c == b' ' || c == b'-'

-- Every run of other characters becomes one underscore; `inside`: the last character was of a run.
unfoldable pub replace_unsafe : Bool → List ℕ → List ℕ
replace_unsafe inside [] = []
replace_unsafe inside (c ∷ cs) =
    let safe = is_safe_char c in
    let rest = replace_unsafe (not safe) cs in
    if safe then c ∷ rest else if inside then rest else b'_' ∷ rest

module _ (path_name : List ℕ → List ℕ) where
  unfoldable pub safe_firmware_filename : List ℕ → Result (List ℕ)
  safe_firmware_filename filename =
      let name = replace_unsafe false (strip (path_name filename)) in
      if name =b [] || name =b b'.' ∷ [] || name =b b'.' ∷ b'.' ∷ []
      then err firmware_error
      else if ltb 255 (length name)
      then err firmware_error
      else ok name

  unfoldable pub from_image_bytes : List ℕ → List ℕ → Result FirmwareImage
  from_image_bytes image filename =
      if length image == 0
      then err firmware_error
      else if ltb 0xffff (length image)
      then err firmware_error
      else (do
        name ← safe_firmware_filename filename
        ok (record { image = image; filename = name; size = length image; crc = crc16_le image }))

  -- A `UnicodeDecodeError` becomes a `FirmwareProtocolError`.
  abbrev pub ascii_or_fail : List ℕ → Result (List ℕ)
  ascii_or_fail bs = if all_bytes (λ b. ltb b 128) bs then ok bs else err firmware_error

  -- Where the filename starts and ends.
  abbrev pub name_bounds : FirmwareVariant → List ℕ → Result (ℕ × ℕ)
  name_bounds v payload =
      if v.filename_has_length
      then (do n ← index payload 11; ok (12, 12 + n))
      else elim (find (0 ∷ []) (drop 11 payload)) [
        | none ↦ err firmware_error
        | some i ↦ ok (11, 11 + i)
      ]

  -- From the serial's length on; the filename is `filename` and ends at `name_end`.
  unfoldable pub parse_serial : FirmwareVariant → List ℕ → ℕ → List ℕ → Result FirmwareMetadata
  parse_serial v payload name_end filename = do
    serial_len ← index payload (name_end + 1)
    whole ←
        (if name_end + 2 + serial_len + 2 == length payload then ok true else err firmware_error)
    serial ← ascii_or_fail (slice (name_end + 2) (name_end + 2 + serial_len) payload)
    ok (record {
      size = from_bytes (slice 7 9 payload);
      crc = slice 9 11 payload;
      filename = filename;
      serial = serial;
      timeout_seconds =
          from_bytes (slice (name_end + 2 + serial_len) (name_end + 2 + serial_len + 2) payload);
      variant = v;
    })

  -- From the filename on.
  unfoldable pub parse_tail : FirmwareVariant → List ℕ → ℕ → ℕ → Result FirmwareMetadata
  parse_tail v payload name_start name_end =
      if ltb (length payload) (name_end + 4) then err firmware_error else (do
        filename ← ascii_or_fail (slice name_start name_end payload)
        safe ← safe_firmware_filename filename
        terminator ← index payload name_end
        ended ← (if terminator == 0 then ok true else err firmware_error)
        parse_serial v payload name_end filename)

  abbrev pub parse_as : List ℕ → Option FirmwareVariant → Result FirmwareMetadata
  parse_as payload none = err firmware_error
  parse_as payload (some v) =
      if ltb (length payload) 15 || not (starts_with payload (v.magic ++ 0x00 ∷ 0x00 ∷ []))
      then err firmware_error
      else (do bounds ← name_bounds v payload; parse_tail v payload bounds.0 bounds.1)

  -- `variant or variant_for_payload(payload)`
  abbrev pub chosen : List ℕ → Option FirmwareVariant → Option FirmwareVariant
  chosen payload (some v) = some v
  chosen payload none = variant_for_payload payload

  unfoldable pub parse_firmware_metadata : List ℕ → Option FirmwareVariant → Result FirmwareMetadata
  unfolding parse_tail
  parse_firmware_metadata payload variant = parse_as payload (chosen payload variant)

-- `text.encode("ascii", errors="strict")`
abbrev pub encode_ascii : List ℕ → Result (List ℕ)
encode_ascii text = if all_bytes (λ c. ltb c 128) text then ok text else err unicode_error

unfoldable pub build_firmware_metadata : FirmwareImage → List ℕ → FirmwareVariant → Result (List ℕ)
build_firmware_metadata image serial v = do
  serial_bytes ← encode_ascii serial
  fits ←
      (if length serial_bytes == 0 || ltb 255 (length serial_bytes)
        then err firmware_error
        else ok true)
  name ← encode_ascii image.filename
  name_len ← (if v.filename_has_length then single_byte (length name) else ok [])
  size ← to_bytes 2 image.size
  serial_len ← single_byte (length serial_bytes)
  seconds ← to_bytes 2 firmware_timeout_seconds
  ok (
      v.magic
      ++ (0x00
          ∷ 0x00
          ∷ (size
              ++ (crc_field v image.crc
                  ++ (name_len ++ (name ++ (0x00 ∷ (serial_len ++ (serial_bytes ++ seconds)))))))))
