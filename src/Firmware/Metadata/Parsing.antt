-- ===== src/Firmware/Metadata/Parsing.antt =====
-- `parse_firmware_metadata` of foxess_local_cloud/firmware.py on a payload laid out in parts.
use foxess_local_gateway.Prelude.{
  ℕ, zero, suc, ◌+◌, ◌/◌, ◌%◌, ◌<◌, ◌≤◌, ◌≡◌, refl, sym, ap, ◌∙◌, arith, List, [], ◌∷◌, ◌++◌,
  append_assoc, length, length-append, get_elem?, Bool, true, false, not, ◌||◌, =b-refl, some,
  Result, ok, err, firmware_error, ltb, ◌==◌, ◌>>=◌, if◌then◌else◌,
}
use foxess_local_gateway.Bytes.{slice, slice-part, from_bytes, index, starts_with, all_bytes}
use foxess_local_gateway.Firmware.Variant.{FirmwareVariant}
use foxess_local_gateway.Firmware.Metadata.{
  FirmwareMetadata, safe_firmware_filename, parse_serial, parse_tail, parse_as, name_bounds,
  parse_firmware_metadata,
}

get_elem?-skip :
    (xs ys : List ℕ) (i k : ℕ) → i ≡ length xs + k → get_elem? (xs ++ ys) i ≡ get_elem? ys k
get_elem?-skip [] ys i k h = ap (get_elem? ys) (omega arith)
get_elem?-skip (x ∷ xs) ys zero k h = absurd (omega arith)
get_elem?-skip (x ∷ xs) ys (suc i) k h = get_elem?-skip xs ys i k (omega arith)

index_found : (xs : List ℕ) (i b : ℕ) → get_elem? xs i ≡ some b → index xs i ≡ ok b
index_found xs i b h = ground arith

counted_bounds :
    (path_name : List ℕ → List ℕ) (v : FirmwareVariant) (payload : List ℕ) (n : ℕ)
    → v.filename_has_length ≡ true
    → index payload 11 ≡ ok n
    → name_bounds path_name v payload ≡ ok (12, 12 + n)
counted_bounds path_name v payload n counted found = ground arith

metadata_step :
    (path_name : List ℕ → List ℕ) (v : FirmwareVariant) (payload : List ℕ) (n : ℕ)
    → ltb (length payload) 15 ≡ false
    → starts_with payload (v.magic ++ 0 ∷ 0 ∷ []) ≡ true
    → name_bounds path_name v payload ≡ ok (12, 12 + n)
    → parse_as path_name payload (some v) ≡ parse_tail path_name v payload 12 (12 + n)
metadata_step path_name v payload n long starts bounds =
    ap
      (λ (b : Bool).
        if b || not (starts_with payload (v.magic ++ 0 ∷ 0 ∷ [])) then err firmware_error else tail)
      long
    ∙ ap (λ (b : Bool). if not b then err firmware_error else tail) starts
    ∙ ap (λ (r : Result (ℕ × ℕ)). r >>= λ b. parse_tail path_name v payload b.0 b.1) bounds
  where
    tail : Result FirmwareMetadata
    tail = name_bounds path_name v payload >>= λ b. parse_tail path_name v payload b.0 b.1

-- The parser from the serial on, and from the filename on, when the parts stand where they should.
serial_step :
    (path_name : List ℕ → List ℕ) (v : FirmwareVariant) (payload name serial seconds : List ℕ)
    (e : ℕ)
    → index payload (e + 1) ≡ ok (length serial)
    → length payload ≡ e + 2 + length serial + 2
    → slice (e + 2) (e + 2 + length serial) payload ≡ serial
    → all_bytes (λ b. ltb b 128) serial ≡ true
    → slice (e + 2 + length serial) (e + 2 + length serial + 2) payload ≡ seconds
    → parse_serial path_name v payload e name
      ≡ ok (record {
        size = from_bytes (slice 7 9 payload);
        crc = slice 9 11 payload;
        filename = name;
        serial = serial;
        timeout_seconds = from_bytes seconds;
        variant = v;
      })
unfolding parse_serial
serial_step path_name v payload name serial seconds e at size part ascii last =
    rw (at, whole-length, part, ascii, last) refl
  where
    whole-length : (e + 2 + length serial + 2 == length payload) ≡ true
    whole-length = ground arith

name_step :
    (path_name : List ℕ → List ℕ) (v : FirmwareVariant) (payload name safe : List ℕ) (start e : ℕ)
    → e + 4 ≤ length payload
    → slice start e payload ≡ name
    → all_bytes (λ b. ltb b 128) name ≡ true
    → safe_firmware_filename path_name name ≡ ok safe
    → index payload e ≡ ok 0
    → parse_tail path_name v payload start e ≡ parse_serial path_name v payload e name
unfolding parse_tail
name_step path_name v payload name safe start e long part ascii good at =
    rw (room, part, ascii, good, at) refl
  where
    room : ltb (length payload) (e + 4) ≡ false
    room = ground arith

module _ (path_name : List ℕ → List ℕ) (v : FirmwareVariant) (m0 m1 m2 m3 m4 size c0 c1 : ℕ)
    (name serial : List ℕ) where
  -- The bytes before the filename, and the whole payload.
  abbrev pub front : List ℕ
  front = m0 ∷ m1 ∷ m2 ∷ m3 ∷ m4 ∷ 0 ∷ 0 ∷ size / 256 ∷ size % 256 ∷ c0 ∷ c1 ∷ length name ∷ []

  abbrev pub whole : List ℕ
  whole = front ++ (name ++ (0 ∷ length serial ∷ (serial ++ (1 ∷ 44 ∷ []))))

  whole-length : length whole ≡ 16 + length name + length serial
  whole-length = omega (
    arith,
    length-append name (0 ∷ length serial ∷ (serial ++ (1 ∷ 44 ∷ []))),
    length-append serial (1 ∷ 44 ∷ []),
  )

  name_part : slice 12 (12 + length name) whole ≡ name
  name_part =
      slice-part 12 (12 + length name) front name (0 ∷ length serial ∷ (serial ++ (1 ∷ 44 ∷ [])))
        refl refl

  after_name :
      (k : ℕ)
      → get_elem? whole (12 + length name + k)
        ≡ get_elem? (0 ∷ length serial ∷ (serial ++ (1 ∷ 44 ∷ []))) k
  after_name k =
      get_elem?-skip front (name ++ (0 ∷ length serial ∷ (serial ++ (1 ∷ 44 ∷ []))))
        (12 + length name + k) (length name + k) (omega arith)
      ∙ get_elem?-skip name (0 ∷ length serial ∷ (serial ++ (1 ∷ 44 ∷ []))) (length name + k) k refl

  -- Up to the serial.
  abbrev head : List ℕ
  head = front ++ (name ++ (0 ∷ length serial ∷ []))

  head-length : length head ≡ 14 + length name
  head-length = omega (arith, length-append name (0 ∷ length serial ∷ []))

  split_head : head ++ (serial ++ (1 ∷ 44 ∷ [])) ≡ whole
  split_head =
      ap (◌++◌ front) (append_assoc name (0 ∷ length serial ∷ []) (serial ++ (1 ∷ 44 ∷ [])))

  serial_part : slice (12 + length name + 2) (12 + length name + 2 + length serial) whole ≡ serial
  serial_part =
      ap (slice (12 + length name + 2) (12 + length name + 2 + length serial)) (sym split_head)
      ∙ slice-part (12 + length name + 2) (12 + length name + 2 + length serial) head serial
          (1 ∷ 44 ∷ []) (omega (arith, head-length)) (omega (arith, head-length))

  timeout_part :
      slice (12 + length name + 2 + length serial) (12 + length name + 2 + length serial + 2) whole
      ≡ 1 ∷ 44 ∷ []
  timeout_part =
      ap (slice (12 + length name + 2 + length serial) (12 + length name + 2 + length serial + 2))
        (sym split_head ∙ sym (append_assoc head serial (1 ∷ 44 ∷ [])))
      ∙ slice-part (12 + length name + 2 + length serial) (12 + length name + 2 + length serial + 2)
          (head ++ serial) (1 ∷ 44 ∷ []) [] (omega (arith, head-length, length-append head serial))
          (omega (arith, head-length, length-append head serial))

  abbrev pub described_metadata : FirmwareMetadata
  described_metadata = record {
    size = size;
    crc = c0 ∷ c1 ∷ [];
    filename = name;
    serial = serial;
    timeout_seconds = 300;
    variant = v;
  }

  serial_parses :
      size < 65536
      → all_bytes (λ b. ltb b 128) serial ≡ true
      → parse_serial path_name v whole (12 + length name) name ≡ ok described_metadata
  serial_parses fits ascii =
      serial_step path_name v whole name serial (1 ∷ 44 ∷ []) (12 + length name)
        (index_found whole (12 + length name + 1) (length serial) (after_name 1))
        (omega (arith, whole-length)) serial_part ascii timeout_part
      ∙ ap (λ (n : ℕ). ok (record described_metadata { size = n })) (omega arith)

  -- A variant whose filenames carry their length, and the payload of the variant's transfer.
  pub whole_parses :
      (safe : List ℕ)
      → v.filename_has_length ≡ true
      → v.magic ≡ m0 ∷ m1 ∷ m2 ∷ m3 ∷ m4 ∷ []
      → size < 65536
      → 1 ≤ length serial
      → all_bytes (λ b. ltb b 128) name ≡ true
      → all_bytes (λ b. ltb b 128) serial ≡ true
      → safe_firmware_filename path_name name ≡ ok safe
      → parse_firmware_metadata path_name whole (some v) ≡ ok described_metadata
  unfolding parse_firmware_metadata
  whole_parses safe counted magic fits some_serial name_ascii ascii good =
      metadata_step path_name v whole (length name) long starts
        (counted_bounds path_name v whole (length name) counted refl)
      ∙ (name_step path_name v whole name safe 12 (12 + length name) (omega (arith, whole-length))
            name_part name_ascii good
            (index_found whole (12 + length name) 0
              (ap (get_elem? whole) (omega arith) ∙ after_name 0))
          ∙ serial_parses fits ascii)
    where
      long : ltb (length whole) 15 ≡ false
      long = ground (arith, whole-length)

      starts : starts_with whole (v.magic ++ 0 ∷ 0 ∷ []) ≡ true
      starts =
          ap (λ (xs : List ℕ). starts_with whole (xs ++ 0 ∷ 0 ∷ [])) magic
          ∙ =b-refl (m0 ∷ m1 ∷ m2 ∷ m3 ∷ m4 ∷ 0 ∷ 0 ∷ [])
