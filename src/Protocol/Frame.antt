-- ===== src/Protocol/Frame.antt =====
-- `Frame`, `make_frame` and `parse_frame` of foxess_local_cloud/protocol.py.
pub mod RoundTrip
pub mod Inversion
pub mod Corruption
use foxess_local_gateway.Prelude.{
  ℕ, ◌+◌, List, [], ◌∷◌, ◌++◌, length, Bool, Result, ok, err, value_error, ltb, ◌==◌, ◌=b◌, ◌>>=◌,
  if◌then◌else◌,
}
use foxess_local_gateway.Bytes.{slice, last_bytes, index, from_bytes, to_bytes}
use foxess_local_gateway.Protocol.Crc.{crc16_le}

pub record Frame : Type 0 where
  pub start : List ℕ
  pub device : List ℕ
  pub func : ℕ
  pub payload : List ℕ
  pub crc : List ℕ
  pub end : List ℕ
  pub raw : List ℕ
  pub valid_crc : Bool

abbrev pub payload_len : Frame → ℕ
payload_len f = length f.payload

pub data Family : Type 0 where
  family_7e family_7f unknown : Family

unfoldable pub family : Frame → Family
family f =
    if f.start =b 0x7e ∷ 0x7e ∷ []
    then family_7e
    else if f.start =b 0x7f ∷ 0x7f ∷ []
    then family_7f
    else unknown

-- `bytes([n])`, which raises `ValueError` unless `n` is a byte.
abbrev pub single_byte : ℕ → Result (List ℕ)
single_byte n = if ltb n 256 then ok (n ∷ []) else err value_error

unfoldable pub make_frame : List ℕ → List ℕ → ℕ → List ℕ → List ℕ → Result (List ℕ)
make_frame start device func payload end = do
  func_byte ← single_byte func
  size ← to_bytes 2 (length payload)
  let body = device ++ (func_byte ++ (size ++ payload))
  ok (start ++ body ++ crc16_le body ++ end)

unfoldable pub parse_frame : List ℕ → Result Frame
parse_frame raw =
    if ltb (length raw) 13
    then err value_error
    else (let start = slice 0 2 raw in
        let end = last_bytes 2 raw in
        let size = from_bytes (slice 7 9 raw) in
        let expected_len = 2 + 4 + 1 + 2 + size + 2 + 2 in
        if length raw == expected_len
        then (do
          let body = slice 2 (9 + size) raw
          let crc = slice (9 + size) (11 + size) raw
          func ← index raw 6
          ok (record {
            start = start;
            device = slice 2 6 raw;
            func = func;
            payload = slice 9 (9 + size) raw;
            crc = crc;
            end = end;
            raw = raw;
            valid_crc = crc =b crc16_le body;
          }))
        else err value_error)
