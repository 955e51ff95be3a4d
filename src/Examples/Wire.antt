-- ===== src/Examples/Wire.antt =====
-- Runs of the frame codec of foxess_local_cloud/protocol.py.
use foxess_local_gateway.Prelude.{◌≡◌, ◌≢◌, refl, arith, List, [], ◌∷◌, ◌++◌, ℕ, ok, false}
use foxess_local_gateway.Bytes.{IsBytes}
use foxess_local_gateway.Protocol.Crc.{crc16_le}
use foxess_local_gateway.Protocol.Crc.Detect.{crc16_detects_byte}
use foxess_local_gateway.Protocol.Frame.{Frame, make_frame, parse_frame}
use foxess_local_gateway.Protocol.Frame.RoundTrip.{described, parse-make_frame}
use foxess_local_gateway.Protocol.Frame.Inversion.{make-parse_frame}
use foxess_local_gateway.Protocol.Frame.Corruption.{received, corrupted_payload}

abbrev pub start : List ℕ
start = 0x7f ∷ 0x7f ∷ []

abbrev pub device : List ℕ
device = 0x12 ∷ 0x00 ∷ 0xf0 ∷ 0xaa ∷ []

abbrev pub end : List ℕ
end = 0xf7 ∷ 0xf7 ∷ []

abbrev pub payload : List ℕ
payload = 0x01 ∷ 0x06 ∷ 0xca ∷ 0x5a ∷ 0x00 ∷ 0x32 ∷ []

abbrev pub raw : List ℕ
raw = (described start device 0 payload end).raw

payload_IsBytes : IsBytes payload
payload_IsBytes = omega arith

crc16_detects_byte_example : crc16_le ((1 ∷ []) ++ 6 ∷ 50 ∷ []) ≢ crc16_le ((1 ∷ []) ++ 7 ∷ 50 ∷ [])
crc16_detects_byte_example =
    crc16_detects_byte (1 ∷ []) (50 ∷ []) 6 7 (omega arith) (omega arith) (omega arith)
      (omega arith) (omega arith)

pub built : make_frame start device 0 payload end ≡ ok raw
unfolding make_frame
built = refl

pub raw_parses : parse_frame raw ≡ ok (described start device 0 payload end)
raw_parses = parse-make_frame start device 0 payload end raw refl refl refl built

parse-make_frame_example : parse_frame raw ≡ ok (described start device 0 payload end)
parse-make_frame_example = parse-make_frame start device 0 payload end raw refl refl refl built

raw_IsBytes : IsBytes raw
unfolding crc16_le
raw_IsBytes = omega arith

make-parse_frame_example : make_frame start device 0 payload end ≡ ok raw
make-parse_frame_example =
    make-parse_frame raw (described start device 0 payload end) raw_IsBytes raw_parses refl

corrupted_payload_example :
    (f : Frame) × (parse_frame (received start device 0 (1 ∷ 6 ∷ []) 50 51 (7 ∷ []) end) ≡ ok f)
    × (f.valid_crc ≡ false)
corrupted_payload_example =
    corrupted_payload start device end 0 (1 ∷ 6 ∷ []) (7 ∷ []) 50 51 refl refl refl (omega arith)
      (omega arith) (omega arith) (omega arith) (omega arith) (omega arith) (omega arith)
      (omega arith)
