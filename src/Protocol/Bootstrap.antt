-- ===== src/Protocol/Bootstrap.antt =====
-- Registration frames and `BootstrapResponder` of foxess_local_cloud/protocol.py.
pub mod Replies
pub mod Steps
use foxess_local_gateway.Prelude.{
  ℕ, suc, ◌+◌, ◌-◌, ◌%◌, ◌^◌, List, [], ◌∷◌, ◌++◌, length, take, Bool, ◌&&◌, ◌||◌, not, Option,
  none, some, Result, ok, err, bit_or, bit_and, leb, ◌==◌, ◌=b◌, ◌>>=◌, if◌then◌else◌,
}
use foxess_local_gateway.Bytes.{slice, index, from_bytes, big_endian, decode_ascii}
use foxess_local_gateway.Protocol.Frame.{Frame, payload_len, single_byte, make_frame}
use foxess_local_gateway.Protocol.Extract.{marker_7e}

abbrev pub end_7e : List ℕ
end_7e = 0xe7 ∷ 0xe7 ∷ []

-- `(v - 0x71) & 0xFFFFFF` for a 24-bit `v`: Python's `&` wraps the difference around.
abbrev pub shifted_tail : List ℕ → ℕ
shifted_tail device = (from_bytes (slice 1 4 device) + 2 ^ 24 - 0x71) % 2 ^ 24

unfoldable pub bootstrap_response_device : List ℕ → ℕ → Result (List ℕ)
bootstrap_response_device request_device first_byte = do
  head ← single_byte first_byte
  ok (head ++ big_endian 3 (shifted_tail request_device))

unfoldable pub bootstrap_response : Frame → ℕ → ℕ → List ℕ → Result (List ℕ)
unfolding bootstrap_response_device
bootstrap_response request first_byte func_offset payload = do
  device ← bootstrap_response_device request.device first_byte
  make_frame marker_7e device ((request.func + func_offset) % 256) payload end_7e

unfoldable pub is_registration : Frame → Bool
is_registration frame =
    frame.start =b marker_7e
    && payload_len frame == 28
    && leb 20 (length frame.payload)
    && (take 4 frame.payload =b 0x01 ∷ 0x00 ∷ 0x01 ∷ 0x31 ∷ []
        || take 4 frame.payload =b 0x01 ∷ 0x00 ∷ 0x01 ∷ 0x30 ∷ [])

-- `IndexError` and `UnicodeDecodeError` are caught and give `None`.
abbrev pub caught : Result (List ℕ) → Option (List ℕ)
caught (ok s) = some s
caught (err e) = none

unfoldable pub registration_serial : Frame → Option (List ℕ)
unfolding is_registration
registration_serial frame =
    if not (is_registration frame)
    then none
    else caught (do size ← index frame.payload 4; decode_ascii (slice 5 (5 + size) frame.payload))

-- `frame.device[0] | 0x80` as the first byte of the answer.
unfoldable pub reply : Frame → ℕ → List ℕ → Result (Option (List ℕ))
reply frame func_offset payload = do
  first ← index frame.device 0
  bytes ← bootstrap_response frame (bit_or first 0x80) func_offset payload
  ok (some bytes)

-- `response_for`: the new step, and the answer. The step is set before the answer is built.
unfoldable pub response_for : ℕ → Frame → ℕ × Result (Option (List ℕ))
response_for step frame =
    if step == 0 && is_registration frame
    then (1, reply frame 0x82 (0x01 ∷ 0x01 ∷ 0x01 ∷ 0x00 ∷ 0x00 ∷ []))
    else if step == 1 && (frame.start =b marker_7e && length frame.raw == 17)
    then (2, reply frame 0x80 [])
    else if step == 2 && (frame.start =b marker_7e && length frame.raw == 14)
    then (3, reply frame 0x81 (0x01 ∷ []))
    else (step, ok none)
