-- ===== src/Protocol/Bootstrap/Replies.antt =====
-- The bytes of the bootstrap answers.
use foxess_local_gateway.Prelude.{
  ℕ, ◌+◌, ◌/◌, ◌%◌, ◌^◌, ◌<◌, ◌≡◌, refl, arith, List, [], ◌∷◌, length, some, ok, lt→ltb,
}
use foxess_local_gateway.Bytes.{IsBytes, from_bytes}
use foxess_local_gateway.Bits.{bit_or_top}
use foxess_local_gateway.Protocol.Extract.{marker_7e}
use foxess_local_gateway.Protocol.Frame.{Frame, parse_frame}
use foxess_local_gateway.Protocol.Frame.RoundTrip.{described, parse-make_frame, make_frame_bytes}
use foxess_local_gateway.Protocol.Bootstrap.{
  end_7e, shifted_tail, bootstrap_response_device, bootstrap_response, reply,
}

-- The device field of an answer: the first byte as given, then the request's tail less 0x71.
pub device_of_response :
    (d0 d1 d2 d3 first : ℕ)
    → first < 256
    → d1 < 256
    → d2 < 256
    → d3 < 256
    → (t1 : ℕ) × (t2 : ℕ) × (t3 : ℕ) × (bootstrap_response_device (d0 ∷ d1 ∷ d2 ∷ d3 ∷ []) first
        ≡ ok (first ∷ t1 ∷ t2 ∷ t3 ∷ []))
      × ((from_bytes (t1 ∷ t2 ∷ t3 ∷ []) + 0x71) % 2 ^ 24 ≡ from_bytes (d1 ∷ d2 ∷ d3 ∷ []))
unfolding bootstrap_response_device
device_of_response d0 d1 d2 d3 first h h1 h2 h3 =
    let t : ℕ = shifted_tail (d0 ∷ d1 ∷ d2 ∷ d3 ∷ []) in
    (t / 65536 % 256, t / 256 % 256, t / 1 % 256, rw (lt→ltb first 256 h), omega arith)

device_bytes :
    (f : Frame) (d0 d1 d2 d3 o : ℕ) (payload t : List ℕ)
    → f.device ≡ d0 ∷ d1 ∷ d2 ∷ d3 ∷ []
    → d0 < 256
    → length payload < 65536
    → bootstrap_response_device (d0 ∷ d1 ∷ d2 ∷ d3 ∷ []) (d0 % 128 + 128) ≡ ok t
    → reply f o payload ≡ ok (some (described marker_7e t ((f.func + o) % 256) payload end_7e).raw)
unfolding reply bootstrap_response
device_bytes f d0 d1 d2 d3 o payload t d h fits e = rw (
  d,
  bit_or_top d0 h,
  e,
  make_frame_bytes marker_7e t ((f.func + o) % 256) payload end_7e (omega arith) fits,
)

-- The answer to a frame with a four-byte device is built without an error, for any function byte and
-- offset. Parsed back, it is a 7e frame with a valid CRC and the given payload, whose function is
-- the request's plus the offset modulo 256, whose first device byte is the request's with bit 7
-- set, and whose device tail plus 0x71 is the request's tail modulo 2 ^ 24.
pub reply_parses :
    (f : Frame) (d0 d1 d2 d3 o : ℕ) (payload : List ℕ)
    → f.device ≡ d0 ∷ d1 ∷ d2 ∷ d3 ∷ []
    → IsBytes (d0 ∷ d1 ∷ d2 ∷ d3 ∷ [])
    → length payload < 65536
    → (t1 : ℕ) × (t2 : ℕ) × (t3 : ℕ) × (raw : List ℕ) × (reply f o payload ≡ ok (some raw))
      × (parse_frame raw
          ≡ ok (
              described marker_7e
                ((d0 % 128 + 128) ∷ t1 ∷ t2 ∷ t3 ∷ [])
                ((f.func + o) % 256)
                payload
                end_7e))
      × ((from_bytes (t1 ∷ t2 ∷ t3 ∷ []) + 0x71) % 2 ^ 24 ≡ from_bytes (d1 ∷ d2 ∷ d3 ∷ []))
reply_parses f d0 d1 d2 d3 o payload d bytes fits =
    let (t1, t2, t3, made, back) =
      device_of_response d0 d1 d2 d3 (d0 % 128 + 128) (omega arith) (omega (arith, bytes))
        (omega (arith, bytes)) (omega (arith, bytes)) in
    let device : List ℕ = (d0 % 128 + 128) ∷ t1 ∷ t2 ∷ t3 ∷ [] in
    let func : ℕ = (f.func + o) % 256 in
    (
      t1,
      t2,
      t3,
      (described marker_7e device func payload end_7e).raw,
      device_bytes f d0 d1 d2 d3 o payload device d (bytes.0) fits made,
      parse-make_frame marker_7e device func payload end_7e _ refl refl refl
          (make_frame_bytes marker_7e device func payload end_7e (omega arith) fits),
      back,
    )
