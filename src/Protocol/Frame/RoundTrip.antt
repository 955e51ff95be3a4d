-- ===== src/Protocol/Frame/RoundTrip.antt =====
-- Building and parsing frames are inverse to each other.
use foxess_local_gateway.Prelude.{
  ℕ, ◌+◌, ◌/◌, ◌%◌, ◌<◌, ◌≡◌, refl, sym, ◌∙◌, arith, List, [], ◌∷◌, ◌++◌, length, ltb, ◌==◌,
  append_assoc, length-append, ◌=b◌, =b-refl, lt→ltb, true, false, ok,
}
use foxess_local_gateway.Bytes.{
  slice, last_bytes, to_bytes, from_bytes, slice-part, last_bytes-append,
}
use foxess_local_gateway.Protocol.Crc.{crc16_le}
use foxess_local_gateway.Protocol.Crc.Detect.{crc16_le_pair}
use foxess_local_gateway.Protocol.Frame.{Frame, make_frame, parse_frame}

-- The fields of a frame one after the other; `d` is the device and `e` the end marker.
abbrev pub layout : (s0 s1 d0 d1 d2 d3 func n : ℕ) → List ℕ → (c0 c1 e0 e1 : ℕ) → List ℕ
layout s0 s1 d0 d1 d2 d3 func n payload c0 c1 e0 e1 =
    s0 ∷ s1 ∷ d0 ∷ d1 ∷ d2 ∷ d3 ∷ func ∷ n / 256 ∷ n % 256 ∷ (payload ++ c0 ∷ c1 ∷ e0 ∷ e1 ∷ [])

-- The frame that is read from such a layout.
abbrev pub laid_out : (s0 s1 d0 d1 d2 d3 func : ℕ) → List ℕ → (c0 c1 e0 e1 : ℕ) → Frame
laid_out s0 s1 d0 d1 d2 d3 func payload c0 c1 e0 e1 = record {
  start = s0 ∷ s1 ∷ [];
  device = d0 ∷ d1 ∷ d2 ∷ d3 ∷ [];
  func = func;
  payload = payload;
  crc = c0 ∷ c1 ∷ [];
  end = e0 ∷ e1 ∷ [];
  raw = layout s0 s1 d0 d1 d2 d3 func (length payload) payload c0 c1 e0 e1;
  valid_crc =
      c0 ∷ c1 ∷ []
      =b crc16_le
          (d0 ∷ d1 ∷ d2 ∷ d3 ∷ func ∷ length payload / 256 ∷ length payload % 256 ∷ payload);
}

module _ (s0 s1 d0 d1 d2 d3 func : ℕ) (payload : List ℕ) (c0 c1 e0 e1 : ℕ) where
  abbrev raw : List ℕ
  raw = layout s0 s1 d0 d1 d2 d3 func (length payload) payload c0 c1 e0 e1

  abbrev head : List ℕ
  head = s0 ∷ s1 ∷ d0 ∷ d1 ∷ d2 ∷ d3 ∷ func ∷ length payload / 256 ∷ length payload % 256 ∷ []

  abbrev body : List ℕ
  body = d0 ∷ d1 ∷ d2 ∷ d3 ∷ func ∷ length payload / 256 ∷ length payload % 256 ∷ payload

  size_field : from_bytes (slice 7 9 raw) ≡ length payload
  size_field = omega arith

  length-raw : length raw ≡ 13 + length payload
  length-raw = omega (arith, length-append payload (c0 ∷ c1 ∷ e0 ∷ e1 ∷ []))

  payload_field : slice 9 (9 + length payload) raw ≡ payload
  payload_field = slice-part 9 _ head payload _ refl refl

  crc_field : slice (9 + length payload) (11 + length payload) raw ≡ c0 ∷ c1 ∷ []
  crc_field =
      slice-part (9 + length payload) (11 + length payload) (head ++ payload) (c0 ∷ c1 ∷ [])
        (e0 ∷ e1 ∷ []) (omega (arith, length-append head payload))
        (omega (arith, length-append head payload))

  body_field : slice 2 (9 + length payload) raw ≡ body
  body_field = slice-part 2 _ (s0 ∷ s1 ∷ []) body (c0 ∷ c1 ∷ e0 ∷ e1 ∷ []) refl (omega arith)

  end_field : last_bytes 2 raw ≡ e0 ∷ e1 ∷ []
  end_field =
      rw (← append_assoc payload (c0 ∷ c1 ∷ []) (e0 ∷ e1 ∷ []))
        (last_bytes-append 2 (head ++ (payload ++ c0 ∷ c1 ∷ [])) (e0 ∷ e1 ∷ []) refl)

  long_enough : ltb (length raw) 13 ≡ false
  long_enough = ground (arith, length-raw)

  fits : (length raw == 2 + 4 + 1 + 2 + length payload + 2 + 2) ≡ true
  fits = ground (arith, length-raw)

  pub parse_layout : parse_frame raw ≡ ok (laid_out s0 s1 d0 d1 d2 d3 func payload c0 c1 e0 e1)
  unfolding parse_frame
  parse_layout = rw (size_field, long_enough, fits, payload_field, crc_field, body_field, end_field)

-- The bytes between the start marker and the CRC field.
abbrev pub body_of : List ℕ → ℕ → List ℕ → List ℕ
body_of device func payload = device ++ func ∷ length payload / 256 ∷ length payload % 256 ∷ payload

-- The frame that the arguments of `make_frame` describe.
abbrev pub described : List ℕ → List ℕ → ℕ → List ℕ → List ℕ → Frame
described start device func payload end =
    let body = body_of device func payload in
    record {
      start = start;
      device = device;
      func = func;
      payload = payload;
      crc = crc16_le body;
      end = end;
      raw = start ++ body ++ crc16_le body ++ end;
      valid_crc = true;
    }

pub two_bytes : (n : ℕ) → n < 65536 → to_bytes 2 n ≡ ok (n / 256 ∷ n % 256 ∷ [])
two_bytes n h = ground arith

-- Inside its limits `make_frame` does not raise, and lays the parts out in order.
pub make_frame_bytes :
    (start device : List ℕ) (func : ℕ) (payload end : List ℕ)
    → func < 256
    → length payload < 65536
    → make_frame start device func payload end ≡ ok (described start device func payload end).raw
unfolding make_frame
make_frame_bytes start device func payload end hf hp =
    rw (lt→ltb func 256 hf, two_bytes (length payload) hp)

-- Outside them it raises.
pub make_frame_limits :
    (start device : List ℕ) (func : ℕ) (payload end : List ℕ) {raw : List ℕ}
    → make_frame start device func payload end ≡ ok raw
    → (func < 256) × (length payload < 65536)
unfolding make_frame
make_frame_limits start device func payload end h = ground arith

with_crc :
    (s0 s1 d0 d1 d2 d3 func : ℕ) (payload : List ℕ) (c0 c1 e0 e1 : ℕ)
    → crc16_le (body_of (d0 ∷ d1 ∷ d2 ∷ d3 ∷ []) func payload) ≡ c0 ∷ c1 ∷ []
    → parse_frame
        (described (s0 ∷ s1 ∷ []) (d0 ∷ d1 ∷ d2 ∷ d3 ∷ []) func payload (e0 ∷ e1 ∷ [])).raw
      ≡ ok (described (s0 ∷ s1 ∷ []) (d0 ∷ d1 ∷ d2 ∷ d3 ∷ []) func payload (e0 ∷ e1 ∷ []))
with_crc s0 s1 d0 d1 d2 d3 func payload c0 c1 e0 e1 e =
    rw (e, append_assoc payload (c0 ∷ c1 ∷ []) (e0 ∷ e1 ∷ []))
      (parse_layout s0 s1 d0 d1 d2 d3 func payload c0 c1 e0 e1 ∙ rw (e, =b-refl (c0 ∷ c1 ∷ [])))

parse_described :
    (start device : List ℕ) (func : ℕ) (payload end : List ℕ)
    → length start ≡ 2
    → length device ≡ 4
    → length end ≡ 2
    → parse_frame (described start device func payload end).raw
      ≡ ok (described start device func payload end)
parse_described (s0 ∷ s1 ∷ []) (d0 ∷ d1 ∷ d2 ∷ d3 ∷ []) func payload (e0 ∷ e1 ∷ []) hs hd he =
    let (c0, c1, e) = crc16_le_pair (body_of (d0 ∷ d1 ∷ d2 ∷ d3 ∷ []) func payload) in
    with_crc s0 s1 d0 d1 d2 d3 func payload c0 c1 e0 e1 e
parse_described _ _ func payload _ hs hd he = absurd (omega arith)

pub ok_injective {ℓ} : {A : Type ℓ} {x y : A} → ok x ≡ ok y → x ≡ y
ok_injective e = ground arith

-- What `make_frame` builds from a two-byte start, a four-byte device and a two-byte end is parsed
-- back into exactly these parts, with a valid CRC.
pub parse-make_frame :
    (start device : List ℕ) (func : ℕ) (payload end raw : List ℕ)
    → length start ≡ 2
    → length device ≡ 4
    → length end ≡ 2
    → make_frame start device func payload end ≡ ok raw
    → parse_frame raw ≡ ok (described start device func payload end)
parse-make_frame start device func payload end raw hs hd he h =
    let (hf, hp) = make_frame_limits start device func payload end h in
    let e : (described start device func payload end).raw ≡ raw =
      ok_injective (sym (make_frame_bytes start device func payload end hf hp) ∙ h) in
    rw (← e) (parse_described start device func payload end hs hd he)
