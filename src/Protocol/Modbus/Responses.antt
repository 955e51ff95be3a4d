-- ===== src/Protocol/Modbus/Responses.antt =====
-- How uplink frames are told apart, and what is read from them.
use foxess_local_gateway.Prelude.{
  ◌&&◌, ℕ, ◌+◌, ◌*◌, ◌/◌, ◌%◌, ◌≤◌, ◌<◌, ◌≡◌, refl, ap, sym, ◌∙◌, arith, List, [], ◌∷◌, ◌++◌,
  length, length-append, append_assoc, true, false, none, some, ◌⊎◌,
}
use foxess_local_gateway.Bytes.{slice, from_bytes, slice-part}
use foxess_local_gateway.Protocol.Extract.{marker_7f}
use foxess_local_gateway.Protocol.Frame.{Frame}
use foxess_local_gateway.Protocol.Modbus.{
  byte_at, parse_modbus_command, is_modbus_command, is_modbus_read_response,
  is_modbus_write_success_response, parse_modbus_read_response, is_modbus_read_exception, words_at,
}

-- A frame with a six-byte payload, which every request is, is never taken for a read response.
pub request_not_response : (f : Frame) → length f.payload ≡ 6 → is_modbus_read_response f ≡ false
unfolding is_modbus_read_response
request_not_response f h = ground arith

-- A frame is at most one of: a read response, a read exception, a successful write response.
pub responses_disjoint :
    (f : Frame)
    → ((is_modbus_read_response f && is_modbus_read_exception f) ≡ false)
      × ((is_modbus_read_response f && is_modbus_write_success_response f) ≡ false)
      × ((is_modbus_read_exception f && is_modbus_write_success_response f) ≡ false)
unfolding is_modbus_read_response is_modbus_read_exception is_modbus_write_success_response
responses_disjoint f = (ground arith, ground arith, ground arith)

-- Registers as the inverter sends them: two bytes each, most significant first.
abbrev pub encode_words : List ℕ → List ℕ
encode_words [] = []
encode_words (v ∷ vs) = v / 256 ∷ v % 256 ∷ encode_words vs

abbrev pub AllWords : List ℕ → Type 0
AllWords [] = Unit
AllWords (v ∷ vs) = (v < 65536) × AllWords vs

length-encode_words : (vs : List ℕ) → length (encode_words vs) ≡ length vs * 2
length-encode_words [] = refl
length-encode_words (v ∷ vs) = omega (arith, length-encode_words vs)

words_at_step :
    (front rest : List ℕ) (base hi lo : ℕ)
    → base ≡ length front
    → from_bytes (slice base (base + 2) (front ++ hi ∷ lo ∷ rest)) ≡ hi * 256 + lo
words_at_step front rest base hi lo h =
    ap from_bytes (slice-part base (base + 2) front (hi ∷ lo ∷ []) rest h (omega arith))
    ∙ omega arith

words_at-encode :
    (front : List ℕ) (base : ℕ) (vs : List ℕ)
    → base ≡ length front
    → AllWords vs
    → words_at (front ++ encode_words vs) base (length vs) ≡ vs
unfolding words_at
words_at-encode front base [] h w = refl
words_at-encode front base (v ∷ vs) h (hv, w) =
    let first : List ℕ = v / 256 ∷ v % 256 ∷ [] in
    let rest : words_at (front ++ encode_words (v ∷ vs)) (base + 2) (length vs) ≡ vs =
      ap (λ (t : List ℕ). words_at t (base + 2) (length vs))
        (sym (append_assoc front first (encode_words vs)))
      ∙ words_at-encode (front ++ first) (base + 2) vs (omega (arith, length-append front first))
          w in
    let value : v / 256 * 256 + v % 256 ≡ v = omega arith in
    rw (words_at_step front (encode_words vs) base (v / 256) (v % 256) h, value, rest)

response_test :
    (f : Frame) (slave function n : ℕ) (rest : List ℕ)
    → f.start ≡ marker_7f
    → f.payload ≡ slave ∷ function ∷ n * 2 ∷ rest
    → (function ≡ 3) ⊎ (function ≡ 4)
    → 0 < n
    → length rest ≡ n * 2
    → is_modbus_read_response f ≡ true
unfolding is_modbus_read_response
response_test f slave function n rest s p fn pos h = ground arith

-- A read response that carries one to 127 register values is recognised, and the values are read
-- back in order, with the slave, the function and the byte count.
pub read_response_values :
    (f : Frame) (slave function : ℕ) (vs : List ℕ)
    → f.start ≡ marker_7f
    → f.payload ≡ slave ∷ function ∷ length vs * 2 ∷ encode_words vs
    → (function ≡ 3) ⊎ (function ≡ 4)
    → 0 < length vs
    → length vs ≤ 127
    → AllWords vs
    → parse_modbus_read_response f
      ≡ some
          (record { slave = slave; function = function; byte_count = length vs * 2; values = vs })
unfolding parse_modbus_read_response
read_response_values f slave function vs s p fn pos bounded w =
    let half : length vs * 2 / 2 ≡ length vs = omega arith in
    rw (
      response_test f slave function (length vs) (encode_words vs) s p fn pos
          (length-encode_words vs),
      p,
      half,
      words_at-encode (slave ∷ function ∷ length vs * 2 ∷ []) 3 vs refl w,
    )

-- The code that `handle_upstream_frame` runs on a write-multiple frame without a byte count: it is
-- a command, and no PDU is parsed from it.
pub short_write_multiple :
    (f : Frame)
    → f.start ≡ marker_7f
    → length f.payload ≡ 6
    → byte_at f 1 ≡ 0x10
    → (is_modbus_command f ≡ true) × (parse_modbus_command f ≡ none)
unfolding parse_modbus_command
short_write_multiple f s h fn = (ground arith, ground arith)
