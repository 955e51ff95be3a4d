-- ===== src/Protocol/Frame/Inversion.antt =====
-- What an accepted frame says about the bytes that it was parsed from.
use mathlib.Core.Path.{subst}
use foxess_local_gateway.Prelude.{
  ℕ, ◌+◌, ◌*◌, ◌/◌, ◌%◌, ◌<◌, ◌≡◌, refl, ap, sym, ◌∙◌, arith, List, [], ◌∷◌, ◌++◌, length, take,
  drop, take-append-drop, length-take, length-drop, true, ok, append_assoc, =b→eq,
}
use foxess_local_gateway.Bytes.{IsBytes, slice, from_bytes}
use foxess_local_gateway.Protocol.Crc.{crc16_le}
use foxess_local_gateway.Protocol.Frame.{Frame, make_frame, parse_frame}
use foxess_local_gateway.Protocol.Frame.RoundTrip.{
  layout, laid_out, parse_layout, body_of, make_frame_bytes, ok_injective,
}

-- The length that an accepted frame has.
pub parse_frame-length :
    (raw : List ℕ) {f : Frame}
    → parse_frame raw ≡ ok f
    → (length raw ≡ 13 + from_bytes (slice 7 9 raw))
unfolding parse_frame
parse_frame-length raw h = ground arith

four_bytes :
    (xs : List ℕ)
    → length xs ≡ 4
    → (c0 : ℕ) × (c1 : ℕ) × (e0 : ℕ) × (e1 : ℕ) × (xs ≡ c0 ∷ c1 ∷ e0 ∷ e1 ∷ [])
four_bytes (c0 ∷ c1 ∷ e0 ∷ e1 ∷ []) h = (c0, c1, e0, e1, refl)
four_bytes _ h = absurd (omega arith)

rejoin :
    (front : List ℕ) (n1 n0 size m1 m0 : ℕ) (rest tail : List ℕ)
    → m1 ≡ n1
    → m0 ≡ n0
    → drop size rest ≡ tail
    → front ++ n1 ∷ n0 ∷ rest ≡ front ++ m1 ∷ m0 ∷ (take size rest ++ tail)
rejoin front n1 n0 size m1 m0 rest tail high low e = rw (high, low, ← e, take-append-drop size rest)

-- The bytes of an accepted frame.
record Laid (raw : List ℕ) : Type 0 where
  s0 : ℕ
  s1 : ℕ
  d0 : ℕ
  d1 : ℕ
  d2 : ℕ
  d3 : ℕ
  func : ℕ
  payload : List ℕ
  c0 : ℕ
  c1 : ℕ
  e0 : ℕ
  e1 : ℕ
  func_fits : func < 256
  payload_fits : length payload < 65536
  laid : raw ≡ layout s0 s1 d0 d1 d2 d3 func (length payload) payload c0 c1 e0 e1

lay_out : (raw : List ℕ) → IsBytes raw → length raw ≡ 13 + from_bytes (slice 7 9 raw) → Laid raw
lay_out (s0 ∷ s1 ∷ d0 ∷ d1 ∷ d2 ∷ d3 ∷ func ∷ n1 ∷ n0 ∷ rest) bytes h =
    let size : ℕ = n1 * 256 + n0 in
    let (c0, c1, e0, e1, tail) =
      four_bytes (drop size rest) (omega (arith, length-drop size rest)) in
    let taken : length (take size rest) ≡ size = omega (arith, length-take size rest) in
    let high : length (take size rest) / 256 ≡ n1 = omega (arith, bytes) in
    let low : length (take size rest) % 256 ≡ n0 = omega (arith, bytes) in
    record {
      s0 = s0;
      s1 = s1;
      d0 = d0;
      d1 = d1;
      d2 = d2;
      d3 = d3;
      func = func;
      payload = take size rest;
      c0 = c0;
      c1 = c1;
      e0 = e0;
      e1 = e1;
      func_fits = omega (arith, bytes);
      payload_fits = omega (arith, bytes);
      laid =
          rejoin (s0 ∷ s1 ∷ d0 ∷ d1 ∷ d2 ∷ d3 ∷ func ∷ []) n1 n0 size _ _ rest
            (c0 ∷ c1 ∷ e0 ∷ e1 ∷ []) high low tail;
    }
lay_out _ bytes h = absurd (omega arith)

abbrev laid_frame : {raw : List ℕ} → Laid raw → Frame
laid_frame l = laid_out l.s0 l.s1 l.d0 l.d1 l.d2 l.d3 l.func l.payload l.c0 l.c1 l.e0 l.e1

rebuild :
    (s0 s1 d0 d1 d2 d3 func : ℕ) (payload : List ℕ) (c0 c1 e0 e1 : ℕ)
    → func < 256
    → length payload < 65536
    → (laid_out s0 s1 d0 d1 d2 d3 func payload c0 c1 e0 e1).valid_crc ≡ true
    → make_frame (s0 ∷ s1 ∷ []) (d0 ∷ d1 ∷ d2 ∷ d3 ∷ []) func payload (e0 ∷ e1 ∷ [])
      ≡ ok (layout s0 s1 d0 d1 d2 d3 func (length payload) payload c0 c1 e0 e1)
rebuild s0 s1 d0 d1 d2 d3 func payload c0 c1 e0 e1 hf hp v =
    let crc : c0 ∷ c1 ∷ [] ≡ crc16_le (body_of (d0 ∷ d1 ∷ d2 ∷ d3 ∷ []) func payload) =
      =b→eq (c0 ∷ c1 ∷ []) (crc16_le (body_of (d0 ∷ d1 ∷ d2 ∷ d3 ∷ []) func payload)) v in
    make_frame_bytes (s0 ∷ s1 ∷ []) (d0 ∷ d1 ∷ d2 ∷ d3 ∷ []) func payload (e0 ∷ e1 ∷ []) hf hp
    ∙ rw (← crc, append_assoc payload (c0 ∷ c1 ∷ []) (e0 ∷ e1 ∷ []))

-- A frame that is accepted with a valid CRC is rebuilt, byte for byte, from its parsed fields.
pub make-parse_frame :
    (raw : List ℕ) (f : Frame)
    → IsBytes raw
    → parse_frame raw ≡ ok f
    → f.valid_crc ≡ true
    → make_frame f.start f.device f.func f.payload f.end ≡ ok raw
make-parse_frame raw f bytes h v =
    let l : Laid raw = lay_out raw bytes (parse_frame-length raw h) in
    let e : laid_frame l ≡ f = ok_injective (
      sym (parse_layout l.s0 l.s1 l.d0 l.d1 l.d2 l.d3 l.func l.payload l.c0 l.c1 l.e0 l.e1)
      ∙ ap parse_frame (sym l.laid)
      ∙ h) in
    let valid : (laid_frame l).valid_crc ≡ true = ap (λ (g : Frame). g.valid_crc) e ∙ v in
    subst (λ (g : Frame). make_frame g.start g.device g.func g.payload g.end ≡ ok raw) e
      (rebuild l.s0 l.s1 l.d0 l.d1 l.d2 l.d3 l.func l.payload l.c0 l.c1 l.e0 l.e1 l.func_fits
          l.payload_fits valid
        ∙ ap ok (sym l.laid))
