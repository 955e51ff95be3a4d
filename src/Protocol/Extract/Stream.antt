-- ===== src/Protocol/Extract/Stream.antt =====
-- A stream of built frames is taken apart into exactly these frames.
use foxess_local_gateway.Prelude.{
  ℕ, zero, suc, ◌+◌, ◌≤◌, ◌≡◌, refl, ap, sym, ◌∙◌, arith, List, [], ◌∷◌, ◌++◌, length, take, drop,
  some, false, ◌||◌, ltb, =b-refl, length-append, ◌/◌, ◌%◌, append_assoc, ok, take_all,
}
use foxess_local_gateway.Bytes.{slice, from_bytes, last_bytes}
use foxess_local_gateway.Protocol.Crc.{crc16_le}
use foxess_local_gateway.Protocol.Crc.Detect.{crc16_le_pair}
use foxess_local_gateway.Protocol.Extract.Sound.{parsed_fields}
use foxess_local_gateway.Protocol.Frame.{Frame, parse_frame, make_frame}
use foxess_local_gateway.Protocol.Frame.RoundTrip.{
  described, parse-make_frame, make_frame_limits, ok_injective, make_frame_bytes, body_of,
}
use foxess_local_gateway.Protocol.Frame.Inversion.{parse_frame-length}
use foxess_local_gateway.Protocol.Extract.{
  emit, accept, with_length, frame_at, extract_round, push, extract_frames, end_for,
}
use foxess_local_gateway.Protocol.Extract.Markers.{Marked, is_7e, is_7f, Marked-first}
use foxess_local_gateway.Protocol.Extract.Loop.{extract_frames_total}
use foxess_local_gateway.Protocol.Extract.Pieces.{Pieces, ended, piece, extract_frames-Pieces}
use foxess_local_gateway.Protocol.Extract.Resume.{
  round_at, round-append, round_none, unroll_emit, unroll_stop,
}

drop_past : (n : ℕ) (xs : List ℕ) → length xs ≤ n → drop n xs ≡ []
drop_past zero [] h = refl
drop_past zero (x ∷ xs) h = absurd (omega arith)
drop_past (suc n) [] h = refl
drop_past (suc n) (x ∷ xs) h = drop_past n xs (omega arith)

-- A whole frame on the wire, and nothing else.
pub record IsWire (raw : List ℕ) (f : Frame) : Type 0 where
  pub marked : Marked raw
  pub parses : parse_frame raw ≡ ok f
  pub short : length raw ≤ 4096
  pub ends : last_bytes 2 raw ≡ end_for (take 2 raw)

accept_whole :
    (raw : List ℕ) (f : Frame) → IsWire raw f → accept (end_for (take 2 raw)) raw [] ≡ emit f []
unfolding accept
accept_whole raw f w = rw (w.ends, =b-refl (end_for (take 2 raw)), w.parses)

with_length_whole :
    (raw : List ℕ) (f : Frame)
    → IsWire raw f
    → 13 ≤ length raw
    → with_length (length raw) raw ≡ emit f []
unfolding with_length
with_length_whole raw f w long =
    let good : (ltb (length raw) 13 || ltb 4096 (length raw)) ≡ false = ground (arith, w.short) in
    let whole : ltb (length raw) (length raw) ≡ false = ground arith in
    rw
      (
        good,
        whole,
        take_all (length raw) raw (omega arith),
        drop_past (length raw) raw (omega arith),
      )
      (accept_whole raw f w)

frame_at_whole : (raw : List ℕ) (f : Frame) → IsWire raw f → frame_at raw ≡ emit f []
unfolding frame_at
frame_at_whole raw f w =
    let size : length raw ≡ 13 + from_bytes (slice 7 9 raw) = parse_frame-length raw w.parses in
    let total : 2 + 4 + 1 + 2 + from_bytes (slice 7 9 raw) + 2 + 2 ≡ length raw = omega arith in
    let long : ltb (length raw) 13 ≡ false = ground arith in
    rw (long, total) (with_length_whole raw f w (omega arith))

pub round_whole : (raw : List ℕ) (f : Frame) → IsWire raw f → extract_round raw ≡ emit f []
round_whole raw f w = round_at raw 0 (Marked-first w.marked) ∙ frame_at_whole raw f w

-- A whole frame at the front is taken off, and the rest is treated as if it stood alone.
pub extract_frames_first :
    (raw b : List ℕ) (f : Frame)
    → IsWire raw f
    → extract_frames (raw ++ b) ≡ push f (extract_frames b)
extract_frames_first raw b f w =
    unroll_emit (raw ++ b) f b
      (round-append raw b 0 (Marked-first w.marked) ∙ rw (round_whole raw f w))

-- `marker` is one of the two start markers.
pub data StartMarker : List ℕ → Type 0 where
  start_7e : StartMarker (0x7e ∷ 0x7e ∷ [])
  start_7f : StartMarker (0x7f ∷ 0x7f ∷ [])

-- `SentAs bytes fs`: `bytes` are built frames one after the other, and `fs` what they describe.
pub data SentAs : List ℕ → List Frame → Type 0 where
  sent_none : SentAs [] []
  sent_next :
      {start device payload raw bytes bytes' : List ℕ} {func : ℕ} {fs : List Frame}
      → StartMarker start
      → length device ≡ 4
      → make_frame start device func payload (end_for start) ≡ ok raw
      → SentAs bytes fs
      → bytes' ≡ raw ++ bytes
      → SentAs bytes' (described start device func payload (end_for start) ∷ fs)

-- No frame is longer than the 4096 bytes that `extract_frames` takes for a frame.
abbrev pub AllShort : List Frame → Type 0
AllShort [] = Unit
AllShort (f ∷ fs) = (length f.payload ≤ 4083) × AllShort fs

length-crc16_le : (bs : List ℕ) → length (crc16_le bs) ≡ 2
length-crc16_le bs = let (c0, c1, e) = crc16_le_pair bs in ap length e

length-described :
    (start device : List ℕ) (func : ℕ) (payload end : List ℕ)
    → length (described start device func payload end).raw
      ≡ length start + length device + length payload + length end + 5
length-described start device func payload end =
    let body : List ℕ = body_of device func payload in
    omega (
      arith,
      length-append (start ++ body ++ crc16_le body) end,
      length-append (start ++ body) (crc16_le body),
      length-append start body,
      length-append device (func ∷ length payload / 256 ∷ length payload % 256 ∷ payload),
      length-crc16_le body,
    )

starts_marked : {start : List ℕ} → StartMarker start → (tail : List ℕ) → Marked (start ++ tail)
starts_marked start_7e tail = is_7e tail
starts_marked start_7f tail = is_7f tail

StartMarker-length :
    {start : List ℕ} → StartMarker start → (length start ≡ 2) × (length (end_for start) ≡ 2)
StartMarker-length start_7e = (refl, refl)
StartMarker-length start_7f = (refl, refl)

module _ (start device payload raw : List ℕ) (func : ℕ) (m : StartMarker start)
    (hd : length device ≡ 4) (hp : length payload ≤ 4083)
    (made : make_frame start device func payload (end_for start) ≡ ok raw) where
  laid_bytes : (described start device func payload (end_for start)).raw ≡ raw
  laid_bytes =
      let (hf, fits) = make_frame_limits start device func payload (end_for start) made in
      ok_injective (sym (make_frame_bytes start device func payload (end_for start) hf fits) ∙ made)

  made_parses : parse_frame raw ≡ ok (described start device func payload (end_for start))
  made_parses =
      let (hs, he) = StartMarker-length m in
      parse-make_frame start device func payload (end_for start) raw hs hd he made

  pub made_IsWire : IsWire raw (described start device func payload (end_for start))
  made_IsWire =
      let body : List ℕ = body_of device func payload in
      let (hs, he) = StartMarker-length m in
      let (same, end, front) = parsed_fields raw _ made_parses in
      record {
        marked =
            rw (← laid_bytes, append_assoc, append_assoc)
              (starts_marked m (body ++ (crc16_le body ++ end_for start)));
        parses = made_parses;
        short =
            rw (← laid_bytes)
              (omega (arith, length-described start device func payload (end_for start), hs, he));
        ends = sym end ∙ ap end_for front;
      }

-- Built frames of either kind with payloads of at most 4083 bytes, that is frames of at most 4096
-- bytes, one after the other, are taken apart into exactly the frames that they describe, in order, and
-- the buffer is empty afterwards.
pub extract_frames_stream :
    (bytes : List ℕ) (fs : List Frame)
    → SentAs bytes fs
    → AllShort fs
    → extract_frames bytes ≡ some (fs, [])
extract_frames_stream bytes fs sent_none short = unroll_stop [] [] (round_none [] refl)
extract_frames_stream bytes fs
      (sent_next {start = s} {device = d} {payload = p} {raw = r} {bytes = b} {func = n} {fs = gs} m
        hd made sent e)
      (hp, short) =
    rw
      (
        e,
        extract_frames_first r b _ (made_IsWire s d p r n m hd hp made),
        extract_frames_stream b gs sent short,
      )
      (unfold push in refl)

empty : extract_frames [] ≡ some ([], [])
empty = unroll_stop [] [] (round_none [] refl)

-- Every frame is shorter than `n` bytes.
abbrev pub AllShorter : ℕ → List Frame → Type 0
AllShorter n [] = Unit
AllShorter n (f ∷ fs) = (suc (length f.raw) ≤ n) × AllShorter n fs

Pieces-AllShorter :
    (n : ℕ) (b : List ℕ) (fs : List Frame) (rest : List ℕ)
    → suc (length b) ≤ n
    → Pieces b fs rest
    → AllShorter n fs
Pieces-AllShorter n b fs rest h (ended bytes other r e) = tt
Pieces-AllShorter n b fs rest h (piece bytes other more r f gs e p) =
    let size : length b ≡ length other + (length f.raw + length more) =
      ap length e
      ∙ length-append other (f.raw ++ more)
      ∙ ap (λ (k : ℕ). length other + k) (length-append f.raw more) in
    (omega arith, Pieces-AllShorter n more gs rest (omega arith) p)

-- A frame whose first marker byte arrives alone, at the end of a read, is lost: the loop clears the
-- buffer at that byte, and whatever it finds in the frame's other bytes, when they arrive, are shorter
-- frames. Whole, the same bytes are a frame.
pub split_marker_loses_frame :
    (m : ℕ) (tail : List ℕ) (f : Frame)
    → IsWire (m ∷ tail) f
    → (extract_frames (m ∷ tail) ≡ some (f ∷ [], []))
      × (extract_frames (m ∷ []) ≡ some ([], []))
      × ((found : List Frame) × (rest : List ℕ) × (extract_frames ([] ++ tail) ≡ some (found, rest))
          × AllShorter (length f.raw) found)
split_marker_loses_frame m tail f w =
    let ((found, rest), e) = extract_frames_total tail in
    let size : length f.raw ≡ suc (length tail) =
      ap length (parsed_fields (m ∷ tail) f w.parses).0 in
    (
      unroll_emit (m ∷ tail) f [] (round_whole (m ∷ tail) f w) ∙ rw empty (unfold push in refl),
      unroll_stop (m ∷ []) [] (round_none (m ∷ []) (ground arith)),
      (
        found,
        rest,
        e,
        Pieces-AllShorter (length f.raw) tail found rest (omega arith)
            (extract_frames-Pieces tail found rest e),
      ),
    )
