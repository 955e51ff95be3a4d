-- ===== src/Examples/Streams.antt =====
-- Runs of the extraction loop and of the bootstrap exchange of foxess_local_cloud/protocol.py.
use mathlib.Core.List.{append-nil}
use foxess_local_gateway.Prelude.{
  ℕ, length, drop, ◌+◌, ◌%◌, ◌^◌, ◌≡◌, refl, sym, ap, ◌∙◌, arith, List, [], ◌∷◌, ◌++◌, some, ok,
}
use foxess_local_gateway.Bytes.{from_bytes}
use foxess_local_gateway.Protocol.Crc.{crc16_le}
use foxess_local_gateway.Protocol.Frame.{Frame, parse_frame}
use foxess_local_gateway.Protocol.Frame.RoundTrip.{described}
use foxess_local_gateway.Protocol.Extract.{extract_frames, push, marker_7e}
use foxess_local_gateway.Protocol.Extract.Loop.{extract_frames_total}
use foxess_local_gateway.Protocol.Extract.Markers.{is_7f}
use foxess_local_gateway.Protocol.Extract.Resume.{prepend, extract_frames_resumes}
use foxess_local_gateway.Protocol.Extract.Sound.{AllProper, extract_frames_proper}
use foxess_local_gateway.Protocol.Extract.Stream.{
  IsWire, start_7f, SentAs, sent_none, sent_next, extract_frames_first, extract_frames_stream,
  AllShorter, split_marker_loses_frame,
}
use foxess_local_gateway.Protocol.Bootstrap.{reply, end_7e}
use foxess_local_gateway.Protocol.Bootstrap.Replies.{reply_parses}
use foxess_local_gateway.Examples.Wire.{start, device, end, payload, raw, raw_parses, built}

abbrev sent : Frame
sent = described start device 0 payload end

raw_IsWire : IsWire raw sent
unfolding crc16_le
raw_IsWire = record {
  marked = is_7f (drop 2 raw);
  parses = raw_parses;
  short = omega arith;
  ends = refl;
}

kept_start : extract_frames start ≡ some ([], start)
unfolding extract_frames
kept_start = refl

first_and_rest : extract_frames (raw ++ start) ≡ some (sent ∷ [], start)
unfolding push
first_and_rest = extract_frames_first raw start sent raw_IsWire ∙ ap (push sent) kept_start

extract_frames_total_example : (x : List Frame × List ℕ) × (extract_frames (raw ++ start) ≡ some x)
extract_frames_total_example = extract_frames_total (raw ++ start)

extract_frames_resumes_example :
    extract_frames (raw ++ start ++ device) ≡ prepend (sent ∷ []) (extract_frames (start ++ device))
extract_frames_resumes_example =
    extract_frames_resumes (raw ++ start) device (sent ∷ []) start first_and_rest (ground arith)

extract_frames_proper_example : AllProper (sent ∷ [])
extract_frames_proper_example =
    extract_frames_proper (raw ++ start) (sent ∷ []) start first_and_rest

twice : SentAs (raw ++ raw) (sent ∷ sent ∷ [])
twice =
    sent_next start_7f refl built (sent_next start_7f refl built sent_none (sym (append-nil raw)))
      refl

extract_frames_stream_example : extract_frames (raw ++ raw) ≡ some (sent ∷ sent ∷ [], [])
extract_frames_stream_example =
    extract_frames_stream (raw ++ raw) (sent ∷ sent ∷ []) twice (omega arith, (omega arith, tt))

-- `raw` without its first byte.
abbrev tail : List ℕ
tail =
    0x7f ∷ 0x12 ∷ 0x00 ∷ 0xf0 ∷ 0xaa ∷ 0x00 ∷ 0x00 ∷ 0x06 ∷ 0x01 ∷ 0x06 ∷ 0xca ∷ 0x5a ∷ 0x00 ∷ 0x32
    ∷ 0x6e ∷ 0x57 ∷ 0xf7 ∷ 0xf7 ∷ []

whole_IsWire : IsWire (0x7f ∷ tail) sent
unfolding crc16_le
whole_IsWire = raw_IsWire

split_marker_loses_frame_example :
    (extract_frames (0x7f ∷ tail) ≡ some (sent ∷ [], []))
    × (extract_frames (0x7f ∷ []) ≡ some ([], []))
    × ((found : List Frame) × (rest : List ℕ) × (extract_frames ([] ++ tail) ≡ some (found, rest))
        × AllShorter (length sent.raw) found)
split_marker_loses_frame_example = split_marker_loses_frame 0x7f tail sent whole_IsWire

abbrev registration : Frame
registration = record sent {
  start = marker_7e;
  device = 0x01 ∷ 0x02 ∷ 0x03 ∷ 0x90 ∷ [];
  payload = 0x01 ∷ 0x00 ∷ 0x01 ∷ 0x31 ∷ [];
}

reply_parses_example :
    (t1 : ℕ) × (t2 : ℕ) × (t3 : ℕ) × (answer : List ℕ) × (reply registration 0x80 []
      ≡ ok (some answer))
    × (parse_frame answer
        ≡ ok (
            described marker_7e
              ((0x01 % 128 + 128) ∷ t1 ∷ t2 ∷ t3 ∷ [])
              ((registration.func + 0x80) % 256)
              []
              end_7e))
    × ((from_bytes (t1 ∷ t2 ∷ t3 ∷ []) + 0x71) % 2 ^ 24 ≡ from_bytes (0x02 ∷ 0x03 ∷ 0x90 ∷ []))
reply_parses_example =
    reply_parses registration 0x01 0x02 0x03 0x90 0x80 [] refl (omega arith) (omega arith)
