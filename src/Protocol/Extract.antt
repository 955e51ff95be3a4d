-- ===== src/Protocol/Extract.antt =====
-- `extract_frames` of foxess_local_cloud/protocol.py: taking whole frames off a receive buffer.
pub mod Loop
pub mod Markers
pub mod Resume
pub mod Stream
pub mod Sound
pub mod Pieces
use foxess_local_gateway.Prelude.{
  ℕ, zero, suc, ◌+◌, min, List, [], ◌∷◌, length, take, drop, Bool, not, ◌||◌, Option, none, some,
  ok, err, ltb, ◌=b◌, if◌then◌else◌,
}
use foxess_local_gateway.Bytes.{slice, last_bytes, from_bytes, find}
use foxess_local_gateway.Protocol.Frame.{Frame, parse_frame}

abbrev pub marker_7e : List ℕ
marker_7e = 0x7e ∷ 0x7e ∷ []

abbrev pub marker_7f : List ℕ
marker_7f = 0x7f ∷ 0x7f ∷ []

-- `min(starts)` over the markers that were found; `none` when there is none.
abbrev pub earliest : Option ℕ → Option ℕ → Option ℕ
earliest none none = none
earliest none (some j) = some j
earliest (some i) none = some i
earliest (some i) (some j) = some (min i j)

-- What one round of the `while` loop does to the buffer: return, drop bytes, or take a frame off.
pub data Round : Type 0 where
  stop : List ℕ → Round
  skip : List ℕ → Round
  emit : Frame → List ℕ → Round

-- The end marker that goes with a start marker.
abbrev pub end_for : List ℕ → List ℕ
end_for start = if start =b marker_7e then 0xe7 ∷ 0xe7 ∷ [] else 0xf7 ∷ 0xf7 ∷ []

-- A complete frame was cut off the buffer.
unfoldable pub accept : List ℕ → List ℕ → List ℕ → Round
accept end raw rest =
    if not (last_bytes 2 raw =b end)
    then skip rest
    else elim (parse_frame raw) [ ok f ↦ emit f rest | err e ↦ skip rest ]

-- The round once the frame's length is known.
unfoldable pub with_length : ℕ → List ℕ → Round
with_length total_len buffer =
    if ltb total_len 13 || ltb 4096 total_len
    then skip (drop 2 buffer)
    else if ltb (length buffer) total_len
    then stop buffer
    else accept (end_for (take 2 buffer)) (take total_len buffer) (drop total_len buffer)

-- The round from the point where the buffer begins with a start marker.
unfoldable pub frame_at : List ℕ → Round
frame_at buffer =
    if ltb (length buffer) 13
    then stop buffer
    else with_length (2 + 4 + 1 + 2 + from_bytes (slice 7 9 buffer) + 2 + 2) buffer

unfoldable pub start_at : Option ℕ → List ℕ → Round
start_at none buffer = stop []
start_at (some i) buffer = frame_at (drop i buffer)

unfoldable pub extract_round : List ℕ → Round
unfolding start_at
extract_round buffer = start_at (earliest (find marker_7e buffer) (find marker_7f buffer)) buffer

-- The frames taken, and what the buffer holds afterwards. `none`: the fuel ran out.
abbrev pub Extracted : Type 0
Extracted = Option (List Frame × List ℕ)

unfoldable pub push : Frame → Extracted → Extracted
push f none = none
push f (some (fs, rest)) = some (f ∷ fs, rest)

unfoldable pub after : Round → (List ℕ → Extracted) → Extracted
unfolding push
after (stop buffer) continue = some ([], buffer)
after (skip buffer) continue = continue buffer
after (emit f buffer) continue = push f (continue buffer)

unfoldable pub extract_loop : ℕ → List ℕ → Extracted
unfolding after extract_round frame_at with_length accept
extract_loop zero buffer = none
extract_loop (suc fuel) buffer = after (extract_round buffer) (extract_loop fuel)

-- Every round that goes on shortens the buffer, so one round more than its length is enough.
unfoldable pub extract_frames : List ℕ → Extracted
unfolding extract_loop
extract_frames buffer = extract_loop (suc (length buffer)) buffer
