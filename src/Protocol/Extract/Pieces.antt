-- ===== src/Protocol/Extract/Pieces.antt =====
-- Where the frames that `extract_frames` returns stood in the buffer.
use foxess_local_gateway.Prelude.{
  ℕ, zero, suc, ◌+◌, ◌≡◌, refl, ap, sym, ◌∙◌, List, [], ◌∷◌, ◌++◌, append_assoc, append-nil,
  take-append-drop, length, take, drop, none, some, Option, if-split, not, ltb, ◌=b◌, ok, err,
  Result, ◌||◌,
}
use foxess_local_gateway.Bytes.{find, slice, from_bytes, last_bytes}
use foxess_local_gateway.Protocol.Frame.{Frame, parse_frame}
use foxess_local_gateway.Protocol.Extract.{
  Round, stop, skip, emit, accept, with_length, frame_at, start_at, extract_round, Extracted, push,
  after, extract_loop, extract_frames, end_for, earliest, marker_7e, marker_7f,
}
use foxess_local_gateway.Protocol.Extract.Sound.{parsed_fields}

-- The buffer is made of the frames' own bytes, in order, with other bytes before and between them,
-- and of what is left.
pub data Pieces : List ℕ → List Frame → List ℕ → Type 0 where
  ended : (bytes other rest : List ℕ) → bytes ≡ other ++ rest → Pieces bytes [] rest
  piece :
      (bytes other more rest : List ℕ) (f : Frame) (fs : List Frame)
      → bytes ≡ other ++ (f.raw ++ more)
      → Pieces more fs rest
      → Pieces bytes (f ∷ fs) rest

-- What a round does to the buffer.
abbrev Cut : List ℕ → Round → Type 0
Cut b (stop c) = (other : List ℕ) × (b ≡ other ++ c)
Cut b (skip c) = (other : List ℕ) × (b ≡ other ++ c)
Cut b (emit f c) = (other : List ℕ) × (b ≡ other ++ (f.raw ++ c))

append-Cut : (other b : List ℕ) (r : Round) → Cut b r → Cut (other ++ b) r
append-Cut other b (stop c) (o, e) =
    (other ++ o, ap (λ (x : List ℕ). other ++ x) e ∙ sym (append_assoc other o c))
append-Cut other b (skip c) (o, e) =
    (other ++ o, ap (λ (x : List ℕ). other ++ x) e ∙ sym (append_assoc other o c))
append-Cut other b (emit f c) (o, e) =
    (other ++ o, ap (λ (x : List ℕ). other ++ x) e ∙ sym (append_assoc other o (f.raw ++ c)))

dropped-Cut : (n : ℕ) (b : List ℕ) (r : Round) → Cut (drop n b) r → Cut b r
dropped-Cut n b r h = rw (take-append-drop n b) at (append-Cut (take n b) (drop n b) r h)

accept-Cut : (end raw rest : List ℕ) → Cut (raw ++ rest) (accept end raw rest)
unfolding accept
accept-Cut end raw rest =
    if-split (Cut (raw ++ rest)) (not (last_bytes 2 raw =b end)) (λ e. (raw, refl))
      (λ e. parsed (parse_frame raw) refl)
  where
    parsed :
        (r : Result Frame)
        → parse_frame raw ≡ r
        → Cut (raw ++ rest) (elim r [ ok f ↦ emit f rest | err e ↦ skip rest ])
    parsed (ok f) h = ([], ap (λ (x : List ℕ). x ++ rest) (sym (parsed_fields raw f h).0))
    parsed (err e) h = (raw, refl)

with_length-Cut : (total : ℕ) (b : List ℕ) → Cut b (with_length total b)
unfolding with_length
with_length-Cut total b =
    if-split (Cut b) (ltb total 13 || ltb 4096 total) (λ e. (take 2 b, sym (take-append-drop 2 b)))
      (λ e.
        if-split (Cut b) (ltb (length b) total) (λ d. ([], refl))
          (λ d.
            rw (take-append-drop total b) at
              (accept-Cut (end_for (take 2 b)) (take total b) (drop total b))))

frame_at-Cut : (b : List ℕ) → Cut b (frame_at b)
unfolding frame_at
frame_at-Cut b =
    if-split (Cut b) (ltb (length b) 13) (λ e. ([], refl))
      (λ e. with_length-Cut (2 + 4 + 1 + 2 + from_bytes (slice 7 9 b) + 2 + 2) b)

start_at-Cut : (o : Option ℕ) (b : List ℕ) → Cut b (start_at o b)
unfolding start_at
start_at-Cut none b = (b, sym (append-nil b))
start_at-Cut (some i) b = dropped-Cut i b (frame_at (drop i b)) (frame_at-Cut (drop i b))

round-Cut : (b : List ℕ) → Cut b (extract_round b)
unfolding extract_round
round-Cut b = start_at-Cut (earliest (find marker_7e b) (find marker_7f b)) b

abbrev Within : List ℕ → Extracted → Type 0
Within b none = Unit
Within b (some (fs, rest)) = Pieces b fs rest

widen :
    (b other c : List ℕ) (fs : List Frame) (rest : List ℕ)
    → b ≡ other ++ c
    → Pieces c fs rest
    → Pieces b fs rest
widen b other c fs rest e (ended bytes o r h) =
    ended b (other ++ o) rest
      (e ∙ ap (λ (x : List ℕ). other ++ x) h ∙ sym (append_assoc other o rest))
widen b other c fs rest e (piece bytes o more r f gs h p) =
    piece b (other ++ o) more rest f gs
      (e ∙ ap (λ (x : List ℕ). other ++ x) h ∙ sym (append_assoc other o (f.raw ++ more))) p

widen-Within : (b other c : List ℕ) (e : Extracted) → b ≡ other ++ c → Within c e → Within b e
widen-Within b other c none h w = tt
widen-Within b other c (some (fs, rest)) h w = widen b other c fs rest h w

push-Within :
    (b other c : List ℕ) (f : Frame) (e : Extracted)
    → b ≡ other ++ (f.raw ++ c)
    → Within c e
    → Within b (push f e)
unfolding push
push-Within b other c f none h w = tt
push-Within b other c f (some (fs, rest)) h w = piece b other c rest f fs h w

after-Within :
    (b : List ℕ) (r : Round) (k : List ℕ → Extracted)
    → Cut b r
    → ((c : List ℕ) → Within c (k c))
    → Within b (after r k)
unfolding after
after-Within b (stop c) k (other, e) w = ended b other c e
after-Within b (skip c) k (other, e) w = widen-Within b other c (k c) e (w c)
after-Within b (emit f c) k (other, e) w = push-Within b other c f (k c) e (w c)

loop-Within : (n : ℕ) (b : List ℕ) → Within b (extract_loop n b)
unfolding extract_loop
loop-Within zero b = tt
loop-Within (suc n) b =
    after-Within b (extract_round b) (extract_loop n) (round-Cut b) (loop-Within n)

-- The frames returned from a buffer stood in it in this order, apart from each other, and what stays
-- in the buffer is its end; other bytes may stand before and between the frames and before the rest.
pub extract_frames-Pieces :
    (b : List ℕ) (fs : List Frame) (rest : List ℕ)
    → extract_frames b ≡ some (fs, rest)
    → Pieces b fs rest
unfolding extract_frames
extract_frames-Pieces b fs rest h = rw h at (loop-Within (suc (length b)) b)
