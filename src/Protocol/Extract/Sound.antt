-- ===== src/Protocol/Extract/Sound.antt =====
-- What holds of every frame that `extract_frames` returns, from any bytes.
use foxess_local_gateway.Prelude.{
  ℕ, zero, suc, ◌≤◌, ◌≡◌, refl, ap, sym, ◌∙◌, arith, List, [], ◌∷◌, length, take, drop, none, some,
  true, Bool-cases, inl, inr, ltb, ◌=b◌, =b→eq, length-take, ok, err, Result, ◌||◌, ◌+◌,
  Option-cases,
}
use foxess_local_gateway.Bytes.{find, slice, from_bytes, last_bytes}
use foxess_local_gateway.Protocol.Frame.{Frame, parse_frame}
use foxess_local_gateway.Protocol.Extract.{
  Round, stop, skip, emit, accept, with_length, frame_at, start_at, extract_round, Extracted, push,
  after, extract_loop, extract_frames, end_for, earliest, marker_7e, marker_7f,
}

-- A frame as the protocol has it: its own bytes parse to it, its end marker is the one of its start
-- marker, and it is no longer than 4096 bytes.
pub record IsProper (f : Frame) : Type 0 where
  pub parses : parse_frame f.raw ≡ ok f
  pub ends : f.end ≡ end_for f.start
  pub short : length f.raw ≤ 4096

abbrev pub AllProper : List Frame → Type 0
AllProper [] = Unit
AllProper (f ∷ fs) = IsProper f × AllProper fs

abbrev RoundIsProper : Round → Type 0
RoundIsProper (stop b) = Unit
RoundIsProper (skip b) = Unit
RoundIsProper (emit f b) = IsProper f

pub parsed_fields :
    (raw : List ℕ) (f : Frame)
    → parse_frame raw ≡ ok f
    → (f.raw ≡ raw) × (f.end ≡ last_bytes 2 raw) × (f.start ≡ take 2 raw)
unfolding parse_frame
parsed_fields raw f h = ground arith

proper :
    (raw : List ℕ) (f : Frame)
    → parse_frame raw ≡ ok f
    → (last_bytes 2 raw =b end_for (take 2 raw)) ≡ true
    → length raw ≤ 4096
    → IsProper f
proper raw f h e short =
    let (same, end, start) = parsed_fields raw f h in
    record {
      parses = ap parse_frame same ∙ h;
      ends = end ∙ =b→eq (last_bytes 2 raw) (end_for (take 2 raw)) e ∙ ap end_for (sym start);
      short = rw same short;
    }

accept-IsProper :
    (raw rest : List ℕ) → length raw ≤ 4096 → RoundIsProper (accept (end_for (take 2 raw)) raw rest)
unfolding accept
accept-IsProper raw rest short = elim (Bool-cases (last_bytes 2 raw =b end_for (take 2 raw))) [
  | inr bad ↦ rw bad tt
  | inl good ↦ rw good (parsed (parse_frame raw) refl good)
]
  where
    parsed :
        (r : Result Frame)
        → parse_frame raw ≡ r
        → (last_bytes 2 raw =b end_for (take 2 raw)) ≡ true
        → RoundIsProper (elim r [ ok f ↦ emit f rest | err e ↦ skip rest ])
    parsed (ok f) h good = proper raw f h good short
    parsed (err e) h good = tt

-- The first bytes of a longer prefix.
take-take : (m n : ℕ) (xs : List ℕ) → m ≤ n → take m (take n xs) ≡ take m xs
take-take zero n xs h = refl
take-take (suc m) zero xs h = absurd (omega arith)
take-take (suc m) (suc n) [] h = refl
take-take (suc m) (suc n) (x ∷ xs) h = ap (◌∷◌ x) (take-take m n xs (omega arith))

with_length-IsProper : (total : ℕ) (b : List ℕ) → RoundIsProper (with_length total b)
unfolding with_length
with_length-IsProper total b = elim (Bool-cases (ltb total 13 || ltb 4096 total)) [
  | inl bad ↦ rw bad tt
  | inr good ↦ elim (Bool-cases (ltb (length b) total)) [
    | inl short ↦ rw (good, short) tt
    | inr whole ↦
        let prefix : take 2 (take total b) ≡ take 2 b = take-take 2 total b (ground arith) in
        let bounded : total ≤ 4096 = ground arith in
        rw (good, whole, ← prefix)
          (accept-IsProper (take total b) (drop total b) (omega (arith, length-take total b)))
  ]
]

frame_at-IsProper : (b : List ℕ) → RoundIsProper (frame_at b)
unfolding frame_at
frame_at-IsProper b =
    let total : ℕ = 2 + 4 + 1 + 2 + from_bytes (slice 7 9 b) + 2 + 2 in
    elim (Bool-cases (ltb (length b) 13)) [
      | inl short ↦ rw short tt
      | inr long ↦ rw long (with_length-IsProper total b)
    ]

round-IsProper : (b : List ℕ) → RoundIsProper (extract_round b)
unfolding extract_round start_at
round-IsProper b = elim (Option-cases (earliest (find marker_7e b) (find marker_7f b))) [
  | inl unmarked ↦ rw unmarked tt
  | inr (i, m) ↦ rw m (frame_at-IsProper (drop i b))
]

-- The frames of a finished extraction.
abbrev taken : Extracted → List Frame
taken none = []
taken (some (fs, b)) = fs

push-AllProper :
    (f : Frame) (e : Extracted) → IsProper f → AllProper (taken e) → AllProper (taken (push f e))
unfolding push
push-AllProper f none h k = tt
push-AllProper f (some (fs, b)) h k = (h, k)

after-AllProper :
    (r : Round) (k : List ℕ → Extracted)
    → RoundIsProper r
    → ((b : List ℕ) → AllProper (taken (k b)))
    → AllProper (taken (after r k))
unfolding after
after-AllProper (stop b) k h all = tt
after-AllProper (skip b) k h all = all b
after-AllProper (emit f b) k h all = push-AllProper f (k b) h (all b)

loop-AllProper : (n : ℕ) (b : List ℕ) → AllProper (taken (extract_loop n b))
unfolding extract_loop
loop-AllProper zero b = tt
loop-AllProper (suc n) b =
    after-AllProper (extract_round b) (extract_loop n) (round-IsProper b) (loop-AllProper n)

-- From any bytes at all, every returned frame is the parse of its own bytes, carries the end marker
-- that goes with its start marker, and has at most 4096 bytes.
pub extract_frames_proper :
    (b : List ℕ) (fs : List Frame) (rest : List ℕ)
    → extract_frames b ≡ some (fs, rest)
    → AllProper fs
unfolding extract_frames
extract_frames_proper b fs rest h = rw h at (loop-AllProper (suc (length b)) b)
