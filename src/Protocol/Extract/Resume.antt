-- ===== src/Protocol/Extract/Resume.antt =====
-- Reading a stream in two pieces: frames are found as if the pieces had arrived together, as long as
-- the first piece leaves something in the buffer.
use foxess_local_gateway.Prelude.{
  ℕ, zero, suc, ◌+◌, ◌≤◌, ◌<◌, ◌≡◌, ◌≢◌, refl, ap, sym, ◌∙◌, arith, List, [], ◌∷◌, ◌++◌, length,
  take, drop, none, some, false, ◌||◌, Bool-cases, Option-cases, inl, inr, ltb, drop-append_le,
  take-append_le, length-append,
}
use foxess_local_gateway.Bytes.{slice, from_bytes}
use foxess_local_gateway.Protocol.Frame.{Frame}
use foxess_local_gateway.Protocol.Extract.{
  Round, stop, skip, emit, accept, with_length, frame_at, extract_round, Extracted, push, after,
  extract_frames, end_for,
}
use foxess_local_gateway.Protocol.Extract.Markers.{
  first_marker, first_marker-append, first_marker-Marked, Marked-first,
}
use foxess_local_gateway.Protocol.Extract.Loop.{extract_frames_unroll, round-Shrinks}

-- The round from the first marker on.
pub round_at :
    (a : List ℕ) (i : ℕ) → first_marker a ≡ some i → extract_round a ≡ frame_at (drop i a)
unfolding extract_round
round_at a i h = rw h

pub round_none : (a : List ℕ) → first_marker a ≡ none → extract_round a ≡ stop []
unfolding extract_round
round_none a h = rw h

-- The same, with `b` added behind the buffer.
round_at-append :
    (a b : List ℕ) (i : ℕ)
    → first_marker a ≡ some i
    → extract_round (a ++ b) ≡ frame_at (drop i a ++ b)
round_at-append a b i h =
    let (h', le) = first_marker-append a b i h in
    round_at (a ++ b) i h' ∙ ap frame_at (drop-append_le i a b le)

-- A round with `b` added behind its buffer.
abbrev pub extend : List ℕ → Round → Round
extend b (stop c) = frame_at (c ++ b)
extend b (skip c) = skip (c ++ b)
extend b (emit f c) = emit f (c ++ b)

accept-append :
    (end raw rest b : List ℕ) → accept end raw (rest ++ b) ≡ extend b (accept end raw rest)
unfolding accept
accept-append end raw rest b = ground (arith)

with_length-append :
    (total : ℕ) (a b : List ℕ)
    → 13 ≤ length a
    → frame_at (a ++ b) ≡ with_length total (a ++ b)
    → with_length total (a ++ b) ≡ extend b (with_length total a)
unfolding with_length
with_length-append total a b long same = elim (Bool-cases (ltb total 13 || ltb 4096 total)) [
  | inl bad ↦ rw (bad, drop-append_le 2 a b (omega arith))
  | inr good ↦ elim (Bool-cases (ltb (length a) total)) [
    | inl short ↦ rw (good, short) (sym (rw good at same))
    | inr whole ↦
        let fits : total ≤ length a = ground arith in
        let whole' : ltb (length (a ++ b)) total ≡ false = ground (arith, length-append a b) in
        rw
          (
            good,
            whole,
            whole',
            take-append_le total a b fits,
            drop-append_le total a b fits,
            take-append_le 2 a b (omega arith),
          )
          (accept-append (end_for (take 2 a)) (take total a) (drop total a) b)
  ]
]

frame_at_long :
    (a : List ℕ)
    → 13 ≤ length a
    → frame_at a ≡ with_length (2 + 4 + 1 + 2 + from_bytes (slice 7 9 a) + 2 + 2) a
unfolding frame_at
frame_at_long a h = let long : ltb (length a) 13 ≡ false = ground arith in rw long

frame_at-append : (a b : List ℕ) → frame_at (a ++ b) ≡ extend b (frame_at a)
frame_at-append a b = elim (Bool-cases (ltb (length a) 13)) [
  | inl short ↦ let e : frame_at a ≡ stop a = unfold frame_at in rw short in rw e
  | inr h ↦
      let long : 13 ≤ length a = ground arith in
      let size : ℕ = 2 + 4 + 1 + 2 + from_bytes (slice 7 9 a) + 2 + 2 in
      let same : frame_at (a ++ b) ≡ with_length size (a ++ b) =
        frame_at_long (a ++ b) (omega (arith, length-append a b))
        ∙ ap (λ (t : List ℕ). with_length (2 + 4 + 1 + 2 + from_bytes (drop 7 t) + 2 + 2) (a ++ b))
            (take-append_le 9 a b (omega arith)) in
      same ∙ with_length-append size a b long same ∙ ap (extend b) (sym (frame_at_long a long))
]

-- A round of the longer buffer, when the shorter one has a marker.
pub round-append :
    (a b : List ℕ) (i : ℕ)
    → first_marker a ≡ some i
    → extract_round (a ++ b) ≡ extend b (extract_round a)
round-append a b i h =
    round_at-append a b i h ∙ frame_at-append (drop i a) b ∙ ap (extend b) (sym (round_at a i h))

-- A buffer at which the loop stops, with a marker in it, begins with that marker.
frame_at_stop : (a c : List ℕ) → frame_at a ≡ stop c → c ≡ a
unfolding frame_at with_length accept
frame_at_stop a c h = ground arith

-- `fs` in front of what is taken later.
abbrev pub prepend : List Frame → Extracted → Extracted
prepend fs none = none
prepend fs (some (gs, rest)) = some (fs ++ gs, rest)

prepend-push :
    (f : Frame) (fs : List Frame) (e : Extracted) → push f (prepend fs e) ≡ prepend (f ∷ fs) e
unfolding push
prepend-push f fs none = refl
prepend-push f fs (some (gs, rest)) = refl

prepend-nil : (e : Extracted) → prepend [] e ≡ e
prepend-nil none = refl
prepend-nil (some (gs, rest)) = refl

-- The statement of resumption for a buffer `a`.
abbrev Resumes : List ℕ → List ℕ → Type 0
Resumes b a =
    (fs : List Frame) (c : List ℕ)
    → extract_frames a ≡ some (fs, c)
    → c ≢ []
    → extract_frames (a ++ b) ≡ prepend fs (extract_frames (c ++ b))

skip_shorter : (a a' : List ℕ) → extract_round a ≡ skip a' → length a' < length a
skip_shorter a a' e = rw e at (round-Shrinks a)

emit_shorter :
    (a : List ℕ) (f : Frame) (a' : List ℕ) → extract_round a ≡ emit f a' → length a' < length a
emit_shorter a f a' e = rw e at (round-Shrinks a)

lost_marker :
    (fs : List Frame) (c : List ℕ) → ◌≡◌ {A = Extracted} (some ([], [])) (some (fs, c)) → c ≡ []
lost_marker fs c h = ground arith

-- The loop from a buffer whose round is known.
unroll_as :
    (a : List ℕ) (r : Round) → extract_round a ≡ r → extract_frames a ≡ after r extract_frames
unroll_as a r e = extract_frames_unroll a ∙ ap (λ (t : Round). after t extract_frames) e

pub unroll_stop : (a c : List ℕ) → extract_round a ≡ stop c → extract_frames a ≡ some ([], c)
unfolding after
unroll_stop a c e = unroll_as a (stop c) e

pub unroll_skip : (a c : List ℕ) → extract_round a ≡ skip c → extract_frames a ≡ extract_frames c
unfolding after
unroll_skip a c e = unroll_as a (skip c) e

pub unroll_emit :
    (a : List ℕ) (f : Frame) (c : List ℕ)
    → extract_round a ≡ emit f c
    → extract_frames a ≡ push f (extract_frames c)
unfolding after
unroll_emit a f c e = unroll_as a (emit f c) e

-- Bytes in front of the first marker play no part.
from_marker :
    (a b : List ℕ) (i : ℕ)
    → first_marker a ≡ some i
    → extract_frames (a ++ b) ≡ extract_frames (drop i a ++ b)
from_marker a b i m =
    let at_start : first_marker (drop i a) ≡ some 0 = Marked-first (first_marker-Marked a i m) in
    unroll_as (a ++ b) _ (round_at-append a b i m)
    ∙ sym (unroll_as (drop i a ++ b) _ (round_at-append (drop i a) b 0 at_start))

push_inversion :
    (f : Frame) (e : Extracted) (fs : List Frame) (c : List ℕ)
    → push f e ≡ some (fs, c)
    → (gs : List Frame) × (e ≡ some (gs, c)) × (fs ≡ f ∷ gs)
unfolding push
push_inversion f none fs c h = ground arith
push_inversion f (some (gs, d)) fs c h = (gs, ground arith, ground arith)

stopped_at :
    (fs : List Frame) (c c' : List ℕ)
    → ◌≡◌ {A = Extracted} (some ([], c')) (some (fs, c))
    → (fs ≡ []) × (c ≡ c')
stopped_at fs c c' h = (ground arith, ground arith)

resume_stop :
    (b a : List ℕ) (i : ℕ) (c' : List ℕ)
    → first_marker a ≡ some i
    → extract_round a ≡ stop c'
    → Resumes b a
resume_stop b a i c' m e fs c h ne =
    let (none_yet, kept) = stopped_at fs c c' (sym (unroll_stop a c' e) ∙ h) in
    let marked : c' ≡ drop i a = frame_at_stop (drop i a) c' (sym (round_at a i m) ∙ e) in
    rw (none_yet, kept, marked)
      (from_marker a b i m ∙ sym (prepend-nil (extract_frames (drop i a ++ b))))

resume_round :
    (b a : List ℕ) (i : ℕ)
    → first_marker a ≡ some i
    → (r : Round) → extract_round a ≡ r
    → ((a' : List ℕ) → length a' < length a → Resumes b a')
    → Resumes b a
resume_round b a i m (stop c') e ih = resume_stop b a i c' m e
resume_round b a i m (skip a') e ih = λ fs c h ne.
    let later : extract_frames a' ≡ some (fs, c) = sym (unroll_skip a a' e) ∙ h in
    let grown : extract_round (a ++ b) ≡ skip (a' ++ b) = round-append a b i m ∙ ap (extend b) e in
    unroll_skip (a ++ b) (a' ++ b) grown ∙ ih a' (skip_shorter a a' e) fs c later ne
resume_round b a i m (emit f a') e ih = λ fs c h ne.
    let (gs, later, whole) =
      push_inversion f (extract_frames a') fs c (sym (unroll_emit a f a' e) ∙ h) in
    let grown : extract_round (a ++ b) ≡ emit f (a' ++ b) =
      round-append a b i m ∙ ap (extend b) e in
    unroll_emit (a ++ b) f (a' ++ b) grown
    ∙ ap (push f) (ih a' (emit_shorter a f a' e) gs c later ne)
    ∙ prepend-push f gs (extract_frames (c ++ b))
    ∙ ap (λ (t : List Frame). prepend t (extract_frames (c ++ b))) (sym whole)

resume_fuel : (b : List ℕ) (n : ℕ) (a : List ℕ) → length a < n → Resumes b a
resume_fuel b zero a h = absurd (omega arith)
resume_fuel b (suc n) a h = elim (Option-cases (first_marker a)) [
  | inl unmarked ↦ λ fs c e ne.
      absurd (ne (lost_marker fs c (sym (unroll_stop a [] (round_none a unmarked)) ∙ e)))
  | inr (i, m) ↦
      resume_round b a i m (extract_round a) refl (λ a' p. resume_fuel b n a' (omega arith))
]

-- If the frames `fs` are taken from the buffer and something is kept in it, then reading `b` later
-- gives what reading everything at once gives: `fs`, then the frames of the kept bytes and `b`.
pub extract_frames_resumes :
    (a b : List ℕ) (fs : List Frame) (c : List ℕ)
    → extract_frames a ≡ some (fs, c)
    → c ≢ []
    → extract_frames (a ++ b) ≡ prepend fs (extract_frames (c ++ b))
extract_frames_resumes a b = resume_fuel b (suc (length a)) a (omega arith)
