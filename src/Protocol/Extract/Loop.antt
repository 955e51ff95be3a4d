-- ===== src/Protocol/Extract/Loop.antt =====
-- The loop of `extract_frames` ends on every buffer, and obeys its own equation without fuel.
use foxess_local_gateway.Prelude.{
  ℕ, zero, suc, ◌+◌, ◌≤◌, ◌<◌, ◌≡◌, refl, ap, arith, List, [], ◌∷◌, length, take, drop, ltb,
  length-drop, Option, none, some, Bool-cases, inl, inr,
}
use foxess_local_gateway.Bytes.{find, slice, from_bytes}
use foxess_local_gateway.Protocol.Frame.{Frame}
use foxess_local_gateway.Protocol.Extract.{
  Round, stop, skip, emit, earliest, end_for, accept, with_length, frame_at, start_at,
  extract_round, Extracted, push, after, extract_loop, extract_frames, marker_7e, marker_7f,
}

-- A round that goes on leaves fewer than `n` bytes.
abbrev pub Shrinks : ℕ → Round → Type 0
Shrinks n (stop b) = Unit
Shrinks n (skip b) = length b < n
Shrinks n (emit f b) = length b < n

accept-Shrinks : (n : ℕ) (end raw rest : List ℕ) → length rest < n → Shrinks n (accept end raw rest)
unfolding accept
accept-Shrinks n end raw rest h = ground arith

with_length-Shrinks :
    (total : ℕ) (b : List ℕ) → 13 ≤ length b → Shrinks (length b) (with_length total b)
unfolding with_length
with_length-Shrinks total b h = ground (
  arith,
  length-drop 2 b,
  length-drop total b,
  accept-Shrinks (length b) (end_for (take 2 b)) (take total b) (drop total b),
)

frame_at-Shrinks : (b : List ℕ) → Shrinks (length b) (frame_at b)
unfolding frame_at
frame_at-Shrinks b =
    let total : ℕ = 2 + 4 + 1 + 2 + from_bytes (slice 7 9 b) + 2 + 2 in
    let whole : 13 ≤ length b → Shrinks (length b) (with_length total b) =
      with_length-Shrinks total b in
    elim (Bool-cases (ltb (length b) 13)) [
      | inl short ↦ rw short tt
      | inr long ↦ rw long (whole (ground arith))
    ]

Shrinks-mono : (m n : ℕ) (r : Round) → m ≤ n → Shrinks m r → Shrinks n r
Shrinks-mono m n (stop b) h s = s
Shrinks-mono m n (skip b) h s = omega arith
Shrinks-mono m n (emit f b) h s = omega arith

start_at-Shrinks : (o : Option ℕ) (b : List ℕ) → Shrinks (length b) (start_at o b)
unfolding start_at
start_at-Shrinks none b = tt
start_at-Shrinks (some i) b =
    Shrinks-mono (length (drop i b)) (length b) (frame_at (drop i b))
      (omega (arith, length-drop i b)) (frame_at-Shrinks (drop i b))

pub round-Shrinks : (b : List ℕ) → Shrinks (length b) (extract_round b)
unfolding extract_round
round-Shrinks b = start_at-Shrinks (earliest (find marker_7e b) (find marker_7f b)) b

-- Two continuations that agree on shorter buffers give the same result.
after_agree :
    (n : ℕ) (r : Round) (k l : List ℕ → Extracted)
    → Shrinks n r
    → ((b : List ℕ) → length b < n → k b ≡ l b)
    → after r k ≡ after r l
unfolding after
after_agree n (stop b) k l s h = refl
after_agree n (skip b) k l s h = h b s
after_agree n (emit f b) k l s h = ap (push f) (h b s)

-- Fuel above the length of the buffer does not matter.
loop_fuel :
    (n m : ℕ) (b : List ℕ) → length b < n → length b < m → extract_loop n b ≡ extract_loop m b
unfolding extract_loop
loop_fuel zero m b p q = absurd (omega arith)
loop_fuel (suc n) zero b p q = absurd (omega arith)
loop_fuel (suc n) (suc m) b p q =
    after_agree (length b) (extract_round b) (extract_loop n) (extract_loop m) (round-Shrinks b)
      (λ c h. loop_fuel n m c (omega arith) (omega arith))

-- The loop without fuel: one round, then the loop on what is left.
pub extract_frames_unroll : (b : List ℕ) → extract_frames b ≡ after (extract_round b) extract_frames
unfolding extract_frames
extract_frames_unroll b =
    after_agree (length b) (extract_round b) (extract_loop (length b)) extract_frames
      (round-Shrinks b) (λ c h. loop_fuel (length b) (suc (length c)) c h (omega arith))

push_total :
    (f : Frame) (e : Extracted)
    → (r : List Frame × List ℕ) × (e ≡ some r)
    → (r : List Frame × List ℕ) × (push f e ≡ some r)
unfolding push
push_total f e ((fs, b), h) = ((f ∷ fs, b), rw h)

after_total :
    (n : ℕ) (r : Round) (k : List ℕ → Extracted)
    → Shrinks n r
    → ((b : List ℕ) → length b < n → (x : List Frame × List ℕ) × (k b ≡ some x))
    → (x : List Frame × List ℕ) × (after r k ≡ some x)
unfolding after
after_total n (stop b) k s h = (([], b), refl)
after_total n (skip b) k s h = h b s
after_total n (emit f b) k s h = push_total f (k b) (h b s)

loop_total :
    (n : ℕ) (b : List ℕ) → length b < n → (x : List Frame × List ℕ) × (extract_loop n b ≡ some x)
unfolding extract_loop
loop_total zero b h = absurd (omega arith)
loop_total (suc n) b h =
    after_total (length b) (extract_round b) (extract_loop n) (round-Shrinks b)
      (λ c p. loop_total n c (omega arith))

-- `extract_frames` returns on every buffer: its loop never runs out of fuel.
pub extract_frames_total : (b : List ℕ) → (x : List Frame × List ℕ) × (extract_frames b ≡ some x)
unfolding extract_frames
extract_frames_total b = loop_total (suc (length b)) b (omega arith)
