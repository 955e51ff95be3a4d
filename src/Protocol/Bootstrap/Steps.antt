-- ===== src/Protocol/Bootstrap/Steps.antt =====
-- The responder as a state machine over any sequence of frames.
use foxess_local_gateway.Prelude.{
  ℕ, ◌+◌, ◌≤◌, ◌≡◌, arith, List, [], ◌∷◌, Option, none, some, Result, ok, err,
}
use foxess_local_gateway.Protocol.Frame.{Frame}
use foxess_local_gateway.Protocol.Bootstrap.{reply, response_for}

-- Whether the call answers: it sends bytes, or raises while it builds them.
abbrev pub answers : Result (Option (List ℕ)) → ℕ
answers (ok none) = 0
answers (ok (some b)) = 1
answers (err e) = 1

-- The responder fed with all frames: the step reached, and the number of answers.
abbrev pub run : ℕ → List Frame → ℕ × ℕ
run step [] = (step, 0)
run step (f ∷ fs) =
    let (step', answer) = response_for step f in
    let (last, count) = run step' fs in (last, answers answer + count)

answers-reply : (f : Frame) (o : ℕ) (p : List ℕ) → answers (reply f o p) ≡ 1
unfolding reply
answers-reply f o p = ground arith

one_step :
    (step : ℕ) (f : Frame)
    → step ≤ 3
    → ((response_for step f).0 ≡ step + answers (response_for step f).1)
      × ((response_for step f).0 ≤ 3)
unfolding response_for
one_step step f h = ground (
  arith,
  answers-reply f 0x82 (0x01 ∷ 0x01 ∷ 0x01 ∷ 0x00 ∷ 0x00 ∷ []),
  answers-reply f 0x80 [],
  answers-reply f 0x81 (0x01 ∷ []),
)

-- Over any frames the responder gives exactly one answer for each step that it advances, and never
-- goes past step 3: from the start it answers at most three times.
pub run_counts :
    (step : ℕ) (fs : List Frame)
    → step ≤ 3
    → ((run step fs).0 ≡ step + (run step fs).1) × ((run step fs).0 ≤ 3)
run_counts step [] h = omega arith
run_counts step (f ∷ fs) h =
    let (advanced, bounded) = one_step step f h in
    omega (arith, run_counts (response_for step f).0 fs bounded)
