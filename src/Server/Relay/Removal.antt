-- ===== src/Server/Relay/Removal.antt =====
-- Taking frames out of the bytes that the loops of foxess_local_cloud/server.py pass on.
use mathlib.Core.Path.{subst}
use foxess_local_gateway.Prelude.{
  ℕ, ◌+◌, ◌≡◌, refl, ap, sym, ◌∙◌, arith, List, [], ◌∷◌, ◌++◌, append_assoc, append-nil, length,
  length-append, take_exact, drop, drop_exact, Bool, true, false, Option, some, Result, ok, err,
  if◌then◌else◌,
}
use foxess_local_gateway.Bytes.{find}
use foxess_local_gateway.Protocol.Frame.{Frame}
use foxess_local_gateway.Server.Session.{Session, Call, continue, ◌>>=◌, pure}
use foxess_local_gateway.Server.Relay.{forward_bytes, remove, remove_at}
use foxess_local_gateway.Server.Relay.Silent.{sent, sent-append, Silent}

pub remove_found :
    (front raw more : List ℕ)
    → find raw (front ++ (raw ++ more)) ≡ some (length front)
    → remove raw (front ++ (raw ++ more)) ≡ front ++ more
unfolding remove
remove_found front raw more h =
    ap (λ (o : Option ℕ). remove_at o raw (front ++ (raw ++ more))) h
    ∙ ap (λ (x : List ℕ). x ++ drop (length front + length raw) (front ++ (raw ++ more)))
        (take_exact (length front) front (raw ++ more) refl)
    ∙ ap (λ (x : List ℕ). front ++ x)
        (rw (append_assoc front raw more) at (
          drop_exact (length front + length raw) (front ++ raw) more
            (omega (arith, length-append front raw))))

-- Frames, each with the other bytes before it, and their bytes.
abbrev pub frames : List (List ℕ × Frame) → List Frame
frames [] = []
frames ((other, f) ∷ ps) = f ∷ frames ps

abbrev pub whole_bytes : List (List ℕ × Frame) → List ℕ
whole_bytes [] = []
whole_bytes ((other, f) ∷ ps) = other ++ (f.raw ++ whole_bytes ps)

-- Nothing of a frame that is held back.
abbrev pub shown : Bool → List ℕ → List ℕ
shown true raw = []
shown false raw = raw

-- All but the bytes of the frames that are held back.
abbrev pub passed_bytes : (Frame → Bool) → List (List ℕ × Frame) → List ℕ
passed_bytes held [] = []
passed_bytes held ((other, f) ∷ ps) = other ++ (shown (held f) f.raw ++ passed_bytes held ps)

-- Between `front` and `more` is where the frame's bytes come first.
abbrev pub ComesFirst : Bool → List ℕ → List ℕ → List ℕ → Type 0
ComesFirst true front raw more = find raw (front ++ (raw ++ more)) ≡ some (length front)
ComesFirst false front raw more = Unit

-- The bytes of no frame that is held back come earlier, in `kept` or in what is passed on.
abbrev pub InPlace : (Frame → Bool) → List ℕ → List (List ℕ × Frame) → List ℕ → Type 0
InPlace held kept [] tail = Unit
InPlace held kept ((other, f) ∷ ps) tail =
    ComesFirst (held f) (kept ++ other) f.raw (whole_bytes ps ++ tail)
    × InPlace held (kept ++ (other ++ shown (held f) f.raw)) ps tail

-- What one frame does to the bytes.
pub frame_removed :
    (b : Bool) (kept other raw more forward : List ℕ)
    → ComesFirst b (kept ++ other) raw more
    → forward ≡ (kept ++ other) ++ (raw ++ more)
    → (if b then remove raw forward else forward) ≡ (kept ++ (other ++ shown b raw)) ++ more
frame_removed true kept other raw more forward h e =
    ap (remove raw) e
    ∙ remove_found (kept ++ other) raw more h
    ∙ ap (λ (x : List ℕ). (kept ++ x) ++ more) (sym (append-nil other))
frame_removed false kept other raw more forward h e =
    e
    ∙ sym (append_assoc (kept ++ other) raw more)
    ∙ ap (λ (x : List ℕ). x ++ more) (append_assoc kept other raw)

pub opened :
    (kept other raw more tail : List ℕ)
    → kept ++ ((other ++ (raw ++ more)) ++ tail) ≡ (kept ++ other) ++ (raw ++ (more ++ tail))
opened kept other raw more tail = simp append_assoc refl

pub closed :
    (kept other raw more tail : List ℕ)
    → (kept ++ (other ++ raw)) ++ (more ++ tail) ≡ kept ++ ((other ++ (raw ++ more)) ++ tail)
closed kept other raw more tail = simp append_assoc refl

abbrev pub Anywhere : Session → Type 0
Anywhere s = Unit {0}

-- What was written, and what stays in the buffer; a run that raises has written nothing.
abbrev pub Passed : List ℕ → List ℕ → List ℕ → Result (List ℕ) → Type 0
Passed out rest written (ok left) = (written ≡ out) × (left ≡ rest)
Passed out rest written (err e) = written ≡ []

module _ {F : Type 0} (wrote : Call F → List ℕ) where
  forward_bytes-Passed :
      (write : List ℕ → Call F) (forward rest : List ℕ) (s : Session)
      → ((b : List ℕ) → wrote (write b) ≡ b)
      → Passed forward rest
          (sent wrote ((forward_bytes {F = F} write forward >>= λ a. pure rest) s).calls)
          ((forward_bytes {F = F} write forward >>= λ a. pure rest) s).result
  forward_bytes-Passed write [] rest s h = (refl, refl)
  forward_bytes-Passed write (b ∷ bs) rest s h =
      (append-nil (wrote (write (b ∷ bs))) ∙ h (b ∷ bs), refl)

  -- After a run that writes nothing, all that it left is written.
  pub forwarded_Passed :
      (keep : Session → Type 0) (write : List ℕ → Call F) (out rest : List ℕ) (session : Session)
      (calls : List (Call F)) (r : Result (List ℕ))
      → ((b : List ℕ) → wrote (write b) ≡ b)
      → Silent wrote keep
          (λ (left : List ℕ). left ≡ out)
          (record { result = r; session = session; calls = calls })
      → Passed out rest
          (sent wrote
            (continue session calls
              (λ forward. (forward_bytes {F = F} write forward >>= λ a. pure rest))
              r).calls)
          (continue session calls
            (λ forward. (forward_bytes {F = F} write forward >>= λ a. pure rest))
            r).result
  forwarded_Passed keep write out rest session calls (err e) h silent = silent.nothing
  forwarded_Passed keep write out rest session calls (ok left) h silent =
      let next = (forward_bytes {F = F} write left >>= λ a. pure rest) session in
      let same : sent wrote (calls ++ next.calls) ≡ sent wrote next.calls =
        sent-append wrote calls next.calls
        ∙ ap (λ (b : List ℕ). b ++ sent wrote next.calls) silent.nothing in
      subst (λ (b : List ℕ). Passed out rest b next.result) (sym same)
        (subst (λ (o : List ℕ). Passed o rest (sent wrote next.calls) next.result) silent.value
          (forward_bytes-Passed write left rest session h))
