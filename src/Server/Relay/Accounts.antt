-- ===== src/Server/Relay/Accounts.antt =====
-- Loops that write what they read, up to a rest: how their parts make the whole.
use mathlib.Core.Path.{subst}
use foxess_local_gateway.Prelude.{
  ℕ, ◌-◌, ◌≡◌, refl, ap, sym, ◌∙◌, arith, List, [], ◌∷◌, ◌++◌, append_assoc, append-nil, length,
  length-append, take, take_exact, some, Result, ok, err,
}
use foxess_local_gateway.Protocol.Frame.{Frame}
use foxess_local_gateway.Protocol.Extract.{extract_frames}
use foxess_local_gateway.Protocol.Extract.Pieces.{Pieces, ended, piece, extract_frames-Pieces}
use foxess_local_gateway.Server.Session.{Session, Call, Action, Ran, pure, continue, ◌>>=◌}
use foxess_local_gateway.Server.Relay.Silent.{sent, sent-append, Silent}
use foxess_local_gateway.Server.Relay.{forward_bytes}

-- What was read before the end of the stream.
abbrev pub received : List (List ℕ × ℕ) → List ℕ
received [] = []
received (([], now) ∷ reads) = []
received ((b ∷ bs, now) ∷ reads) = (b ∷ bs) ++ received reads

-- A prefix and the rest make the whole; `rest` is not given when the run raised.
abbrev pub Splits : List ℕ → List ℕ → Result (List ℕ) → Type 0
Splits whole front (ok rest) = front ++ rest ≡ whole
Splits whole front (err e) = (rest : List ℕ) × (front ++ rest ≡ whole)

joined_at :
    (before rest whole more later all last : List ℕ)
    → all ≡ before ++ later
    → before ++ rest ≡ whole
    → later ++ last ≡ rest ++ more
    → all ++ last ≡ whole ++ more
joined_at before rest whole more later all last made first second =
    ap (λ (x : List ℕ). x ++ last) made
    ∙ append_assoc before later last
    ∙ ap (λ (x : List ℕ). before ++ x) second
    ∙ sym (append_assoc before rest more)
    ∙ ap (λ (x : List ℕ). x ++ more) first

-- A second part begins with what the first has left.
joined :
    (before rest whole more later all : List ℕ) (r : Result (List ℕ))
    → all ≡ before ++ later
    → before ++ rest ≡ whole
    → Splits (rest ++ more) later r
    → Splits (whole ++ more) all r
joined before rest whole more later all (ok last) made first second =
    joined_at before rest whole more later all last made first second
joined before rest whole more later all (err e) made first (last, second) =
    (last, joined_at before rest whole more later all last made first second)

-- The front of a piece that all extractions start with.
Pieces-front :
    (bytes : List ℕ) (fs : List Frame) (rest : List ℕ)
    → Pieces bytes fs rest
    → (front : List ℕ) × (bytes ≡ front ++ rest)
Pieces-front bytes fs rest (ended b other r e) = (other, e)
Pieces-front bytes fs rest (piece b other more r f gs e p) =
    let (front, same) = Pieces-front more gs rest p in
    (
      other ++ (f.raw ++ front),
      e
          ∙ ap (λ (x : List ℕ). other ++ (f.raw ++ x)) same
          ∙ ap (λ (x : List ℕ). other ++ x) (sym (append_assoc f.raw front rest))
          ∙ sym (append_assoc other (f.raw ++ front) rest),
    )

pub front_taken :
    (bytes front rest : List ℕ)
    → bytes ≡ front ++ rest
    → take (length bytes - length rest) bytes ≡ front
front_taken bytes front rest e = rw e (
    take_exact (length (front ++ rest) - length rest) front rest
      (omega (arith, length-append front rest)))

module _ {F : Type 0} (wrote : Call F → List ℕ) (keep : Session → Type 0) where
  -- What a read leaves, and what it has written.
  pub record Accounts (whole : List ℕ) (ran : Ran F (List ℕ)) : Type 0 where
    pub passive : keep ran.session
    pub splits : Splits whole (sent wrote ran.calls) ran.result

  forward_bytes-Accounts :
      (write : List ℕ → Call F) (forward rest : List ℕ) (s : Session)
      → ((b : List ℕ) → wrote (write b) ≡ b)
      → keep s
      → Accounts (forward ++ rest) ((forward_bytes write forward >>= λ a. pure rest) s)
  forward_bytes-Accounts write [] rest s h p = record { passive = p; splits = refl }
  forward_bytes-Accounts write (b ∷ bs) rest s h p = record {
    passive = p;
    splits = ap (λ (x : List ℕ). x ++ rest) (append-nil (wrote (write (b ∷ bs))) ∙ h (b ∷ bs));
  }

  -- What a silent run is followed by accounts for the bytes.
  silent_Accounts :
      {A : Type 0} (whole : List ℕ) (good : A → Type 0) (session : Session) (calls : List (Call F))
      (k : A → Action F (List ℕ)) (r : Result A)
      → Silent wrote keep good (record { result = r; session = session; calls = calls })
      → ((a : A) (s : Session) → good a → keep s → Accounts whole (k a s))
      → Accounts whole (continue session calls k r)
  silent_Accounts whole good session calls k (err e) h next = record {
    passive = h.kept;
    splits = (whole, ap (λ (b : List ℕ). b ++ whole) h.nothing);
  }
  silent_Accounts whole good session calls k (ok a) h next =
      let after : Accounts whole (k a session) = next a session h.value h.kept in
      let same : sent wrote (calls ++ (k a session).calls) ≡ sent wrote (k a session).calls =
        sent-append wrote calls (k a session).calls
        ∙ ap (λ (b : List ℕ). b ++ sent wrote (k a session).calls) h.nothing in
      record {
        passive = after.passive;
        splits =
            subst (λ (b : List ℕ). Splits whole b (k a session).result) (sym same) after.splits;
      }

  -- The frames of a read leave all that was consumed, which is then written.
  pub extracted-Accounts :
      (write : List ℕ → Call F) (snapshot : List ℕ) (fs : List Frame) (rest : List ℕ)
      (m : Action F (List ℕ)) (s : Session)
      → ((b : List ℕ) → wrote (write b) ≡ b)
      → extract_frames snapshot ≡ some (fs, rest)
      → Silent wrote keep
          (λ (left : List ℕ). left ≡ take (length snapshot - length rest) snapshot)
          (m s)
      → Accounts snapshot ((m >>= λ forward. (forward_bytes write forward >>= λ a. pure rest)) s)
  extracted-Accounts write snapshot fs rest m s out h silent =
      let (front, whole) =
        Pieces-front snapshot fs rest (extract_frames-Pieces snapshot fs rest h) in
      silent_Accounts snapshot
        (λ (left : List ℕ). left ≡ take (length snapshot - length rest) snapshot) _ _ _ _ silent
        (λ forward t same q.
          subst (λ (b : List ℕ). Accounts b ((forward_bytes write forward >>= λ a. pure rest) t))
            (ap (λ (x : List ℕ). x ++ rest) (same ∙ front_taken snapshot front rest whole)
              ∙ sym whole)
            (forward_bytes-Accounts write forward rest t out q))

  pub resumed :
      (whole more : List ℕ) (session : Session) (calls : List (Call F))
      (k : List ℕ → Action F (List ℕ)) (r : Result (List ℕ))
      → Accounts whole (record { result = r; session = session; calls = calls })
      → ((rest : List ℕ) (s : Session) → keep s → Accounts (rest ++ more) (k rest s))
      → Accounts (whole ++ more) (continue session calls k r)
  resumed whole more session calls k (err e) h next =
      let (rest, same) = h.splits in
      record {
        passive = h.passive;
        splits = (
          rest ++ more,
          sym (append_assoc (sent wrote calls) rest more) ∙ ap (λ (b : List ℕ). b ++ more) same,
        );
      }
  resumed whole more session calls k (ok rest) h next =
      let after : Accounts (rest ++ more) (k rest session) = next rest session h.passive in
      record {
        passive = after.passive;
        splits =
            joined (sent wrote calls) rest whole more (sent wrote (k rest session).calls)
              (sent wrote (calls ++ (k rest session).calls)) (k rest session).result
              (sent-append wrote calls (k rest session).calls) h.splits after.splits;
      }
