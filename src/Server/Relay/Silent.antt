-- ===== src/Server/Relay/Silent.antt =====
-- Runs that write nothing to the cloud, or nothing to the inverter, for the loops of foxess_local_cloud/server.py.
use foxess_local_gateway.Prelude.{
  ℕ, ◌≡◌, refl, ap, sym, ◌∙◌, arith, List, [], ◌∷◌, ◌++◌, append_assoc, Result, ok, err,
}
use foxess_local_gateway.Server.Session.{
  Session, Call, Action, Ran, continue, write_upstream, write_client,
}
use foxess_local_gateway.Server.Session.Rules.{AllCalls, Runs}
use foxess_local_gateway.Server.Relay.Keeping.{NotCloud}

abbrev pub Meets : {A : Type 0} → (A → Type 0) → Result A → Type 0
Meets good (ok a) = good a
Meets good (err e) = Unit {0}

abbrev pub Any : {A : Type 0} → A → Type 0
Any a = Unit {0}

pub any_Meets : {A : Type 0} (r : Result A) → Meets Any r
any_Meets (ok a) = tt
any_Meets (err e) = tt

module _ {F : Type 0} where
  -- What a call writes to the cloud, and to the inverter.
  abbrev pub to_cloud : Call F → List ℕ
  to_cloud (write_upstream bytes) = bytes
  to_cloud c = []

  abbrev pub to_inverter : Call F → List ℕ
  to_inverter (write_client bytes) = bytes
  to_inverter c = []

  pub to_cloud_none : (c : Call F) → NotCloud c → to_cloud c ≡ []
  to_cloud_none c h = ground (arith, h)

module _ {F : Type 0} (wrote : Call F → List ℕ) where
  -- The bytes that are written, in order.
  abbrev pub sent : List (Call F) → List ℕ
  sent [] = []
  sent (c ∷ cs) = wrote c ++ sent cs

  pub sent-append : (xs ys : List (Call F)) → sent (xs ++ ys) ≡ sent xs ++ sent ys
  sent-append [] ys = refl
  sent-append (x ∷ xs) ys =
      ap (λ (b : List ℕ). wrote x ++ b) (sent-append xs ys)
      ∙ sym (append_assoc (wrote x) (sent xs) (sent ys))

  sent_none :
      (good : Call F → Type 0)
      → ((c : Call F) → good c → wrote c ≡ [])
      → (cs : List (Call F)) → AllCalls good cs
      → sent cs ≡ []
  sent_none good h [] q = refl
  sent_none good h (c ∷ cs) (qc, q) =
      ap (λ (b : List ℕ). b ++ sent cs) (h c qc) ∙ sent_none good h cs q

module _ {F : Type 0} (wrote : Call F → List ℕ) (keep : Session → Type 0) where
  -- A run that ends in a session with `keep`, writes nothing, and has a good value.
  pub record Silent {A : Type 0} (good : A → Type 0) (ran : Ran F A) : Type 0 where
    pub kept : keep ran.session
    pub nothing : sent wrote ran.calls ≡ []
    pub value : Meets good ran.result

  pub runs_Silent :
      {A : Type 0} (m : Action F A) (s : Session)
      → ((c : Call F) → NotCloud c → wrote c ≡ [])
      → Runs keep m keep NotCloud
      → keep s
      → Silent Any (m s)
  runs_Silent m s none_written h p =
      let (kept, made) = h s p in
      record {
        kept = kept;
        nothing = sent_none wrote NotCloud none_written (m s).calls made;
        value = any_Meets (m s).result;
      }

module _ {F : Type 0} (wrote : Call F → List ℕ) (keep later : Session → Type 0) where
  -- The rest may keep less.
  pub Silent-bind :
      {A B : Type 0} (goodA : A → Type 0) (goodB : B → Type 0) (session : Session)
      (calls : List (Call F)) (k : A → Action F B) (r : Result A)
      → ((s : Session) → keep s → later s)
      → Silent wrote keep goodA (record { result = r; session = session; calls = calls })
      → ((a : A) (s : Session) → goodA a → keep s → Silent wrote later goodB (k a s))
      → Silent wrote later goodB (continue session calls k r)
  Silent-bind goodA goodB session calls k (err e) weaker h next = record {
    kept = weaker session h.kept;
    nothing = h.nothing;
    value = tt;
  }
  Silent-bind goodA goodB session calls k (ok a) weaker h next =
      let after : Silent wrote later goodB (k a session) = next a session h.value h.kept in
      record {
        kept = after.kept;
        nothing =
            sent-append wrote calls (k a session).calls
            ∙ ap (λ (b : List ℕ). b ++ sent wrote (k a session).calls) h.nothing
            ∙ after.nothing;
        value = after.value;
      }
