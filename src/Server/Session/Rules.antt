-- ===== src/Server/Session/Rules.antt =====
-- Rules for what an action of a session keeps, and for the calls it makes.
use foxess_local_gateway.Prelude.{
  ◌≡◌, refl, List, [], ◌∷◌, ◌++◌, Bool, true, false, Result, ok, err, if◌then◌else◌,
}
use foxess_local_gateway.Server.Session.{
  Session, Call, Action, pure, modify, call, lift, continue, ◌>>=◌,
}

module _ {F : Type 0} where
  -- `good` holds of every call.
  abbrev pub AllCalls : (Call F → Type 0) → List (Call F) → Type 0
  AllCalls good [] = Unit
  AllCalls good (c ∷ cs) = good c × AllCalls good cs

  pub AllCalls-append :
      (good : Call F → Type 0) (xs ys : List (Call F))
      → AllCalls good xs
      → AllCalls good ys
      → AllCalls good (xs ++ ys)
  AllCalls-append good [] ys h k = k
  AllCalls-append good (x ∷ xs) ys (hx, h) k = (hx, AllCalls-append good xs ys h k)

  -- From every state in `pre` the action ends in `post`, raising or not, and makes good calls only.
  abbrev pub Runs :
      {A : Type 0}
      → (Session → Type 0)
      → Action F A
      → (Session → Type 0)
      → (Call F → Type 0)
      → Type 0
  Runs pre m post good = (s : Session) → pre s → post (m s).session × AllCalls good (m s).calls

  continued :
      {A B : Type 0} (mid post : Session → Type 0) (good : Call F → Type 0) (f : A → Action F B)
      (session : Session) (calls : List (Call F)) (result : Result A)
      → ((s : Session) → mid s → post s)
      → ((a : A) → Runs mid (f a) post good)
      → mid session
      → AllCalls good calls
      → post (continue session calls f result).session
        × AllCalls good (continue session calls f result).calls
  continued mid post good f session calls (ok a) weaker k kept made =
      let (after, rest) = k a session kept in
      (after, AllCalls-append good calls (f a session).calls made rest)
  continued mid post good f session calls (err e) weaker k kept made = (weaker session kept, made)

  -- The rest starts where the first part ended; `post` must also hold where the first part raised.
  pub then_Runs :
      {A B : Type 0} (pre mid post : Session → Type 0) (good : Call F → Type 0) (m : Action F A)
      (f : A → Action F B)
      → Runs pre m mid good
      → ((s : Session) → mid s → post s)
      → ((a : A) → Runs mid (f a) post good)
      → Runs pre (m >>= f) post good
  then_Runs pre mid post good m f h weaker k s p =
      let (kept, made) = h s p in
      continued mid post good f (m s).session (m s).calls (m s).result weaker k kept made

  -- The same, where one predicate is kept throughout.
  pub both_Runs :
      {A B : Type 0} (keep : Session → Type 0) (good : Call F → Type 0) (m : Action F A)
      (f : A → Action F B)
      → Runs keep m keep good
      → ((a : A) → Runs keep (f a) keep good)
      → Runs keep (m >>= f) keep good
  both_Runs keep good m f h k = then_Runs keep keep keep good m f h (λ s p. p) k

  pub pure_Runs :
      {A : Type 0} (keep : Session → Type 0) (good : Call F → Type 0) (a : A)
      → Runs keep (pure a) keep good
  pure_Runs keep good a s p = (p, tt)

  pub lift_Runs :
      {A : Type 0} (keep : Session → Type 0) (good : Call F → Type 0) (r : Result A)
      → Runs keep (lift r) keep good
  lift_Runs keep good r s p = (p, tt)

  pub modify_Runs :
      (pre post : Session → Type 0) (good : Call F → Type 0) (f : Session → Session)
      → ((s : Session) → pre s → post (f s))
      → Runs pre (modify f) post good
  modify_Runs pre post good f h s p = (h s p, tt)

  pub call_Runs :
      (keep : Session → Type 0) (good : Call F → Type 0) (cs : List (Call F))
      → AllCalls good cs
      → Runs keep (call cs) keep good
  call_Runs keep good cs h s p = (p, h)

  -- Either branch, under its condition.
  pub if_Runs :
      {A : Type 0} (pre post : Session → Type 0) (good : Call F → Type 0) (b : Bool)
      (m k : Action F A)
      → (b ≡ true → Runs pre m post good)
      → (b ≡ false → Runs pre k post good)
      → Runs pre (if b then m else k) post good
  if_Runs pre post good true m k t f = t refl
  if_Runs pre post good false m k t f = f refl
