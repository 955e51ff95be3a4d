-- ===== src/Server/Handle/Lost.antt =====
-- The handler of the setpoint's commands, after a repeated registration in `Session.handle_frame` of
-- foxess_local_cloud/server.py.
use foxess_local_gateway.Prelude.{
  arith, ℕ, ◌≡◌, refl, ap, ◌∙◌, List, [], ◌∷◌, ◌++◌, drop, Bool, true, false, Option, none, some,
  Result, ok, err, ◌=b◌, =b-refl, if-split, if◌then◌else◌,
}
use foxess_local_gateway.Protocol.Frame.{Frame}
use foxess_local_gateway.Protocol.Bootstrap.{is_registration, registration_serial}
use foxess_local_gateway.Protocol.Modbus.{is_modbus_write_success_response}
use foxess_local_gateway.Server.Control.{known}
use foxess_local_gateway.Server.Session.{
  Session, Call, Action, continue, ◌>>◌, register_handler, unregister_handler,
}
use foxess_local_gateway.Server.Session.Rules.{AllCalls, AllCalls-append, Runs}
use foxess_local_gateway.Server.Handle.{
  resolve_own, cloud_write, claim, note_registration, handle_valid, handle_frame,
}
use foxess_local_gateway.Server.Handle.Commands.{
  Wired, resolve_own-Wired, cloud_write-Wired, note_registration-Wired, registration_rest,
  registration_rest-Wired, handle_frame-Wired,
}
use foxess_local_gateway.Server.Handle.Commands.Unwired.{NoHandler, Any}

module _ (F : Type 0) (serial : List ℕ) where
  -- Whether the publisher has a handler for the serial's commands, after a call.
  abbrev pub handler_after : Bool → Call F → Bool
  handler_after b (register_handler j) = if j =b serial then true else b
  handler_after b (unregister_handler j) = if j =b serial then false else b
  handler_after b c = b

  abbrev pub handler_left : Bool → List (Call F) → Bool
  handler_left b [] = b
  handler_left b (c ∷ cs) = handler_left (handler_after b c) cs

  handler_left-append :
      (b : Bool) (xs ys : List (Call F))
      → handler_left b (xs ++ ys) ≡ handler_left (handler_left b xs) ys
  handler_left-append b [] ys = refl
  handler_left-append b (x ∷ xs) ys = handler_left-append (handler_after b x) xs ys

  one_unhandled : (c : Call F) → NoHandler F c → handler_after false c ≡ false
  one_unhandled c h = ground arith

  still_unhandled : (cs : List (Call F)) → AllCalls (NoHandler F) cs → handler_left false cs ≡ false
  still_unhandled [] h = refl
  still_unhandled (c ∷ cs) (hc, h) =
      ap (λ (b : Bool). handler_left b cs) (one_unhandled c hc) ∙ still_unhandled cs h

  unhandled-append :
      (b : Bool) (xs ys : List (Call F))
      → handler_left b xs ≡ false
      → AllCalls (NoHandler F) ys
      → handler_left b (xs ++ ys) ≡ false
  unhandled-append b xs ys h k =
      handler_left-append b xs ys ∙ ap (λ (c : Bool). handler_left c ys) h ∙ still_unhandled ys k

  -- From a session that holds its handler to be registered, the action leaves none.
  abbrev Drops : Action F Bool → Type 0
  Drops m = (s : Session) → Wired F s → (b : Bool) → handler_left b (m s).calls ≡ false

  first_Drops :
      (m k : Action F Bool)
      → Drops m
      → Runs (Wired F) m (Wired F) (NoHandler F)
      → Runs (Wired F) k (Any F) (NoHandler F)
      → Drops (m >> k)
  first_Drops m k h kept rest s p b =
      ended (m s).session (m s).calls (m s).result (kept s p).0 (h s p b)
    where
      ended :
          (session : Session) (calls : List (Call F)) (r : Result Bool)
          → Wired F session
          → handler_left b calls ≡ false
          → handler_left b (continue session calls (λ a. k) r).calls ≡ false
      ended session calls (err e) q none_left = none_left
      ended session calls (ok a) q none_left =
          unhandled-append b calls (k session).calls none_left (rest session q).1

  -- What comes after an action that does not raise.
  later_Drops :
      (m k : Action F Bool)
      → ((s : Session) → (m s).result ≡ ok true)
      → Runs (Wired F) m (Wired F) (NoHandler F)
      → Drops k
      → Drops (m >> k)
  later_Drops m k fine kept h s p b =
      ended (m s).session (m s).calls (m s).result (fine s) (kept s p).0
    where
      ended :
          (session : Session) (calls : List (Call F)) (r : Result Bool)
          → r ≡ ok true
          → Wired F session
          → handler_left b (continue session calls (λ a. k) r).calls ≡ false
      ended session calls (err e) good q = absurd (ground arith)
      ended session calls (ok a) good q =
          handler_left-append b calls (k session).calls ∙ h session q (handler_left b calls)

  resolve_own-ok : (f : Frame) (s : Session) → (resolve_own {F = F} f s).result ≡ ok true
  unfolding resolve_own
  resolve_own-ok f s = refl

  cloud_write-ok :
      (address : ℕ) (f : Frame) (s : Session) → (cloud_write {F = F} address f s).result ≡ ok true
  unfolding cloud_write
  cloud_write-ok address f s =
      if-split (λ (m : Action F Bool). (m s).result ≡ ok true) (is_modbus_write_success_response f)
        (λ e. refl) (λ e. refl)

  claim-Drops : (o : Option (List ℕ)) → o ≡ some serial → Drops (claim o)
  claim-Drops none named s p b = absurd (ground arith)
  claim-Drops (some c) named s p b = ground (arith, named, =b-refl serial)

  note_registration-Drops :
      (again : Frame)
      → is_registration again ≡ true
      → known (registration_serial again) ≡ some serial
      → Drops (note_registration again)
  unfolding note_registration
  note_registration-Drops again registers named s p b =
      if-split (λ (m : Action F Bool). handler_left b (m s).calls ≡ false) (is_registration again)
        (λ e.
          claim-Drops (known (registration_serial again)) named
            (record s {
              serial = registration_serial again;
              client_device_tail = drop 1 again.device;
              last_client_func = again.func;
            })
            p b)
        (λ e. absurd (ground (arith, e, registers)))

  module _ (scaled : ℕ → ℕ → ℕ → F) (is_nonzero : F → Bool) (address now : ℕ)
      (send_bootstrap : Bool) where
    handle_frame-Drops :
        (again : Frame)
        → again.valid_crc ≡ true
        → is_registration again ≡ true
        → known (registration_serial again) ≡ some serial
        → Drops (handle_frame scaled is_nonzero address now send_bootstrap again)
    unfolding handle_frame handle_valid
    handle_frame-Drops again valid registers named s p b =
        if-split (λ (m : Action F Bool). handler_left b (m s).calls ≡ false) again.valid_crc
          (λ e.
            later_Drops (resolve_own again)
              (cloud_write address again
                >> (note_registration again
                    >> registration_rest F again scaled is_nonzero address now send_bootstrap))
              (resolve_own-ok again) (resolve_own-Wired F again)
              (later_Drops (cloud_write address again)
                (note_registration again
                  >> registration_rest F again scaled is_nonzero address now send_bootstrap)
                (cloud_write-ok address again) (cloud_write-Wired F again address)
                (first_Drops (note_registration again)
                  (registration_rest F again scaled is_nonzero address now send_bootstrap)
                  (note_registration-Drops again registers named) (note_registration-Wired F again)
                  (registration_rest-Wired F again scaled is_nonzero address now send_bootstrap)))
              s p b)
          (λ e. absurd (ground (arith, e, valid)))

module _ (F : Type 0) (scaled : ℕ → ℕ → ℕ → F) (is_nonzero : F → Bool) (address : ℕ)
    (send_bootstrap : Bool) where
  -- The calls that frames make the session make, with the time of each frame.
  abbrev pub all_calls : List (Frame × ℕ) → Session → List (Call F)
  all_calls [] s = []
  all_calls ((f, now) ∷ fs) s =
      let ran = handle_frame scaled is_nonzero address now send_bootstrap f s in
      ran.calls ++ all_calls fs ran.session

  -- The session holds its handler to be registered whenever one of the frames comes.
  abbrev pub StaysWired : List (Frame × ℕ) → Session → Type 0
  StaysWired [] s = Unit
  StaysWired ((f, now) ∷ fs) s =
      (s.command_registered ≡ true)
      × StaysWired fs (handle_frame scaled is_nonzero address now send_bootstrap f s).session

  later_frames :
      (fs : List (Frame × ℕ)) (s : Session)
      → StaysWired fs s
      → AllCalls (NoHandler F) (all_calls fs s)
  later_frames [] s h = tt
  later_frames ((f, now) ∷ fs) s (wired, h) =
      let ran = handle_frame scaled is_nonzero address now send_bootstrap f s in
      AllCalls-append (NoHandler F) ran.calls (all_calls fs ran.session)
        (handle_frame-Wired F f scaled is_nonzero address now send_bootstrap s wired).1
        (later_frames fs ran.session h)

  -- When a registration frame with a serial comes in a session that holds its command handler to be
  -- registered, its calls leave the publisher without a handler for the serial's commands, after it and
  -- after any frames that follow for as long as the session holds the handler to be registered; and none
  -- of these later frames makes the publisher register a handler or announce the entities.
  pub repeated_registration_loses_handler :
      (serial : List ℕ) (again : Frame) (now : ℕ) (later : List (Frame × ℕ)) (s : Session)
      (handler : Bool)
      → again.valid_crc ≡ true
      → is_registration again ≡ true
      → known (registration_serial again) ≡ some serial
      → s.command_registered ≡ true
      → StaysWired later (handle_frame scaled is_nonzero address now send_bootstrap again s).session
      → (handler_left F serial handler (all_calls ((again, now) ∷ later) s) ≡ false)
        × AllCalls (NoHandler F) (
            all_calls later
              (handle_frame scaled is_nonzero address now send_bootstrap again s).session)
  repeated_registration_loses_handler serial again now later s handler valid registers named wired
        stays =
      let ran = handle_frame scaled is_nonzero address now send_bootstrap again s in
      let quiet : AllCalls (NoHandler F) (all_calls later ran.session) =
        later_frames later ran.session stays in
      (
        unhandled-append F serial handler ran.calls (all_calls later ran.session)
            (handle_frame-Drops F serial scaled is_nonzero address now send_bootstrap again valid
              registers named s wired handler)
            quiet,
        quiet,
      )
