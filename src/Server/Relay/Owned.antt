-- ===== src/Server/Relay/Owned.antt =====
-- Answers to requests of the gateway's own, in `relay_client_to_upstream` of foxess_local_cloud/server.py.
use mathlib.Core.Path.{subst}
use foxess_local_gateway.Prelude.{
  ℕ, ◌-◌, ◌≡◌, refl, sym, ◌∙◌, arith, List, [], ◌∷◌, ◌++◌, length, take, Bool, false, ◌||◌, Option,
  none, some, if◌then◌else◌,
}
use foxess_local_gateway.LocalControl.{LocalControl, is_our_frame, resolve_response}
use foxess_local_gateway.Protocol.Frame.{Frame}
use foxess_local_gateway.Protocol.Extract.{extract_frames, Extracted}
use foxess_local_gateway.Server.Session.{write_upstream, Session}
use foxess_local_gateway.Server.Handle.{handle_frame, resolved}
use foxess_local_gateway.Server.Relay.{
  ours, handle_firmware_upload_frame, remove, relay_frames, relay_extracted, relay_read,
}
use foxess_local_gateway.Server.Relay.Accounts.{front_taken}
use foxess_local_gateway.Server.Relay.Keeping.{handle_frame-Passes}
use foxess_local_gateway.Server.Relay.Removal.{
  frames, whole_bytes, shown, passed_bytes, InPlace, frame_removed, opened, closed, Passed,
  forwarded_Passed,
}
use foxess_local_gateway.Server.Relay.Silent.{
  to_cloud, to_cloud_none, sent, Any, Silent, Silent-bind, runs_Silent,
}
use foxess_local_gateway.Server.Relay.Transparent.{IsIdle, uploaded-IsIdle}

ours-resolved : (g f : Frame) (c : Option LocalControl) → ours (resolved g c) f ≡ ours c f
unfolding is_our_frame resolve_response
ours-resolved g f none = refl
ours-resolved g f (some c) = ground arith

module _ (F : Type 0) (scaled : ℕ → ℕ → ℕ → F) (is_nonzero : F → Bool) (address now : ℕ)
    (held : Frame → Bool) where
  -- The gateway's own requests stay the same, and no upload is under way.
  abbrev Held : Session → Type 0
  Held s = ((g : Frame) → ours s.local_control g ≡ held g) × IsIdle s.firmware_uploader

  upload-Silent :
      (f : Frame) (s : Session)
      → Held s
      → Silent to_cloud Held
          (λ (owned : Bool). owned ≡ false)
          (handle_firmware_upload_frame {F = F} f s)
  unfolding handle_firmware_upload_frame
  upload-Silent f s (same, idle) =
      let (still, unowned) = uploaded-IsIdle F f s.firmware_uploader idle in
      record { kept = (same, still); nothing = refl; value = unowned }

  handle_frame-Silent :
      (f : Frame) (s : Session)
      → Held s
      → Silent to_cloud Held Any (handle_frame scaled is_nonzero address now false f s)
  handle_frame-Silent f s p =
      runs_Silent to_cloud Held (handle_frame scaled is_nonzero address now false f) s to_cloud_none
        (handle_frame-Passes F (λ c u. ((g : Frame) → ours c g ≡ held g) × IsIdle u)
          (λ t q. (q.0, refl)) (λ g t q. (λ h. ours-resolved g h t.local_control ∙ q.0 h, q.1)) f
          scaled is_nonzero address now false)
        p

  owned_is : (a b h : Bool) → a ≡ h → b ≡ false → (a || b) ≡ h
  owned_is a b h e d = ground arith

  relay_frames-Silent :
      (kept tail : List ℕ) (ps : List (List ℕ × Frame)) (forward : List ℕ) (s : Session)
      → Held s
      → InPlace held kept ps tail
      → forward ≡ kept ++ (whole_bytes ps ++ tail)
      → Silent to_cloud Held
          (λ (left : List ℕ). left ≡ kept ++ (passed_bytes held ps ++ tail))
          (relay_frames scaled is_nonzero address now (frames ps) forward s)
  unfolding relay_frames
  relay_frames-Silent kept tail [] forward s p places e = record {
    kept = p;
    nothing = refl;
    value = e;
  }
  relay_frames-Silent kept tail ((other, f) ∷ ps) forward s p (place, places) e =
      let Out : List ℕ → Type 0 =
        λ left. left ≡ kept ++ (passed_bytes held ((other, f) ∷ ps) ++ tail) in
      let raw : List ℕ = shown (held f) f.raw in
      Silent-bind to_cloud Held Held (λ (owned : Bool). owned ≡ false) Out _ _ _ _ (λ t q. q)
        (upload-Silent f s p)
        (λ a s1 unowned p1.
          Silent-bind to_cloud Held Held Any Out _ _ _ _ (λ t q. q) (handle_frame-Silent f s1 p1)
            (λ b s2 any p2.
              subst
                (λ (o : Bool). Silent to_cloud Held Out (
                  relay_frames scaled is_nonzero address now (frames ps)
                    (if o then remove f.raw forward else forward) s2))
                (sym (owned_is (ours s2.local_control f) a (held f) (p2.0 f) unowned))
                (subst
                  (λ (end : List ℕ).
                    Silent to_cloud Held (λ (left : List ℕ). left ≡ end)
                      (relay_frames scaled is_nonzero address now (frames ps)
                        (if held f then remove f.raw forward else forward) s2))
                  (closed kept other raw (passed_bytes held ps) tail)
                  (relay_frames-Silent (kept ++ (other ++ raw)) tail ps
                    (if held f then remove f.raw forward else forward) s2 p2 places
                    (frame_removed (held f) kept other f.raw (whole_bytes ps ++ tail) forward place
                      (e ∙ opened kept other f.raw (whole_bytes ps) tail))))))

  extracted-Passed :
      (snapshot tail rest : List ℕ) (ps : List (List ℕ × Frame)) (s : Session)
      → Held s
      → InPlace held [] ps tail
      → snapshot ≡ (whole_bytes ps ++ tail) ++ rest
      → Passed
          (passed_bytes held ps ++ tail)
          rest
          (sent to_cloud
            (relay_extracted scaled is_nonzero address now snapshot
              (some (frames ps, rest))
              s).calls)
          (relay_extracted scaled is_nonzero address now snapshot (some (frames ps, rest)) s).result
  extracted-Passed snapshot tail rest ps s p places e =
      forwarded_Passed to_cloud Held write_upstream (passed_bytes held ps ++ tail) rest _ _ _
        (λ b. refl)
        (relay_frames-Silent [] tail ps (take (length snapshot - length rest) snapshot) s p places
          (front_taken snapshot (whole_bytes ps ++ tail) rest e))

module _ (F : Type 0) (scaled : ℕ → ℕ → ℕ → F) (is_nonzero : F → Bool) (address now : ℕ) where
  -- For the frames `ps` that a read completes, each with the other bytes before it, and `tail` after
  -- the last: the cloud gets all these bytes but those of the frames with the device field of a request
  -- that the gateway has injected, and `rest` stays in the buffer; when handling a frame raises, it
  -- gets nothing of the read. No firmware upload is under way, and the bytes of a frame that is held
  -- back do not occur earlier among those that are passed on, of which `remove` would take the first.
  pub own_answers_withheld :
      (buffer bytes tail rest : List ℕ) (ps : List (List ℕ × Frame)) (s : Session)
      → extract_frames (buffer ++ bytes) ≡ some (frames ps, rest)
      → buffer ++ bytes ≡ (whole_bytes ps ++ tail) ++ rest
      → InPlace (ours s.local_control) [] ps tail
      → IsIdle s.firmware_uploader
      → Passed
          (passed_bytes (ours s.local_control) ps ++ tail)
          rest
          (sent to_cloud (relay_read scaled is_nonzero address now buffer bytes s).calls)
          (relay_read scaled is_nonzero address now buffer bytes s).result
  unfolding relay_read
  own_answers_withheld buffer bytes tail rest ps s found e places idle =
      subst
        (λ (x : Extracted).
          Passed (passed_bytes (ours s.local_control) ps ++ tail) rest
            (sent to_cloud
              (relay_extracted scaled is_nonzero address now (buffer ++ bytes) x s).calls)
            (relay_extracted scaled is_nonzero address now (buffer ++ bytes) x s).result)
        (sym found)
        (extracted-Passed F scaled is_nonzero address now (ours s.local_control) (buffer ++ bytes)
          tail rest ps s (λ g. refl, idle) places e)
