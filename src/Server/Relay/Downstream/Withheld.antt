-- ===== src/Server/Relay/Downstream/Withheld.antt =====
-- Firmware transfers in `relay_upstream_to_client` of foxess_local_cloud/server.py, with a capture.
use mathlib.Core.Path.{subst}
use foxess_local_gateway.Prelude.{
  ℕ, ◌-◌, ◌≡◌, refl, sym, ◌∙◌, arith, List, [], ◌∷◌, ◌++◌, length, take, Bool, true, false, Option,
  none, some, Result, ok, err, if◌then◌else◌,
}
use foxess_local_gateway.Protocol.Frame.{Frame}
use foxess_local_gateway.Protocol.Extract.{Extracted, extract_frames}
use foxess_local_gateway.Firmware.Variant.{is_firmware_transfer_frame}
use foxess_local_gateway.Firmware.Capture
use foxess_local_gateway.Firmware.Capture.{FirmwareCapture, Effect}
use foxess_local_gateway.Firmware.Capture.Safety.{transfers_withheld}
use foxess_local_gateway.Server.Session.{Session, write_client}
use foxess_local_gateway.Server.Upstream.{handle_upstream_frame}
use foxess_local_gateway.Server.Control.{serial_or_empty}
use foxess_local_gateway.Server.Relay.{remove}
use foxess_local_gateway.Server.Relay.Accounts.{front_taken}
use foxess_local_gateway.Server.Relay.Silent.{to_inverter, sent, Silent, Silent-bind, Any, Meets}
use foxess_local_gateway.Server.Relay.Removal.{
  frames, whole_bytes, shown, passed_bytes, InPlace, frame_removed, opened, closed, Passed,
  forwarded_Passed,
}
use foxess_local_gateway.Server.Relay.Downstream.{
  heard, hear, acks, captured, capture_frame, return_frames, return_extracted, return_read,
}
use foxess_local_gateway.Server.Relay.Downstream.Returned.{frame_capture}

-- There is a firmware capture.
abbrev pub IsCapturing : Session → Type 0
IsCapturing s = (c : FirmwareCapture) × (s.firmware_capture ≡ some c)

module _ (F : Type 0) where
  heard-Silent :
      (s : Session) (r : Result Session)
      → IsCapturing s
      → Meets (λ (t : Session). t.firmware_capture ≡ s.firmware_capture) r
      → Silent to_inverter IsCapturing Any (heard {F = F} s r)
  heard-Silent s (ok t) (c, p) h = record { kept = (c, h ∙ p); nothing = refl; value = tt }
  heard-Silent s (err e) p h = record { kept = p; nothing = refl; value = tt }

  hear-Silent :
      (f : Frame) (s : Session)
      → IsCapturing s
      → Silent to_inverter IsCapturing Any (hear {F = F} f s)
  unfolding hear
  hear-Silent f s p = heard-Silent s (handle_upstream_frame f s) p (frame_capture f s)

  acks_nothing : (effects : List Effect) → sent to_inverter (acks {F = F} effects) ≡ []
  acks_nothing [] = refl
  acks_nothing (x ∷ xs) = ground (arith, acks_nothing xs)

  module _ (save : List ℕ → Bool) (simulate_progress idle : Bool)
      (path_name : List ℕ → List ℕ) where
    handled_is :
        (c : FirmwareCapture) (f : Frame) (serial : List ℕ) (r : Result Bool)
        → (Capture.handle_upstream_frame save simulate_progress idle path_name c f serial).handled
          ≡ r
        → Meets (λ (taken : Bool). taken ≡ is_firmware_transfer_frame f) r
    handled_is c f serial (err e) h = tt
    handled_is c f serial (ok false) h =
        sym ((transfers_withheld save simulate_progress idle path_name c f serial).0 h)
    handled_is c f serial (ok true) h =
        not_passed (is_firmware_transfer_frame f)
          ((transfers_withheld save simulate_progress idle path_name c f serial).1)
      where
        not_passed :
            (b : Bool)
            → (b ≡ false
                → (Capture.handle_upstream_frame save simulate_progress idle path_name c f
                    serial).handled
                  ≡ ok false)
            → true ≡ b
        not_passed true passes = refl
        not_passed false passes = absurd (ground (arith, h, passes refl))

    captured-Silent :
        (o : Option FirmwareCapture) (f : Frame) (s : Session)
        → IsCapturing s
        → o ≡ s.firmware_capture
        → Silent to_inverter IsCapturing
            (λ (taken : Bool). taken ≡ is_firmware_transfer_frame f)
            (captured {F = F} save simulate_progress idle path_name o f s)
    captured-Silent none f s (c, p) e = absurd (ground (arith, p, e))
    captured-Silent (some c) f s p e =
        let step =
          Capture.handle_upstream_frame save simulate_progress idle path_name c f
            (serial_or_empty s.serial) in
        record {
          kept = (step.capture, refl);
          nothing = acks_nothing step.effects;
          value = handled_is c f (serial_or_empty s.serial) step.handled refl;
        }

    capture_frame-Silent :
        (f : Frame) (s : Session)
        → IsCapturing s
        → Silent to_inverter IsCapturing
            (λ (taken : Bool). taken ≡ is_firmware_transfer_frame f)
            (capture_frame {F = F} save simulate_progress idle path_name f s)
    unfolding capture_frame
    capture_frame-Silent f s p = captured-Silent s.firmware_capture f s p refl

    return_frames-Silent :
        (kept tail : List ℕ) (ps : List (List ℕ × Frame)) (forward : List ℕ) (s : Session)
        → IsCapturing s
        → InPlace is_firmware_transfer_frame kept ps tail
        → forward ≡ kept ++ (whole_bytes ps ++ tail)
        → Silent to_inverter IsCapturing
            (λ (left : List ℕ). left ≡ kept ++ (passed_bytes is_firmware_transfer_frame ps ++ tail))
            (return_frames {F = F} save simulate_progress idle path_name (frames ps) forward s)
    unfolding return_frames
    return_frames-Silent kept tail [] forward s p places e = record {
      kept = p;
      nothing = refl;
      value = e;
    }
    return_frames-Silent kept tail ((other, f) ∷ ps) forward s p (place, places) e =
        let held : Bool = is_firmware_transfer_frame f in
        let Out : List ℕ → Type 0 = λ left.
          left ≡ kept ++ (passed_bytes is_firmware_transfer_frame ((other, f) ∷ ps) ++ tail) in
        let raw : List ℕ = shown held f.raw in
        Silent-bind to_inverter IsCapturing IsCapturing Any Out _ _ _ _ (λ t q. q)
          (hear-Silent f s p)
          (λ a s1 any p1.
            Silent-bind to_inverter IsCapturing IsCapturing (λ (taken : Bool). taken ≡ held) Out _ _
              _ _ (λ t q. q) (capture_frame-Silent f s1 p1)
              (λ b s2 taken p2.
                subst
                  (λ (x : Bool). Silent to_inverter IsCapturing Out (
                    return_frames {F = F} save simulate_progress idle path_name (frames ps)
                      (if x then remove f.raw forward else forward) s2))
                  (sym taken)
                  (subst
                    (λ (end : List ℕ).
                      Silent to_inverter IsCapturing (λ (left : List ℕ). left ≡ end)
                        (return_frames {F = F} save simulate_progress idle path_name (frames ps)
                          (if held then remove f.raw forward else forward) s2))
                    (closed kept other raw (passed_bytes is_firmware_transfer_frame ps) tail)
                    (return_frames-Silent (kept ++ (other ++ raw)) tail ps
                      (if held then remove f.raw forward else forward) s2 p2 places
                      (frame_removed held kept other f.raw (whole_bytes ps ++ tail) forward place
                        (e ∙ opened kept other f.raw (whole_bytes ps) tail))))))

    extracted-Passed :
        (snapshot tail rest : List ℕ) (ps : List (List ℕ × Frame)) (s : Session)
        → IsCapturing s
        → InPlace is_firmware_transfer_frame [] ps tail
        → snapshot ≡ (whole_bytes ps ++ tail) ++ rest
        → Passed
            (passed_bytes is_firmware_transfer_frame ps ++ tail)
            rest
            (sent to_inverter
              (return_extracted {F = F} save simulate_progress idle path_name snapshot
                (some (frames ps, rest))
                s).calls)
            (return_extracted {F = F} save simulate_progress idle path_name snapshot
              (some (frames ps, rest))
              s).result
    extracted-Passed snapshot tail rest ps s p places e =
        forwarded_Passed to_inverter IsCapturing write_client
          (passed_bytes is_firmware_transfer_frame ps ++ tail) rest _ _ _ (λ b. refl)
          (return_frames-Silent [] tail ps (take (length snapshot - length rest) snapshot) s p
            places (front_taken snapshot (whole_bytes ps ++ tail) rest e))

    -- With a firmware capture, for the frames `ps` that a read completes, each with the other bytes
    -- before it, and `tail` after the last: the inverter gets all these bytes but those of the frames
    -- of firmware transfers, and `rest` stays in the buffer; when handling a frame raises, it gets
    -- nothing of the read. The bytes of a transfer frame do not occur earlier among those that are
    -- passed on, of which `remove` would take the first.
    pub captured_transfers_withheld :
        (buffer bytes tail rest : List ℕ) (ps : List (List ℕ × Frame)) (s : Session)
        (c : FirmwareCapture)
        → extract_frames (buffer ++ bytes) ≡ some (frames ps, rest)
        → buffer ++ bytes ≡ (whole_bytes ps ++ tail) ++ rest
        → InPlace is_firmware_transfer_frame [] ps tail
        → s.firmware_capture ≡ some c
        → Passed
            (passed_bytes is_firmware_transfer_frame ps ++ tail)
            rest
            (sent to_inverter
              (return_read {F = F} save simulate_progress idle path_name buffer bytes s).calls)
            (return_read {F = F} save simulate_progress idle path_name buffer bytes s).result
    unfolding return_read
    captured_transfers_withheld buffer bytes tail rest ps s c found e places p =
        subst
          (λ (x : Extracted).
            Passed (passed_bytes is_firmware_transfer_frame ps ++ tail) rest
              (sent to_inverter
                (return_extracted {F = F} save simulate_progress idle path_name (buffer ++ bytes) x
                  s).calls)
              (return_extracted {F = F} save simulate_progress idle path_name (buffer ++ bytes) x
                s).result)
          (sym found) (extracted-Passed (buffer ++ bytes) tail rest ps s (c, p) places e)
