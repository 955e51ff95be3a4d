-- ===== src/Server/Relay/Downstream/Returned.antt =====
-- What the inverter gets from `relay_upstream_to_client` of foxess_local_cloud/server.py.
use mathlib.Core.Path.{subst}
use foxess_local_gateway.Prelude.{
  ℕ, ◌-◌, ◌≡◌, refl, sym, ◌∙◌, arith, List, [], ◌∷◌, ◌++◌, append_assoc, append-nil, length, take,
  Bool, false, Option, none, some, Result, ok, err, if◌then◌else◌, if-split,
}
use foxess_local_gateway.Protocol.Frame.{Frame}
use foxess_local_gateway.Protocol.Modbus.{Pdu, is_modbus_command, parse_modbus_command}
use foxess_local_gateway.Protocol.Extract.{Extracted, extract_frames}
use foxess_local_gateway.Firmware.Capture.{FirmwareCapture}
use foxess_local_gateway.Server.Session.{Session, write_client}
use foxess_local_gateway.Server.Upstream.{
  note_request, note_marker, handle_pdu, handle_upstream_frame,
}
use foxess_local_gateway.Server.Relay.{remove}
use foxess_local_gateway.Server.Relay.Silent.{to_inverter, sent, Silent, Silent-bind, Any, Meets}
use foxess_local_gateway.Server.Relay.Accounts.{Splits, Accounts, extracted-Accounts, resumed}
use foxess_local_gateway.Server.Relay.Downstream.{
  heard, hear, captured, capture_frame, return_frames, return_extracted, return_read,
  relay_upstream_to_client,
}

-- What the cloud sent before the end of its stream.
abbrev pub joined_reads : List (List ℕ) → List ℕ
joined_reads [] = []
joined_reads ([] ∷ reads) = []
joined_reads ((b ∷ bs) ∷ reads) = (b ∷ bs) ++ joined_reads reads

-- There is no firmware capture.
abbrev pub IsOpen : Session → Type 0
IsOpen s = s.firmware_capture ≡ none

request_capture :
    (f : Frame) (pdu : Pdu) (s : Session)
    → (note_request f pdu s).firmware_capture ≡ s.firmware_capture
unfolding note_request
request_capture f pdu s = ground arith

pdu_capture :
    (f : Frame) (o : Option Pdu) (s : Session)
    → Meets (λ (t : Session). t.firmware_capture ≡ s.firmware_capture) (handle_pdu f o s)
unfolding handle_pdu note_marker
pdu_capture f none s = tt
pdu_capture f (some pdu) s = request_capture f pdu s

pub frame_capture :
    (f : Frame) (s : Session)
    → Meets (λ (t : Session). t.firmware_capture ≡ s.firmware_capture) (handle_upstream_frame f s)
unfolding handle_upstream_frame
frame_capture f s =
    if-split (Meets (λ (t : Session). t.firmware_capture ≡ s.firmware_capture))
      (is_modbus_command f) (λ e. pdu_capture f (parse_modbus_command f) s) (λ e. refl)

module _ (F : Type 0) where
  heard-Silent :
      (s : Session) (r : Result Session)
      → IsOpen s
      → Meets (λ (t : Session). t.firmware_capture ≡ s.firmware_capture) r
      → Silent to_inverter IsOpen Any (heard {F = F} s r)
  heard-Silent s (ok t) p h = record { kept = h ∙ p; nothing = refl; value = tt }
  heard-Silent s (err e) p h = record { kept = p; nothing = refl; value = tt }

  hear-Silent :
      (f : Frame) (s : Session) → IsOpen s → Silent to_inverter IsOpen Any (hear {F = F} f s)
  unfolding hear
  hear-Silent f s p = heard-Silent s (handle_upstream_frame f s) p (frame_capture f s)

  abbrev Untaken : Bool → Type 0
  Untaken b = b ≡ false

  module _ (save : List ℕ → Bool) (simulate_progress idle : Bool)
      (path_name : List ℕ → List ℕ) where
    captured-Silent :
        (o : Option FirmwareCapture) (f : Frame) (s : Session)
        → o ≡ none
        → IsOpen s
        → Silent to_inverter IsOpen Untaken
            (captured {F = F} save simulate_progress idle path_name o f s)
    captured-Silent none f s e p = record { kept = p; nothing = refl; value = refl }
    captured-Silent (some c) f s e p = absurd (ground arith)

    capture_frame-Silent :
        (f : Frame) (s : Session)
        → IsOpen s
        → Silent to_inverter IsOpen Untaken
            (capture_frame {F = F} save simulate_progress idle path_name f s)
    unfolding capture_frame
    capture_frame-Silent f s p = captured-Silent s.firmware_capture f s p p

    -- Every byte stays for the inverter.
    return_frames-Silent :
        (fs : List Frame) (forward : List ℕ) (s : Session)
        → IsOpen s
        → Silent to_inverter IsOpen
            (λ (left : List ℕ). left ≡ forward)
            (return_frames {F = F} save simulate_progress idle path_name fs forward s)
    unfolding return_frames
    return_frames-Silent [] forward s p = record { kept = p; nothing = refl; value = refl }
    return_frames-Silent (f ∷ fs) forward s p =
        Silent-bind to_inverter IsOpen IsOpen Any (λ (left : List ℕ). left ≡ forward) _ _ _ _
          (λ t q. q) (hear-Silent f s p)
          (λ a s1 any p1.
            Silent-bind to_inverter IsOpen IsOpen Untaken (λ (left : List ℕ). left ≡ forward) _ _ _
              _ (λ t q. q) (capture_frame-Silent f s1 p1)
              (λ b s2 untaken p2.
                subst
                  (λ (taken : Bool).
                    Silent to_inverter IsOpen (λ (left : List ℕ). left ≡ forward)
                      (return_frames {F = F} save simulate_progress idle path_name fs
                        (if taken then remove f.raw forward else forward) s2))
                  (sym untaken) (return_frames-Silent fs forward s2 p2)))

    return_extracted-Accounts :
        (snapshot : List ℕ) (e : Extracted) (s : Session)
        → extract_frames snapshot ≡ e
        → IsOpen s
        → Accounts to_inverter IsOpen snapshot
            (return_extracted {F = F} save simulate_progress idle path_name snapshot e s)
    return_extracted-Accounts snapshot none s h p = record { passive = p; splits = refl }
    return_extracted-Accounts snapshot (some (fs, rest)) s h p =
        extracted-Accounts to_inverter IsOpen write_client snapshot fs rest
          (return_frames save simulate_progress idle path_name fs
            (take (length snapshot - length rest) snapshot))
          s (λ b. refl) h
          (return_frames-Silent fs (take (length snapshot - length rest) snapshot) s p)

    return_read-Accounts :
        (buffer bytes : List ℕ) (s : Session)
        → IsOpen s
        → Accounts to_inverter IsOpen
            (buffer ++ bytes)
            (return_read {F = F} save simulate_progress idle path_name buffer bytes s)
    unfolding return_read
    return_read-Accounts buffer bytes s p =
        return_extracted-Accounts (buffer ++ bytes) (extract_frames (buffer ++ bytes)) s refl p

    relay-Accounts :
        (buffer : List ℕ) (reads : List (List ℕ)) (s : Session)
        → IsOpen s
        → Accounts to_inverter IsOpen
            (buffer ++ joined_reads reads)
            (relay_upstream_to_client {F = F} save simulate_progress idle path_name buffer reads s)
    unfolding relay_upstream_to_client
    relay-Accounts buffer [] s p = record { passive = p; splits = sym (append-nil buffer) }
    relay-Accounts buffer ([] ∷ reads) s p = record {
      passive = p;
      splits = sym (append-nil buffer);
    }
    relay-Accounts buffer ((b ∷ bs) ∷ reads) s p =
        subst
          (λ (x : List ℕ). Accounts to_inverter IsOpen x (
            relay_upstream_to_client {F = F} save simulate_progress idle path_name buffer
              ((b ∷ bs) ∷ reads) s))
          (append_assoc buffer (b ∷ bs) (joined_reads reads))
          (resumed to_inverter IsOpen (buffer ++ (b ∷ bs)) (joined_reads reads) _ _ _ _
            (return_read-Accounts buffer (b ∷ bs) s p) (λ rest t q. relay-Accounts rest reads t q))

    -- Without a firmware capture, the inverter is sent exactly the bytes of the cloud, in order, through
    -- any sequence of reads: what was written to it, and then the buffer's rest, is the old buffer and
    -- the bytes read up to the end of the stream. When a read raises, what was written is a front of
    -- that stream.
    pub downstream_transparent :
        (buffer : List ℕ) (reads : List (List ℕ)) (s : Session)
        → s.firmware_capture ≡ none
        → Splits
            (buffer ++ joined_reads reads)
            (sent to_inverter
              (relay_upstream_to_client {F = F} save simulate_progress idle path_name buffer reads
                s).calls)
            (relay_upstream_to_client {F = F} save simulate_progress idle path_name buffer reads
              s).result
    downstream_transparent buffer reads s p =
        let all : Accounts to_inverter IsOpen (buffer ++ joined_reads reads) (
            relay_upstream_to_client {F = F} save simulate_progress idle path_name buffer reads s) =
          relay-Accounts buffer reads s p in
        all.splits
