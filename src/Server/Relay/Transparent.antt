-- ===== src/Server/Relay/Transparent.antt =====
-- What the cloud gets from `relay_client_to_upstream` of foxess_local_cloud/server.py when the gateway
-- injects nothing.
use mathlib.Core.Path.{subst}
use foxess_local_gateway.Prelude.{
  ℕ, ◌-◌, ◌≡◌, refl, ap, sym, arith, List, [], ◌∷◌, ◌++◌, append_assoc, append-nil, length, take,
  Bool, false, ◌||◌, Option, none, some, if◌then◌else◌,
}
use foxess_local_gateway.LocalControl.{LocalControl}
use foxess_local_gateway.Protocol.Frame.{Frame}
use foxess_local_gateway.Protocol.Extract.{Extracted, extract_frames}
use foxess_local_gateway.Firmware.Variant.{FirmwareVariant}
use foxess_local_gateway.Firmware.Upload.{FirmwareUploader, handle_client_frame, take_found}
use foxess_local_gateway.Server.Session.{Session, write_upstream}
use foxess_local_gateway.Server.Handle.{handle_frame, resolved}
use foxess_local_gateway.Server.Relay.{
  uploaded, ours, handle_firmware_upload_frame, remove, relay_frames, relay_extracted, relay_read,
  relay_client_to_upstream,
}
use foxess_local_gateway.Server.Relay.Keeping.{handle_frame-Passes}
use foxess_local_gateway.Server.Relay.Silent.{
  to_cloud, to_cloud_none, sent, Silent, Silent-bind, runs_Silent, Any,
}
use foxess_local_gateway.Server.Relay.Accounts.{
  received, Splits, Accounts, extracted-Accounts, resumed,
}

-- No upload is under way.
abbrev pub IsIdle : Option FirmwareUploader → Type 0
IsIdle none = Unit
IsIdle (some u) = u.active ≡ false

-- The gateway asks the inverter for nothing of its own.
abbrev pub IsPassive : Session → Type 0
IsPassive s = (s.local_control ≡ none) × IsIdle s.firmware_uploader

idle_not_taken :
    (f : Frame) (u : FirmwareUploader) → u.active ≡ false → handle_client_frame f u ≡ (u, false)
unfolding handle_client_frame
idle_not_taken f u idle = found u.variant
  where
    found : (v : Option FirmwareVariant) → take_found f u v ≡ (u, false)
    found v = ground (arith, idle)

module _ (F : Type 0) where
  abbrev Unowned : Bool → Type 0
  Unowned b = b ≡ false

  pub uploaded-IsIdle :
      (f : Frame) (o : Option FirmwareUploader)
      → IsIdle o
      → IsIdle (uploaded f o).0 × ((uploaded f o).1 ≡ false)
  uploaded-IsIdle f none h = (tt, refl)
  uploaded-IsIdle f (some u) h =
      subst (λ (x : FirmwareUploader × Bool). (x.0.active ≡ false) × (x.1 ≡ false))
        (sym (idle_not_taken f u h)) (h, refl)

  upload-Silent :
      (f : Frame) (s : Session)
      → IsPassive s
      → Silent to_cloud IsPassive Unowned (handle_firmware_upload_frame {F = F} f s)
  unfolding handle_firmware_upload_frame
  upload-Silent f s (c, idle) = record {
    kept = (c, (uploaded-IsIdle f s.firmware_uploader idle).0);
    nothing = refl;
    value = (uploaded-IsIdle f s.firmware_uploader idle).1;
  }

  not_ours : (o : Option LocalControl) (f : Frame) → o ≡ none → ours o f ≡ false
  not_ours none f h = refl
  not_ours (some c) f h = absurd (ground arith)

  module _ (scaled : ℕ → ℕ → ℕ → F) (is_nonzero : F → Bool) (address : ℕ) where
    handle_frame-Silent :
        (now : ℕ) (f : Frame) (s : Session)
        → IsPassive s
        → Silent to_cloud IsPassive Any (handle_frame scaled is_nonzero address now false f s)
    handle_frame-Silent now f s p =
        runs_Silent to_cloud IsPassive (handle_frame scaled is_nonzero address now false f) s
          to_cloud_none
          (handle_frame-Passes F (λ c u. (c ≡ none) × IsIdle u) (λ t q. (q.0, refl))
            (λ g t q. (ap (resolved g) q.0, q.1)) f scaled is_nonzero address now false)
          p

    -- Every byte stays for the cloud.
    relay_frames-Silent :
        (now : ℕ) (fs : List Frame) (forward : List ℕ) (s : Session)
        → IsPassive s
        → Silent to_cloud IsPassive
            (λ (left : List ℕ). left ≡ forward)
            (relay_frames scaled is_nonzero address now fs forward s)
    unfolding relay_frames
    relay_frames-Silent now [] forward s p = record { kept = p; nothing = refl; value = refl }
    relay_frames-Silent now (f ∷ fs) forward s p =
        Silent-bind to_cloud IsPassive IsPassive Unowned (λ (left : List ℕ). left ≡ forward) _ _ _ _
          (λ t q. q) (upload-Silent f s p)
          (λ a s1 unowned p1.
            Silent-bind to_cloud IsPassive IsPassive Any (λ (left : List ℕ). left ≡ forward) _ _ _ _
              (λ t q. q) (handle_frame-Silent now f s1 p1)
              (λ b s2 any p2.
                let kept : (ours s2.local_control f || a) ≡ false =
                  ground (arith, not_ours s2.local_control f p2.0, unowned) in
                subst
                  (λ (owned : Bool).
                    Silent to_cloud IsPassive (λ (left : List ℕ). left ≡ forward)
                      (relay_frames scaled is_nonzero address now fs
                        (if owned then remove f.raw forward else forward) s2))
                  (sym kept) (relay_frames-Silent now fs forward s2 p2)))

    relay_extracted-Accounts :
        (now : ℕ) (snapshot : List ℕ) (e : Extracted) (s : Session)
        → extract_frames snapshot ≡ e
        → IsPassive s
        → Accounts to_cloud IsPassive snapshot
            (relay_extracted scaled is_nonzero address now snapshot e s)
    relay_extracted-Accounts now snapshot none s h p = record { passive = p; splits = refl }
    relay_extracted-Accounts now snapshot (some (fs, rest)) s h p =
        extracted-Accounts to_cloud IsPassive write_upstream snapshot fs rest
          (relay_frames scaled is_nonzero address now fs
            (take (length snapshot - length rest) snapshot))
          s (λ b. refl) h
          (relay_frames-Silent now fs (take (length snapshot - length rest) snapshot) s p)

    relay_read-Accounts :
        (now : ℕ) (buffer bytes : List ℕ) (s : Session)
        → IsPassive s
        → Accounts to_cloud IsPassive
            (buffer ++ bytes)
            (relay_read scaled is_nonzero address now buffer bytes s)
    unfolding relay_read
    relay_read-Accounts now buffer bytes s p =
        relay_extracted-Accounts now (buffer ++ bytes) (extract_frames (buffer ++ bytes)) s refl p

    relay-Accounts :
        (buffer : List ℕ) (reads : List (List ℕ × ℕ)) (s : Session)
        → IsPassive s
        → Accounts to_cloud IsPassive
            (buffer ++ received reads)
            (relay_client_to_upstream scaled is_nonzero address buffer reads s)
    unfolding relay_client_to_upstream
    relay-Accounts buffer [] s p = record { passive = p; splits = sym (append-nil buffer) }
    relay-Accounts buffer (([], now) ∷ reads) s p = record {
      passive = p;
      splits = sym (append-nil buffer);
    }
    relay-Accounts buffer ((b ∷ bs, now) ∷ reads) s p =
        subst
          (λ (x : List ℕ).
            Accounts to_cloud IsPassive x
              (relay_client_to_upstream scaled is_nonzero address buffer ((b ∷ bs, now) ∷ reads) s))
          (append_assoc buffer (b ∷ bs) (received reads))
          (resumed to_cloud IsPassive (buffer ++ (b ∷ bs)) (received reads) _ _ _ _
            (relay_read-Accounts now buffer (b ∷ bs) s p)
            (λ rest t q. relay-Accounts rest reads t q))

    -- While the gateway has no local control and no upload is under way, the cloud is sent exactly the
    -- bytes of the inverter, in order, through any sequence of reads: what was written to it, and
    -- then the buffer's rest, is the old buffer and the bytes read up to the end of the stream. When a
    -- read raises, what was written is a front of that stream. The session stays without an upload.
    pub relay_transparent :
        (buffer : List ℕ) (reads : List (List ℕ × ℕ)) (s : Session)
        → IsPassive s
        → Splits
            (buffer ++ received reads)
            (sent to_cloud
              (relay_client_to_upstream scaled is_nonzero address buffer reads s).calls)
            (relay_client_to_upstream scaled is_nonzero address buffer reads s).result
          × IsPassive (relay_client_to_upstream scaled is_nonzero address buffer reads s).session
    relay_transparent buffer reads s p =
        let all : Accounts to_cloud IsPassive (buffer ++ received reads)
            (relay_client_to_upstream scaled is_nonzero address buffer reads s) =
          relay-Accounts buffer reads s p in
        (all.splits, all.passive)
