-- ===== src/Firmware/Capture/Safety.antt =====
-- What `FirmwareCapture.handle_upstream_frame` of foxess_local_cloud/firmware.py lets through, and what
-- it saves.
use mathlib.Core.Path.{subst}
use foxess_local_gateway.Prelude.{
  if-split, ℕ, ◌≡◌, refl, sym, ◌+◌, ◌≢◌, ◌↔◌, arith, List, [], ◌∷◌, ◌++◌, length, drop, Bool, true,
  false, not, ◌&&◌, ◌||◌, Option, none, some, Result, ok, err, ltb, ◌==◌, ◌=b◌, =b→eq,
}
use foxess_local_gateway.Bytes.{slice, from_bytes}
use foxess_local_gateway.Protocol.Crc.{crc16_le}
use foxess_local_gateway.Protocol.Frame.{Frame}
use foxess_local_gateway.Firmware.Variant.{
  FirmwareVariant, crc_field, is_found, firmware_variant_for_frame, is_firmware_transfer_frame,
}
use foxess_local_gateway.Firmware.Metadata.{FirmwareMetadata, parse_firmware_metadata}
use foxess_local_gateway.Firmware.Capture.{
  FirmwareCapture, serial_mismatch, crc_mismatch, save_failed, image_too_large,
  chunk_without_metadata, protocol_changed, invalid_frame_crc, ack_next, on_frame, finished,
  same_variant, Step, Failure, Effect, complete, failed, started, chunk_error, ack, start_progress,
  acknowledge, refuse, ack_frame, on_metadata, on_image, on_appended, on_chunk, on_data,
  on_transfer, handle_upstream_frame,
}

-- The call did not say that the frame may pass.
abbrev pub Taken : Step → Type 0
Taken s = s.handled ≢ ok false

-- `good` holds of every image that the effects report complete.
abbrev pub EveryComplete : (FirmwareMetadata → List ℕ → Type 0) → List Effect → Type 0
EveryComplete good [] = Unit
EveryComplete good (complete m image ∷ es) = good m image × EveryComplete good es
EveryComplete good (failed f ∷ es) = EveryComplete good es
EveryComplete good (started m ∷ es) = EveryComplete good es
EveryComplete good (chunk_error n k ∷ es) = EveryComplete good es
EveryComplete good (ack raw ∷ es) = EveryComplete good es
EveryComplete good (start_progress ∷ es) = EveryComplete good es

-- What is known of an image reported complete after `frame`, of variant `v`, came in state `c`.
abbrev pub Verified :
    (List ℕ → Bool) → FirmwareCapture → Frame → FirmwareVariant → FirmwareMetadata → List ℕ → Type 0
Verified save c frame v m image =
    c.metadata ≡ some m
    × image ≡ c.data_bytes ++ drop 7 frame.payload
    × length image ≡ m.size
    × crc_field v (crc16_le image) ≡ m.crc
    × save image ≡ true

abbrev pub Guarded : (FirmwareMetadata → List ℕ → Type 0) → Step → Type 0
Guarded good s = Taken s × EveryComplete good s.effects

refuse-Guarded :
    (good : FirmwareMetadata → List ℕ → Type 0) (c : FirmwareCapture) (f : Failure)
    → Guarded good (refuse c f)
refuse-Guarded good c f = (ground arith, tt)

acknowledge-Guarded :
    (good : FirmwareMetadata → List ℕ → Type 0) (c : FirmwareCapture) (es : List Effect)
    (r : Result (List ℕ))
    → ((raw : List ℕ) → EveryComplete good (es ++ (ack raw ∷ [])))
    → EveryComplete good es
    → Guarded good (acknowledge c es r)
acknowledge-Guarded good c es (ok raw) h k = (ground arith, h raw)
acknowledge-Guarded good c es (err e) h k = (ground arith, k)

on_metadata-Guarded :
    (good : FirmwareMetadata → List ℕ → Type 0) (c : FirmwareCapture) (f : Frame)
    (v : FirmwareVariant) (m : FirmwareMetadata) (s : List ℕ)
    → Guarded good (on_metadata c f v m s)
unfolding on_metadata
on_metadata-Guarded good c f v m s =
    if-split (Guarded good) (s =b [] || not (m.serial =b s))
      (λ h. refuse-Guarded good c serial_mismatch)
      (λ h.
        acknowledge-Guarded good
          (record { metadata = some m; variant = some v; data_bytes = []; expected_chunk = 0 })
          (started m ∷ []) (ack_frame f (v.magic ++ 0x00 ∷ 0x00 ∷ 0x05 ∷ []) 0xa1 v) (λ raw. tt) tt)

finished-Guarded :
    (simulate idle : Bool) (good : FirmwareMetadata → List ℕ → Type 0) (c : FirmwareCapture)
    (m : FirmwareMetadata) (r : Result (List ℕ))
    → good m c.data_bytes
    → Guarded good (finished simulate idle c m r)
unfolding finished
finished-Guarded simulate idle good c m (ok raw) g =
    (ground arith, (g, if-split (EveryComplete good) (simulate && idle) (λ _. tt) (λ _. tt)))
finished-Guarded simulate idle good c m (err e) g = (ground arith, tt)

module _ (save : List ℕ → Bool) (simulate idle : Bool) where
  on_image-Guarded :
      (good : FirmwareMetadata → List ℕ → Type 0) (c : FirmwareCapture) (f : Frame)
      (v : FirmwareVariant) (m : FirmwareMetadata)
      → (crc_field v (crc16_le c.data_bytes) ≡ m.crc
          → save c.data_bytes ≡ true
          → good m c.data_bytes)
      → Guarded good (on_image save simulate idle c f v m)
  unfolding on_image
  on_image-Guarded good c f v m h =
      if-split (Guarded good) (not (crc_field v (crc16_le c.data_bytes) =b m.crc))
        (λ e. refuse-Guarded good c crc_mismatch)
        (λ e.
          if-split (Guarded good) (not (save c.data_bytes)) (λ k. refuse-Guarded good c save_failed)
            (λ k.
              finished-Guarded simulate idle good c m
                (ack_frame f (v.magic ++ v.final_ack_suffix) 0xa2 v)
                (h (=b→eq _ _ (ground arith)) (ground arith))))

  on_appended-Guarded :
      (good : FirmwareMetadata → List ℕ → Type 0) (c : FirmwareCapture) (f : Frame)
      (v : FirmwareVariant) (m : FirmwareMetadata)
      → (length c.data_bytes ≡ m.size
          → crc_field v (crc16_le c.data_bytes) ≡ m.crc
          → save c.data_bytes ≡ true
          → good m c.data_bytes)
      → Guarded good (on_appended save simulate idle c f v m)
  unfolding on_appended
  on_appended-Guarded good c f v m h =
      if-split (Guarded good) (ltb m.size (length c.data_bytes))
        (λ e. refuse-Guarded good c image_too_large)
        (λ e.
          if-split (Guarded good) (ltb (length c.data_bytes) m.size)
            (λ k. acknowledge-Guarded good c [] (ack_next f v c.expected_chunk) (λ raw. tt) tt)
            (λ k. on_image-Guarded good c f v m (h (ground arith))))

  on_data-Guarded :
      (c : FirmwareCapture) (f : Frame) (v : FirmwareVariant) (m : Option FirmwareMetadata)
      (w : Option FirmwareVariant)
      → c.metadata ≡ m
      → Guarded (Verified save c f v) (on_data save simulate idle c f v m w)
  unfolding on_data on_chunk
  on_data-Guarded c f v none w e = refuse-Guarded (Verified save c f v) c chunk_without_metadata
  on_data-Guarded c f v (some m) none e =
      refuse-Guarded (Verified save c f v) c chunk_without_metadata
  on_data-Guarded c f v (some m) (some w) e =
      if-split (Guarded (Verified save c f v)) (ltb (length f.payload) 7)
        (λ _. refuse-Guarded (Verified save c f v) c chunk_without_metadata)
        (λ _.
          if-split (Guarded (Verified save c f v)) (not (same_variant v w))
            (λ _. refuse-Guarded (Verified save c f v) c protocol_changed)
            (λ _.
              if-split (Guarded (Verified save c f v))
                (not (from_bytes (slice 5 7 f.payload) == c.expected_chunk))
                (λ _.
                  acknowledge-Guarded (Verified save c f v) c
                    (chunk_error c.expected_chunk (from_bytes (slice 5 7 f.payload)) ∷ [])
                    (ack_next f v c.expected_chunk) (λ raw. tt) tt)
                (λ _.
                  on_appended-Guarded (Verified save c f v)
                    (record c {
                      data_bytes = c.data_bytes ++ drop 7 f.payload;
                      expected_chunk = c.expected_chunk + 1;
                    })
                    f v m (λ size crc saved. (e, refl, size, crc, saved)))))

  on_transfer-Guarded :
      (c : FirmwareCapture) (f : Frame) (v : FirmwareVariant) (s : List ℕ)
      (r : Result FirmwareMetadata)
      → Guarded (Verified save c f v) (on_transfer save simulate idle c f v s r)
  unfolding on_transfer
  on_transfer-Guarded c f v s (ok m) =
      if-split (Guarded (Verified save c f v)) f.valid_crc
        (λ _. on_metadata-Guarded (Verified save c f v) c f v m s)
        (λ _. refuse-Guarded (Verified save c f v) c invalid_frame_crc)
  on_transfer-Guarded c f v s (err e) =
      if-split (Guarded (Verified save c f v)) f.valid_crc
        (λ _. on_data-Guarded c f v c.metadata c.variant refl)
        (λ _. refuse-Guarded (Verified save c f v) c invalid_frame_crc)

  module _ (path_name : List ℕ → List ℕ) where
    on_frame_iff :
        (c : FirmwareCapture) (f : Frame) (s : List ℕ) (found : Option FirmwareVariant)
        → (on_frame save simulate idle path_name c f s found).handled ≡ ok false
          ↔ is_found found ≡ false
    unfolding on_frame
    on_frame_iff c f s none = ((λ _. refl), λ _. refl)
    on_frame_iff c f s (some v) = (
      (λ h. absurd (
          (on_transfer-Guarded c f v s (parse_firmware_metadata path_name f.payload (some v))).0
            h)),
      λ h. absurd (ground arith),
    )

    -- In capture mode a frame may pass on to the inverter exactly when it is not a firmware transfer
    -- frame: every transfer frame is withheld on every path, errors included.
    pub transfers_withheld :
        (c : FirmwareCapture) (f : Frame) (s : List ℕ)
        → (handle_upstream_frame save simulate idle path_name c f s).handled ≡ ok false
          ↔ is_firmware_transfer_frame f ≡ false
    unfolding handle_upstream_frame is_firmware_transfer_frame
    transfers_withheld c f s = on_frame_iff c f s (firmware_variant_for_frame f)

    -- For a frame of a transfer of variant v, every image that the call reports complete belongs to the
    -- metadata kept, is the bytes collected before followed by the frame's, has the announced size and
    -- the announced checksum, and was saved.
    pub saved_images_checked :
        (c : FirmwareCapture) (f : Frame) (s : List ℕ) (v : FirmwareVariant)
        → firmware_variant_for_frame f ≡ some v
        → EveryComplete
            (Verified save c f v)
            (handle_upstream_frame save simulate idle path_name c f s).effects
    unfolding handle_upstream_frame on_frame
    saved_images_checked c f s v h =
        subst
          (λ found.
            EveryComplete (Verified save c f v)
              (on_frame save simulate idle path_name c f s found).effects)
          (sym h)
          ((on_transfer-Guarded c f v s (parse_firmware_metadata path_name f.payload (some v))).1)
