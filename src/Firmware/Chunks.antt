-- ===== src/Firmware/Chunks.antt =====
-- The requests of `FirmwareUploader.upload` of foxess_local_cloud/firmware.py, in the order sent: the
-- metadata, then the image in chunks of at most 1024 bytes, each with the acknowledgement it awaits.
use mathlib.Core.Path.{subst}
use foxess_local_gateway.Prelude.{
  ℕ, zero, suc, ◌+◌, ◌-◌, ◌≤◌, ◌<◌, ◌≡◌, refl, sym, ap, ◌∙◌, arith, List, [], ◌∷◌, ◌++◌, length,
  take, drop, take-append-drop, drop-take, drop-drop, drop_all, length-take, length-drop, min,
  ltb→lt, Bool, true, false, Result, ok, ltb, ◌>>=◌, if◌then◌else◌,
}
use foxess_local_gateway.Bytes.{slice, to_bytes}
use foxess_local_gateway.Protocol.Frame.{make_frame}
use foxess_local_gateway.Firmware.Variant.{FirmwareVariant}
use foxess_local_gateway.Firmware.Metadata.{FirmwareImage, build_firmware_metadata}

abbrev pub firmware_chunk_size : ℕ
firmware_chunk_size = 1024

-- `[data[i:i + 1024] for i in range(0, size, 1024)]`, from `i` on; `n` is the fuel.
unfoldable pub chunks_from : ℕ → List ℕ → ℕ → ℕ → List (List ℕ)
chunks_from zero bs size i = []
chunks_from (suc n) bs size i =
    let rest = chunks_from n bs size (i + firmware_chunk_size) in
    if ltb i size then slice i (i + firmware_chunk_size) bs ∷ rest else []

-- A fuel of `size` is enough, as every chunk starts after the one before.
unfoldable pub chunks : FirmwareImage → List (List ℕ)
unfolding chunks_from
chunks image = chunks_from image.size image.image image.size 0

pub record Request : Type 0 where
  pub first_device_byte : ℕ
  pub payload : List ℕ
  pub expected : List ℕ

abbrev pub expected_after : FirmwareVariant → ℕ → List (List ℕ) → Result (List ℕ)
expected_after v i [] = ok (v.magic ++ v.final_ack_suffix)
expected_after v i (c ∷ cs) = do next ← to_bytes 2 (i + 1); ok (v.magic ++ (next ++ 0x05 ∷ []))

-- The requests of the chunks from number `i` on.
unfoldable pub chunk_requests : FirmwareVariant → ℕ → List (List ℕ) → Result (List Request)
chunk_requests v i [] = ok []
chunk_requests v i (c ∷ cs) = do
  number ← to_bytes 2 i
  expected ← expected_after v i cs
  rest ← chunk_requests v (i + 1) cs
  ok (
      record { first_device_byte = 0x22; payload = v.magic ++ (number ++ c); expected = expected }
      ∷ rest)

unfoldable pub upload_requests : FirmwareImage → List ℕ → FirmwareVariant → Result (List Request)
unfolding build_firmware_metadata chunks chunk_requests
upload_requests image serial v = do
  metadata ← build_firmware_metadata image serial v
  rest ← chunk_requests v 0 (chunks image)
  ok (
      record {
        first_device_byte = 0x21;
        payload = metadata;
        expected = v.magic ++ 0x00 ∷ 0x00 ∷ 0x05 ∷ [];
      }
      ∷ rest)

-- `_send_and_expect`: the frame written under the counter value.
unfoldable pub request_frame : FirmwareVariant → ℕ → Request → Result (List ℕ)
unfolding make_frame
request_frame v counter r = do
  tail ← to_bytes 3 counter
  make_frame v.start (r.first_device_byte ∷ tail) v.func r.payload v.end

abbrev pub join : List (List ℕ) → List ℕ
join [] = []
join (c ∷ cs) = c ++ join cs

-- Every chunk has between 1 and 1024 bytes.
abbrev pub AllSized : List (List ℕ) → Type 0
AllSized [] = Unit
AllSized (c ∷ cs) = (0 < length c) × (length c ≤ firmware_chunk_size) × AllSized cs

slice-drop : (i k : ℕ) (xs : List ℕ) → slice i (i + k) xs ++ drop (i + k) xs ≡ drop i xs
slice-drop i k xs =
    ap (λ (ys : List ℕ). ys ++ drop (i + k) xs) (drop-take i k xs)
    ∙ ap (λ (ys : List ℕ). take k (drop i xs) ++ ys) (sym (drop-drop k i xs))
    ∙ take-append-drop k (drop i xs)

join-chunks_from :
    (n i : ℕ) (xs : List ℕ) → length xs ≤ i + n → join (chunks_from n xs (length xs) i) ≡ drop i xs
unfolding chunks_from
join-chunks_from zero i xs h = sym (drop_all i xs (omega arith))
join-chunks_from (suc n) i xs h =
    more (ltb i (length xs)) refl (λ q. join-chunks_from n (i + 1024) xs q)
  where
    more :
        (b : Bool)
        → ltb i (length xs) ≡ b
        → (length xs ≤ i + 1024 + n
            → join (chunks_from n xs (length xs) (i + 1024)) ≡ drop (i + 1024) xs)
        → join (if b then slice i (i + 1024) xs ∷ chunks_from n xs (length xs) (i + 1024) else [])
          ≡ drop i xs
    more true e ih =
        ap (λ (ys : List ℕ). slice i (i + 1024) xs ++ ys) (ih (omega arith)) ∙ slice-drop i 1024 xs
    more false e ih = sym (drop_all i xs (ground arith))

slice_size : (i k : ℕ) (xs : List ℕ) → length (slice i (i + k) xs) ≡ min k (length xs - i)
slice_size i k xs =
    ap length (drop-take i k xs) ∙ length-take k (drop i xs) ∙ ap (min k) (length-drop i xs)

chunks_from_sized : (n i : ℕ) (xs : List ℕ) → AllSized (chunks_from n xs (length xs) i)
unfolding chunks_from
chunks_from_sized zero i xs = tt
chunks_from_sized (suc n) i xs = more (ltb i (length xs)) refl (chunks_from_sized n (i + 1024) xs)
  where
    more :
        (b : Bool)
        → ltb i (length xs) ≡ b
        → AllSized (chunks_from n xs (length xs) (i + 1024))
        → AllSized
            (if b then slice i (i + 1024) xs ∷ chunks_from n xs (length xs) (i + 1024) else [])
    more true e ih = (
      omega (arith, slice_size i 1024 xs, ltb→lt i (length xs) e),
      omega (arith, slice_size i 1024 xs),
      ih,
    )
    more false e ih = tt

-- The chunks of an image whose size field is right are never empty nor longer than 1024 bytes, and
-- joined in order they are the image.
pub chunks_rejoin :
    (image : FirmwareImage)
    → image.size ≡ length image.image
    → (join (chunks image) ≡ image.image) × AllSized (chunks image)
unfolding chunks
chunks_rejoin image h = (
  ap (λ (n : ℕ). join (chunks_from n image.image n 0)) h
      ∙ join-chunks_from (length image.image) 0 image.image (omega arith),
  subst (λ (n : ℕ). AllSized (chunks_from n image.image n 0)) (sym h)
      (chunks_from_sized (length image.image) 0 image.image),
)
