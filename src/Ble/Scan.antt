-- ===== src/Ble/Scan.antt =====
-- Scan responses and credentials of foxess_local_cloud/ble_provision.py.
use foxess_local_gateway.Prelude.{
  ℕ, suc, ◌≡◌, refl, ap, ◌∙◌, arith, List, [], ◌∷◌, ◌++◌, length, length-append, append_assoc,
  drop_exact, take_exact, map,
}
use foxess_local_gateway.Ble.{ScannedNetwork, rssi_of, scan_records, scan_body}

-- One access point, as the inverter writes it: the signal byte and the name.
abbrev pub record_of : ℕ × List ℕ → List ℕ
record_of (rssi_byte, name) = suc (length name) ∷ rssi_byte ∷ name

abbrev pub records_of : List (ℕ × List ℕ) → List ℕ
records_of [] = []
records_of (r ∷ rs) = record_of r ++ records_of rs

module _ (S : Type 0) (decode : List ℕ → S) where
  abbrev pub network_of : ℕ × List ℕ → ScannedNetwork S decode
  network_of (rssi_byte, name) = record { ssid = decode name; rssi = rssi_of rssi_byte }

  one_record :
      (n b : ℕ) (name rest : List ℕ)
      → scan_records S decode (suc n) (suc (length name) ∷ b ∷ (name ++ rest))
        ≡ network_of (b, name) ∷ scan_records S decode n rest
  unfolding scan_records
  one_record n b name rest = ground (
    arith,
    length-append name rest,
    take_exact (length name) name rest refl,
    drop_exact (length name) name rest refl,
  )

  records_parse :
      (rs : List (ℕ × List ℕ)) (junk : List ℕ)
      → scan_records S decode (length rs) (records_of rs ++ junk) ≡ map network_of rs
  unfolding scan_records
  records_parse [] junk = refl
  records_parse ((b, name) ∷ rs) junk =
      ap (λ (bs : List ℕ). scan_records S decode (suc (length rs)) (suc (length name) ∷ b ∷ bs))
        (append_assoc name (records_of rs) junk)
      ∙ one_record (length rs) b name (records_of rs ++ junk)
      ∙ ap (λ ns. network_of (b, name) ∷ ns) (records_parse rs junk)

  -- The body that lists any access points, with any leading byte and anything after the last record,
  -- is decoded to exactly these access points in order.
  pub scan_round_trip :
      (lead : ℕ) (rs : List (ℕ × List ℕ)) (junk : List ℕ)
      → scan_body S decode (lead ∷ length rs ∷ (records_of rs ++ junk)) ≡ map network_of rs
  unfolding scan_body
  scan_round_trip lead rs junk = records_parse rs junk
