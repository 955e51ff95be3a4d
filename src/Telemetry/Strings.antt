-- ===== src/Telemetry/Strings.antt =====
-- The PV strings that `decode_telemetry` of foxess_local_cloud/telemetry.py reports.
use mathlib.Core.Path.{subst}
use foxess_local_gateway.Prelude.{
  ℕ, ◌+◌, ◌≡◌, refl, arith, List, length, Bool, true, false, ◌||◌, Option, none, some, leb, ◌==◌,
  ok, err, value_error, if◌then◌else◌,
}
use foxess_local_gateway.Protocol.Frame.RoundTrip.{ok_injective}
use foxess_local_gateway.Telemetry.{
  Telemetry, u16, nonzero, supports_four_pv, include_pv34, decoded, decode_telemetry,
}

abbrev pub or_none : Option ℕ → ℕ
or_none none = 0
or_none (some n) = n

nonzero-zero : (n : ℕ) → nonzero n ≡ false → n ≡ 0
nonzero-zero n h = ground arith

third_and_sixth :
    (a b c d e f g h : Bool)
    → (a || b || c || d || e || f || g || h) ≡ false
    → (c ≡ false) × (f ≡ false)
third_and_sixth a b c d e f g h p = (ground arith, ground arith)

module _ (F : Type 0) (scaled : ℕ → ℕ → ℕ → F) (is_nonzero : F → Bool) where
  hidden_powers_zero :
      (p m : List ℕ)
      → include_pv34 F scaled is_nonzero p m ≡ false
      → (u16 p 52 ≡ 0) × (u16 p 58 ≡ 0)
  unfolding include_pv34
  hidden_powers_zero p m h =
      let r =
        third_and_sixth (supports_four_pv m) (leb 4 (u16 p 156)) (nonzero (u16 p 52))
          (is_nonzero (scaled (u16 p 48) 256 3)) (is_nonzero (scaled (u16 p 50) 512 3))
          (nonzero (u16 p 58)) (is_nonzero (scaled (u16 p 54) 256 3))
          (is_nonzero (scaled (u16 p 56) 512 3)) h in
      (nonzero-zero (u16 p 52) r.0, nonzero-zero (u16 p 58) r.1)

  -- The total of a record whose strings are reported or carry no power.
  decoded_power :
      (p m : List ℕ) (b : Bool)
      → (b ≡ false → (u16 p 52 ≡ 0) × (u16 p 58 ≡ 0))
      → ((decoded F scaled is_nonzero p m b).pv_power_w ≡ u16 p 40 + u16 p 46 + u16 p 52 + u16 p 58)
        × ((decoded F scaled is_nonzero p m b).pv_power_w
            ≡ (decoded F scaled is_nonzero p m b).pv1_power_w
              + (decoded F scaled is_nonzero p m b).pv2_power_w
              + or_none (decoded F scaled is_nonzero p m b).pv3_power_w
              + or_none (decoded F scaled is_nonzero p m b).pv4_power_w)
  unfolding decoded
  decoded_power p m true h = (refl, refl)
  decoded_power p m false h = (omega (arith, (h refl).0, (h refl).1), omega arith)

  decoded_result :
      (p m : List ℕ) (t : Telemetry F)
      → decode_telemetry F scaled is_nonzero p m ≡ ok t
      → decoded F scaled is_nonzero p m (include_pv34 F scaled is_nonzero p m) ≡ t
  unfolding decode_telemetry
  decoded_result p m t h = checked (length p == 238) h
    where
      checked :
          (b : Bool)
          → (if b
              then ok (decoded F scaled is_nonzero p m (include_pv34 F scaled is_nonzero p m))
              else err value_error)
            ≡ ok t
          → decoded F scaled is_nonzero p m (include_pv34 F scaled is_nonzero p m) ≡ t
      checked true e = ok_injective e
      checked false e = ground arith

  -- In a decoded payload the reported total power is the sum of the four string powers in the
  -- payload, also when strings three and four are not reported, and it is the sum of the string
  -- powers that the record does report.
  pub pv_power_total :
      (p m : List ℕ) (t : Telemetry F)
      → decode_telemetry F scaled is_nonzero p m ≡ ok t
      → (t.pv_power_w ≡ u16 p 40 + u16 p 46 + u16 p 52 + u16 p 58)
        × (t.pv_power_w
            ≡ t.pv1_power_w + t.pv2_power_w + or_none t.pv3_power_w + or_none t.pv4_power_w)
  pv_power_total p m t h =
      subst
        (λ (x : Telemetry F).
          (x.pv_power_w ≡ u16 p 40 + u16 p 46 + u16 p 52 + u16 p 58)
          × (x.pv_power_w
              ≡ x.pv1_power_w + x.pv2_power_w + or_none x.pv3_power_w + or_none x.pv4_power_w))
        (decoded_result p m t h)
        (decoded_power p m (include_pv34 F scaled is_nonzero p m) (hidden_powers_zero p m))
