-- ===== src/Telemetry.antt =====
-- `decode_telemetry` of foxess_local_cloud/telemetry.py. Text is a list of ASCII code points, `F` is
-- the type of floats, and `scaled v d n` is `round(v / d, n)`.
pub mod Faults
pub mod Strings
use foxess_local_gateway.Prelude.{
  ℕ, zero, suc, ◌+◌, ◌-◌, ◌*◌, ◌^◌, List, [], ◌∷◌, length, map, Bool, true, false, ◌&&◌, ◌||◌, not,
  Option, none, some, Result, ok, err, value_error, leb, ltb, ◌==◌, ◌=b◌, if◌then◌else◌,
}
use foxess_local_gateway.Bytes.{slice, from_bytes, starts_with, find}
use foxess_local_gateway.Protocol.Info.{strip}

pub data ℤ : Type 0 where
  pos : ℕ → ℤ
  negsuc : ℕ → ℤ

abbrev pub negate : ℤ → ℤ
negate (pos zero) = pos zero
negate (pos (suc n)) = negsuc n
negate (negsuc n) = pos (suc n)

unfoldable pub u16 : List ℕ → ℕ → ℕ
u16 payload offset = from_bytes (slice offset (offset + 2) payload)

-- The two's complement of 16 bits.
abbrev pub signed16 : ℕ → ℤ
signed16 v = if ltb v 0x8000 then pos v else negsuc (0xffff - v)

unfoldable pub s16 : List ℕ → ℕ → ℤ
unfolding u16
s16 payload offset = signed16 (u16 payload offset)

-- `(high << 16) | low`, where `low` has 16 bits
unfoldable pub u32_wordswapped : List ℕ → ℕ → ℕ
unfolding u16
u32_wordswapped payload offset = u16 payload (offset + 2) * 2 ^ 16 + u16 payload offset

abbrev pub upper_char : ℕ → ℕ
upper_char c = if leb b'a' c && leb c b'z' then c - 32 else c

abbrev pub contains : List ℕ → List ℕ → Bool
contains text part = elim (find part text) [ none ↦ false | some i ↦ true ]

unfoldable pub supports_ac_fault_history : List ℕ → Bool
supports_ac_fault_history model = starts_with (map upper_char (strip model)) (b'M' ∷ b'1' ∷ [])

unfoldable pub supports_four_pv : List ℕ → Bool
supports_four_pv model =
    let normalized = map (λ c. if c == b'_' then b'-' else c) (map upper_char model) in
    starts_with normalized (b'Q' ∷ b'1' ∷ [])
    || contains normalized (b'-' ∷ b'Q' ∷ b'1' ∷ [])
    || contains normalized (b'Q' ∷ b'1' ∷ b'-' ∷ [])

pub data OperatingState : Type 0 where
  standby running unknown : OperatingState

unfoldable pub operating_state : ℕ → OperatingState
operating_state code = if code == 2 then standby else if code == 4 then running else unknown

-- The fields that the payload gives; the texts that the caller passes through are left out.
pub record Telemetry (F : Type 0) : Type 0 where
  pub r_power_w : ℤ
  pub export_power_w : ℤ
  pub r_voltage_v : F
  pub r_current_a : F
  pub r_frequency_hz : F
  pub pv_power_w : ℕ
  pub pv1_power_w : ℕ
  pub pv1_voltage_v : F
  pub pv1_current_a : F
  pub pv2_power_w : ℕ
  pub pv2_voltage_v : F
  pub pv2_current_a : F
  pub pv3_power_w : Option ℕ
  pub pv3_voltage_v : Option F
  pub pv3_current_a : Option F
  pub pv4_power_w : Option ℕ
  pub pv4_voltage_v : Option F
  pub pv4_current_a : Option F
  pub inverter_temperature_c : F
  pub generation_kwh : F
  pub export_total_kwh : F
  pub fault_active : Bool
  pub operating_state_of : OperatingState
  pub operating_state_code : ℕ
  pub sequence : ℕ
  pub raw_u16 : List ℕ

abbrev pub when {ℓ} : {A : Type ℓ} → Bool → A → Option A
when b x = if b then some x else none

abbrev pub nonzero : ℕ → Bool
nonzero n = not (n == 0)

module _ (F : Type 0) (scaled : ℕ → ℕ → ℕ → F) (is_nonzero : F → Bool) where
  -- Strings three and four are reported.
  unfoldable pub include_pv34 : List ℕ → List ℕ → Bool
  unfolding u16 supports_four_pv
  include_pv34 payload model =
      supports_four_pv model
      || leb 4 (u16 payload 156)
      || nonzero (u16 payload 52)
      || is_nonzero (scaled (u16 payload 48) 256 3)
      || is_nonzero (scaled (u16 payload 50) 512 3)
      || nonzero (u16 payload 58)
      || is_nonzero (scaled (u16 payload 54) 256 3)
      || is_nonzero (scaled (u16 payload 56) 512 3)

  unfoldable pub has_fault_words : List ℕ → Bool
  unfolding u16
  has_fault_words payload =
      nonzero (u16 payload 98)
      || nonzero (u16 payload 100)
      || nonzero (u16 payload 102)
      || nonzero (u16 payload 104)
      || nonzero (u16 payload 106)

  -- The record of a payload of the right length; `pv34`: strings three and four are reported.
  unfoldable pub decoded : List ℕ → List ℕ → Bool → Telemetry F
  unfolding u16 s16 u32_wordswapped supports_ac_fault_history operating_state has_fault_words
  decoded payload model pv34 = record {
    r_power_w = s16 payload 6;
    export_power_w = negate (s16 payload 2);
    r_voltage_v = scaled (u16 payload 12) 32 3;
    r_current_a = scaled (u16 payload 14) 512 3;
    r_frequency_hz = scaled (u16 payload 16) 128 3;
    pv_power_w =
        u16 payload 40
        + u16 payload 46
        + (if pv34 then u16 payload 52 else 0)
        + (if pv34 then u16 payload 58 else 0);
    pv1_power_w = u16 payload 40;
    pv1_voltage_v = scaled (u16 payload 36) 256 3;
    pv1_current_a = scaled (u16 payload 38) 512 3;
    pv2_power_w = u16 payload 46;
    pv2_voltage_v = scaled (u16 payload 42) 256 3;
    pv2_current_a = scaled (u16 payload 44) 512 3;
    pv3_power_w = when pv34 (u16 payload 52);
    pv3_voltage_v = when pv34 (scaled (u16 payload 48) 256 3);
    pv3_current_a = when pv34 (scaled (u16 payload 50) 512 3);
    pv4_power_w = when pv34 (u16 payload 58);
    pv4_voltage_v = when pv34 (scaled (u16 payload 54) 256 3);
    pv4_current_a = when pv34 (scaled (u16 payload 56) 512 3);
    inverter_temperature_c = scaled (u16 payload 62) 32 2;
    generation_kwh = scaled (u32_wordswapped payload 70) 128 3;
    export_total_kwh = scaled (u32_wordswapped payload 74) 128 3;
    fault_active = supports_ac_fault_history model && has_fault_words payload;
    operating_state_of = operating_state (u16 payload 154);
    operating_state_code = u16 payload 154;
    sequence = u16 payload 66;
    raw_u16 = map (u16 payload) (0 ∷ 2 ∷ 96 ∷ 98 ∷ 100 ∷ 102 ∷ 104 ∷ 106 ∷ 154 ∷ 156 ∷ []);
  }

  unfoldable pub decode_telemetry : List ℕ → List ℕ → Result (Telemetry F)
  unfolding include_pv34 decoded
  decode_telemetry payload model =
      if length payload == 238
      then ok (decoded payload model (include_pv34 payload model))
      else err value_error
