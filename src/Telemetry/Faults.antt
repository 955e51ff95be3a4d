-- ===== src/Telemetry/Faults.antt =====
-- The AC-fault words of foxess_local_cloud/telemetry.py.
use foxess_local_gateway.Prelude.{
  ℕ, zero, suc, ◌+◌, ◌-◌, ◌/◌, ◌^◌, bit_and, List, [], ◌∷◌, not, ◌==◌, if◌then◌else◌,
}

abbrev pub ac_fault_bits : ℕ
ac_fault_bits = 14

-- The text `fault_code_for` returns: empty, one of the two raw forms with its word, or the codes
-- between the commas.
pub data FaultCode : Type 0 where
  no_fault : FaultCode
  raw_offset98 : ℕ → FaultCode
  raw_word : ℕ → FaultCode
  codes : List ℕ → FaultCode

-- `next((value for value in reversed(offsets) if value), 0)`
unfoldable pub newest_word : ℕ → ℕ → ℕ → ℕ → ℕ
newest_word w100 w102 w104 w106 =
    if not (w106 == 0)
    then w106
    else if not (w104 == 0)
    then w104
    else if not (w102 == 0)
    then w102
    else w100

-- `4160 - bit` for the bits below `n` that are set, ascending: the highest bit comes first.
unfoldable pub codes_below : ℕ → ℕ → List ℕ
codes_below zero newest = []
codes_below (suc bit) newest =
    let rest = codes_below bit newest in
    if bit_and newest (2 ^ bit) == 0 then rest else (4160 - bit) ∷ rest

-- `newest & ~AC_FAULT_MASK` is not zero exactly when a bit from 14 on is set.
unfoldable pub fault_code_for : ℕ → ℕ → ℕ → ℕ → ℕ → FaultCode
unfolding newest_word codes_below
fault_code_for w100 w102 w104 w106 offset_98 =
    let newest = newest_word w100 w102 w104 w106 in
    if newest == 0
    then if offset_98 == 0 then no_fault else raw_offset98 offset_98
    else if not (newest / 2 ^ ac_fault_bits == 0)
    then raw_word newest
    else codes (codes_below ac_fault_bits newest)

-- The word in which exactly the bits of the codes are set.
abbrev pub word_of : List ℕ → ℕ
word_of [] = 0
word_of (code ∷ cs) = 2 ^ (4160 - code) + word_of cs

-- The fault word that a text stands for.
abbrev pub word_of_code : FaultCode → ℕ
word_of_code no_fault = 0
word_of_code (raw_offset98 w) = 0
word_of_code (raw_word w) = w
word_of_code (codes cs) = word_of cs
