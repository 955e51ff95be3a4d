-- ===== src/Server/Faults.antt =====
-- `Session._update_fault_state` of foxess_local_cloud/server.py; `now` is the time.
pub mod Latest
use foxess_local_gateway.Prelude.{
  ℕ, List, [], ◌∷◌, Bool, true, false, not, ◌&&◌, ◌||◌, Option, none, some, ◌==◌, ◌=b◌,
  if◌then◌else◌,
}
use foxess_local_gateway.Telemetry.{u16, nonzero}
use foxess_local_gateway.Telemetry.Faults.{
  FaultCode, no_fault, raw_offset98, raw_word, codes, fault_code_for,
}

pub record FaultState : Type 0 where
  pub last_fault_code : FaultCode
  pub last_fault_timestamp : Option ℕ
  pub previous_fault_active : Bool

abbrev pub init : FaultState
init = record {
  last_fault_code = no_fault;
  last_fault_timestamp = none;
  previous_fault_active = false;
}

pub data Report : Type 0 where
  fault_observed : FaultCode → Report
  fault_cleared : FaultCode → Report

-- The five words at 98, 100, 102, 104 and 106.
pub record Words : Type 0 where
  pub offset_98 : ℕ
  pub w100 : ℕ
  pub w102 : ℕ
  pub w104 : ℕ
  pub w106 : ℕ

abbrev pub words_of : List ℕ → Words
words_of payload = record {
  offset_98 = u16 payload 98;
  w100 = u16 payload 100;
  w102 = u16 payload 102;
  w104 = u16 payload 104;
  w106 = u16 payload 106;
}

abbrev pub is_fault_active : Words → Bool
is_fault_active w =
    nonzero w.w100 || nonzero w.w102 || nonzero w.w104 || nonzero w.w106 || nonzero w.offset_98

abbrev pub same_code : FaultCode → FaultCode → Bool
same_code no_fault no_fault = true
same_code (raw_offset98 m) (raw_offset98 n) = m == n
same_code (raw_word m) (raw_word n) = m == n
same_code (codes cs) (codes ds) = cs =b ds
same_code c d = false

unfoldable pub code_now : Words → FaultCode
unfolding fault_code_for
code_now w =
    if is_fault_active w then fault_code_for w.w100 w.w102 w.w104 w.w106 w.offset_98 else no_fault

-- The change and the report, given whether a fault is active and its code.
unfoldable pub update_with : Bool → FaultCode → ℕ → FaultState → FaultState × List Report
update_with active code now s =
    if not (same_code code no_fault)
      && (not s.previous_fault_active || not (same_code code s.last_fault_code))
    then (
      record {
        last_fault_code = code;
        last_fault_timestamp = some now;
        previous_fault_active = active;
      },
      fault_observed code ∷ [],
    )
    else if not active && s.previous_fault_active
    then (record s { previous_fault_active = active }, fault_cleared s.last_fault_code ∷ [])
    else (record s { previous_fault_active = active }, [])

unfoldable pub update_words : Words → ℕ → FaultState → FaultState × List Report
unfolding code_now update_with
update_words w now s = update_with (is_fault_active w) (code_now w) now s

-- `supported` is `supports_ac_fault_history(self.model)`.
unfoldable pub update_fault_state : Bool → List ℕ → ℕ → FaultState → FaultState × List Report
unfolding u16 update_words
update_fault_state supported payload now s =
    if supported
    then update_words (words_of payload) now s
    else (record s { previous_fault_active = false }, [])
