-- ===== src/Server/Faults/Latest.antt =====
-- The fault that `Session._update_fault_state` of foxess_local_cloud/server.py remembers.
use foxess_local_gateway.Prelude.{
  ℕ, ◌≡◌, refl, ap, ◌∙◌, arith, List, [], ◌∷◌, Bool, true, false, =b→eq, if◌then◌else◌,
}
use foxess_local_gateway.Telemetry.Faults.{
  FaultCode, no_fault, raw_offset98, raw_word, codes, newest_word, fault_code_for,
}
use foxess_local_gateway.Server.Faults.{
  FaultState, Words, is_fault_active, same_code, code_now, update_with, update_words,
}

-- One telemetry payload's words, and the time.
abbrev pub Heard : Type 0
Heard = Words × ℕ

abbrev pub update_all : List Heard → FaultState → FaultState
update_all [] s = s
update_all ((w, now) ∷ hs) s = update_all hs (update_words w now s).0

-- The code of the last payload that had a fault, and whether the last payload had one.
abbrev pub latest : List Heard → FaultCode → FaultCode
latest [] code = code
latest ((w, now) ∷ hs) code = latest hs (if is_fault_active w then code_now w else code)

abbrev pub last_active : List Heard → Bool → Bool
last_active [] b = b
last_active ((w, now) ∷ hs) b = last_active hs (is_fault_active w)

same_code-eq : (c d : FaultCode) → same_code c d ≡ true → c ≡ d
same_code-eq no_fault d h = ground arith
same_code-eq (raw_offset98 m) d h = ground arith
same_code-eq (raw_word m) d h = ground arith
same_code-eq (codes cs) (codes ds) h = ap codes (=b→eq cs ds h)
same_code-eq (codes cs) d h = ground arith

quiet_code : (w : Words) → is_fault_active w ≡ false → code_now w ≡ no_fault
unfolding code_now
quiet_code w h = ground arith

active_code : (w : Words) → is_fault_active w ≡ true → same_code (code_now w) no_fault ≡ false
unfolding code_now fault_code_for newest_word
active_code w h = ground arith

same_code_quiet : (code : FaultCode) → code ≡ no_fault → same_code code no_fault ≡ true
same_code_quiet code e = rw e refl

update_with_code :
    (active : Bool) (code : FaultCode) (now : ℕ) (s : FaultState)
    → (active ≡ true → same_code code no_fault ≡ false)
    → (active ≡ false → code ≡ no_fault)
    → ((update_with active code now s).0.last_fault_code
        ≡ (if active then code else s.last_fault_code))
      × ((update_with active code now s).0.previous_fault_active ≡ active)
unfolding update_with
update_with_code active code now s loud quiet =
    (ground (arith, same_code-eq code s.last_fault_code, same_code_quiet code), ground arith)

update_one :
    (w : Words) (now : ℕ) (s : FaultState)
    → ((update_words w now s).0.last_fault_code
        ≡ (if is_fault_active w then code_now w else s.last_fault_code))
      × ((update_words w now s).0.previous_fault_active ≡ is_fault_active w)
unfolding update_words
update_one w now s =
    update_with_code (is_fault_active w) (code_now w) now s (active_code w) (quiet_code w)

-- Over any telemetry of a supported model, the remembered code is that of the last payload that had a
-- fault, repeated reports or not, and the flag says whether the last payload had one.
pub fault_state_latest :
    (hs : List Heard) (s : FaultState)
    → ((update_all hs s).last_fault_code ≡ latest hs s.last_fault_code)
      × ((update_all hs s).previous_fault_active ≡ last_active hs s.previous_fault_active)
fault_state_latest [] s = (refl, refl)
fault_state_latest ((w, now) ∷ hs) s =
    let t = (update_words w now s).0 in
    let (code, active) = update_one w now s in
    let (kept, flag) = fault_state_latest hs t in
    (kept ∙ ap (latest hs) code, flag ∙ ap (last_active hs) active)
