-- ===== src/Server/Handle/Reports.antt =====
-- The paragraphs of `Session.handle_frame` of foxess_local_cloud/server.py that report: what they keep,
-- and that they make no other call than states of the setpoint and results of readbacks.
use foxess_local_gateway.Prelude.{ℕ, List, Bool, true, false, Option, none, some, ◌==◌, if-split}
use foxess_local_gateway.Dict.{get, pop}
use foxess_local_gateway.LocalControl.{Source, normalize_device}
use foxess_local_gateway.Protocol.Frame.{Frame}
use foxess_local_gateway.Protocol.Modbus.{
  is_modbus_write_success_response, is_modbus_read_response, parse_modbus_read_response,
  ReadException, is_modbus_read_exception, parse_modbus_read_exception,
}
use foxess_local_gateway.Server.Control.{known, is_some}
use foxess_local_gateway.Server.Session.{Session, Call, publish_state, readback_result}
use foxess_local_gateway.Server.Session.Rules.{AllCalls, Runs, if_Runs}
use foxess_local_gateway.Server.Handle.{
  written_state, cloud_write, first_value, compared, read_state, take_read, note_read, refused,
  note_exception,
}

module _ {F : Type 0} where
  abbrev pub Reports : Call F → Type 0
  Reports (publish_state serial value) = Unit
  Reports (readback_result value source r) = Unit
  Reports c = ⊥

module _ (F : Type 0) (good : Call F → Type 0) (allowed : (c : Call F) → Reports c → good c) where
  written_state-AllCalls :
      (address : ℕ) (serial : Option (List ℕ)) (o : Option (ℕ × ℕ))
      → AllCalls good (written_state {F = F} address serial o)
  written_state-AllCalls address none o = tt
  written_state-AllCalls address (some serial) none = tt
  written_state-AllCalls address (some serial) (some (a, value)) =
      if-split (AllCalls good) (a == address) (λ e. (allowed (publish_state serial value) tt, tt))
        (λ e. tt)

  compared-AllCalls :
      (actual : ℕ) (o : Option (ℕ × Source)) → AllCalls good (compared {F = F} actual o)
  compared-AllCalls actual none = tt
  compared-AllCalls actual (some (requested, source)) =
      (allowed (readback_result requested source _) tt, tt)

  read_state-AllCalls :
      (address : ℕ) (controlled : Bool) (serial : Option (List ℕ)) (o : Option (ℕ × ℕ))
      (value : Option ℕ) (readback : Option (ℕ × Source))
      → AllCalls good (read_state {F = F} address controlled serial o value readback)
  read_state-AllCalls address false serial o value readback = tt
  read_state-AllCalls address true none o value readback = tt
  read_state-AllCalls address true (some serial) none value readback = tt
  read_state-AllCalls address true (some serial) (some (a, n)) none readback = tt
  read_state-AllCalls address true (some serial) (some (a, n)) (some actual) readback =
      if-split (AllCalls good) (a == address)
        (λ e. (allowed (publish_state serial actual) tt, compared-AllCalls actual readback))
        (λ e. tt)

  refused-AllCalls :
      (e : Option ReadException) (o : Option (ℕ × Source)) → AllCalls good (refused {F = F} e o)
  refused-AllCalls none o = tt
  refused-AllCalls (some e) none = tt
  refused-AllCalls (some e) (some (requested, source)) =
      (allowed (readback_result requested source _) tt, tt)

  module _ (keep : Session → Type 0) (f : Frame) where
    pub cloud_write-Reports :
        (address : ℕ)
        → ((s : Session) (key : List ℕ)
            → keep s
            → keep (record s { pending_writes = pop key s.pending_writes }))
        → Runs keep (cloud_write address f) keep good
    unfolding cloud_write
    cloud_write-Reports address kept s =
        if_Runs keep keep good (is_modbus_write_success_response f) _ _
          (λ e t q. (
            kept t (normalize_device f.device) q,
            written_state-AllCalls address (known s.serial)
                (get (normalize_device f.device) s.pending_writes),
          ))
          (λ e t q. (q, tt)) s

    pub note_read-Reports :
        (address : ℕ)
        → ((s : Session) (key : List ℕ) → keep s → keep (take_read key s))
        → Runs keep (note_read address f) keep good
    unfolding note_read
    note_read-Reports address kept s =
        if_Runs keep keep good (is_modbus_read_response f) _ _
          (λ e t q. (
            kept t (normalize_device f.device) q,
            read_state-AllCalls address (is_some s.local_control) (known s.serial)
                (get (normalize_device f.device) s.pending_reads)
                (first_value (parse_modbus_read_response f))
                (get (normalize_device f.device) s.readbacks),
          ))
          (λ e t q. (q, tt)) s

    pub note_exception-Reports :
        ((s : Session) (key : List ℕ) → keep s → keep (take_read key s))
        → Runs keep (note_exception f) keep good
    unfolding note_exception
    note_exception-Reports kept s =
        if_Runs keep keep good (is_modbus_read_exception f) _ _
          (λ e t q. (
            kept t (normalize_device f.device) q,
            refused-AllCalls (parse_modbus_read_exception f)
                (get (normalize_device f.device) s.readbacks),
          ))
          (λ e t q. (q, tt)) s
