-- ===== src/Server/Control/Delivery.antt =====
-- Setpoints against the history of commands and acknowledgements, over the sessions of
-- foxess_local_cloud/server.py that share the application's tables.
pub mod Settling
use mathlib.Core.Path.{subst}
use foxess_local_gateway.Prelude.{
  ℕ, ◌+◌, ◌≤◌, ◌<◌, ◌≡◌, refl, sym, ap, ◌∙◌, arith, List, [], ◌∷◌, ◌++◌, length, Bool, true, false,
  Option, none, some, Result, ok, err, ◌==◌, ◌=b◌, =b-refl, ◌⊎◌, inl, inr, if◌then◌else◌,
}
use foxess_local_gateway.Protocol.Frame.{Frame, parse_frame}
use foxess_local_gateway.Protocol.Modbus.{
  write_single, parse_modbus_command, build_modbus_write_single,
}
use foxess_local_gateway.Protocol.Modbus.Requests.{write_single_round_trip}
use foxess_local_gateway.LocalControl.{
  LocalControl, Source, startup, WriteResult, confirmed, Writer, usable, begin_write, send,
  register_write, sent_or_not, write_built, device_for, next_counter, device_byte_write,
  normalize_device,
}
use foxess_local_gateway.Server.PowerLimit.{
  PowerLimits, init, set_desired, mark_applied, pending, current_generation,
}
use foxess_local_gateway.Server.PowerLimit.Pending.{
  Event, command, acknowledged, after, commands, unacknowledged, IsHistory, pending_refines,
  current_generation_lem, set_desired_generation,
}
use foxess_local_gateway.Server.Session.{Session, Call}
use foxess_local_gateway.Server.Control.{known, serial_or_empty}
use foxess_local_gateway.Server.Control.Setpoint.{
  Applying, inapplicable, handle_setpoint, begin_apply, finish_apply, read_once, settle_at,
  settle_control, is_confirmed, pending_for, begin_at, set_at,
}

-- A write that was begun: the serial, the value, the generation.
abbrev pub Flight : Type 0
Flight = List ℕ × (ℕ × ℕ)

abbrev pub InFlight : Flight → List Flight → Type 0
InFlight x [] = ⊥
InFlight x (y ∷ ys) = (x ≡ y) ⊎ InFlight x ys

-- What the end of a write adds to the history.
abbrev pub finishing : List ℕ → ℕ → ℕ → Option WriteResult → List Event → List Event
finishing serial percent g (some confirmed) es = acknowledged serial percent g ∷ es
finishing serial percent g outcome es = es

module _ (F : Type 0) (address : ℕ) (waits : Bool) where
  -- What any number of sessions, one after the other or at once, do to the tables: a command from
  -- MQTT; the settling of a session; and the end, in any order or never, of a write that was begun, in
  -- a session that still has the serial for which it was begun.
  pub data Reaches : PowerLimits → List Event → List Flight → Type 0 where
    start : Reaches init [] []
    commanded :
        (p : PowerLimits) (es : List Event) (fs : List Flight) (s : Session) (c : LocalControl)
        (serial : List ℕ) (percent : ℕ)
        → Reaches p es fs
        → s.local_control ≡ some c
        → known s.serial ≡ some serial
        → Reaches
            (handle_setpoint address waits percent s p).0.1
            (command serial percent ∷ es)
            ((serial, (percent, (handle_setpoint address waits percent s p).2)) ∷ fs)
    settling :
        (p : PowerLimits) (es : List Event) (fs : List Flight) (serial : List ℕ) (percent : ℕ)
        → Reaches p es fs
        → pending serial p ≡ some percent
        → Reaches p es ((serial, (percent, current_generation serial p)) ∷ fs)
    finished :
        (p : PowerLimits) (es : List Event) (fs : List Flight) (s : Session) (serial : List ℕ)
        (percent g : ℕ) (source : Source) (outcome : Option WriteResult)
        → Reaches p es fs
        → InFlight (serial, (percent, g)) fs
        → known s.serial ≡ some serial
        → Reaches
            (finish_apply address waits {F = F} percent g source outcome (s, p)).0.1
            (finishing serial percent g outcome es)
            fs

  abbrev AllIssued : List Event → List Flight → Type 0
  AllIssued es fs =
      (serial : List ℕ) (percent g : ℕ)
      → InFlight (serial, (percent, g)) fs
      → g ≤ commands serial es

  -- The tables are those of the history, and every write in flight has a generation handed out.
  record IsTracked (p : PowerLimits) (es : List Event) (fs : List Flight) : Type 0 where
    tables : p ≡ after es
    history : IsHistory es
    issued : AllIssued es fs

  set_at_tables :
      (local : Option LocalControl) (named : Option (List ℕ)) (c : LocalControl) (serial : List ℕ)
      (percent : ℕ) (s : Session) (p : PowerLimits)
      → local ≡ some c
      → named ≡ some serial
      → ((set_at address waits local named percent s p).0.1 ≡ (set_desired serial percent p).0)
        × ((set_at address waits local named percent s p).2 ≡ (set_desired serial percent p).1)
  set_at_tables none named c serial percent s p h k = absurd (ground arith)
  set_at_tables (some d) none c serial percent s p h k = absurd (ground arith)
  set_at_tables (some d) (some name) c serial percent s p h k = (
    ap (λ (x : Option (List ℕ)). (set_at address waits (some d) x percent s p).0.1) k,
    ap (λ (x : Option (List ℕ)). (set_at address waits (some d) x percent s p).2) k,
  )

  handle_setpoint_tables :
      (c : LocalControl) (serial : List ℕ) (percent : ℕ) (s : Session) (p : PowerLimits)
      → s.local_control ≡ some c
      → known s.serial ≡ some serial
      → ((handle_setpoint address waits percent s p).0.1 ≡ (set_desired serial percent p).0)
        × ((handle_setpoint address waits percent s p).2 ≡ (set_desired serial percent p).1)
  unfolding handle_setpoint
  handle_setpoint_tables c serial percent s p h k =
      set_at_tables s.local_control (known s.serial) c serial percent s p h k

  known_key :
      (o : Option (List ℕ)) (serial : List ℕ) → known o ≡ some serial → serial_or_empty o ≡ serial
  known_key none serial h = absurd (ground arith)
  known_key (some []) serial h = absurd (ground arith)
  known_key (some (x ∷ xs)) serial h = ground arith

  finish_apply_tables :
      (s : Session) (serial : List ℕ) (percent g : ℕ) (source : Source)
      (outcome : Option WriteResult) (es : List Event)
      → known s.serial ≡ some serial
      → (finish_apply address waits {F = F} percent g source outcome (s, after es)).0.1
        ≡ after (finishing serial percent g outcome es)
  unfolding finish_apply
  finish_apply_tables s serial percent g source outcome es named =
      ground (arith, known_key s.serial serial named)

  older :
      (j serial : List ℕ) (percent : ℕ) (es : List Event)
      → commands serial es ≤ commands serial (command j percent ∷ es)
  older j serial percent es = ground arith

  commanded-AllIssued :
      (serial : List ℕ) (percent g : ℕ) (es : List Event) (fs : List Flight)
      → g ≡ commands serial (command serial percent ∷ es)
      → AllIssued es fs
      → AllIssued (command serial percent ∷ es) ((serial, (percent, g)) ∷ fs)
  commanded-AllIssued serial percent g es fs h all j v n (inl same) = omega (
    arith,
    ap (λ (x : Flight). x.1.1) same,
    h,
    ap (λ (x : Flight). commands x.0 (command serial percent ∷ es)) same,
  )
  commanded-AllIssued serial percent g es fs h all j v n (inr later) =
      omega (arith, all j v n later, older serial j percent es)

  finishing-IsHistory :
      (serial : List ℕ) (percent g : ℕ) (outcome : Option WriteResult) (es : List Event)
      → g ≤ commands serial es
      → IsHistory es
      → IsHistory (finishing serial percent g outcome es)
  finishing-IsHistory serial percent g outcome es h k = ground arith

  commands-finishing :
      (j serial : List ℕ) (percent g : ℕ) (outcome : Option WriteResult) (es : List Event)
      → commands j (finishing serial percent g outcome es) ≡ commands j es
  commands-finishing j serial percent g outcome es = ground arith

  reached-IsTracked :
      (p : PowerLimits) (es : List Event) (fs : List Flight) → Reaches p es fs → IsTracked p es fs
  reached-IsTracked p es fs start = record {
    tables = refl;
    history = tt;
    issued = λ serial percent g h. absurd h;
  }
  reached-IsTracked p es fs (commanded q hs gs s c serial percent before controlled named) =
      let t : IsTracked q hs gs = reached-IsTracked q hs gs before in
      let made = handle_setpoint_tables c serial percent s q controlled named in
      record {
        tables = made.0 ∙ ap (λ (x : PowerLimits). (set_desired serial percent x).0) t.tables;
        history = t.history;
        issued =
            commanded-AllIssued serial percent _ hs gs
              (made.1
                ∙ ap (λ (x : PowerLimits). (set_desired serial percent x).1) t.tables
                ∙ set_desired_generation serial percent hs t.history)
              t.issued;
      }
  reached-IsTracked p es fs (settling q hs gs serial percent before waiting) =
      let t : IsTracked q hs gs = reached-IsTracked q hs gs before in
      record {
        tables = t.tables;
        history = t.history;
        issued =
            settled
              (ap (current_generation serial) t.tables ∙ current_generation_lem serial hs t.history)
              t.issued;
      }
    where
      settled :
          current_generation serial q ≡ commands serial hs
          → AllIssued hs gs
          → AllIssued hs ((serial, (percent, current_generation serial q)) ∷ gs)
      settled now all j v n (inl same) =
          omega
            (arith, ap (λ (x : Flight). x.1.1) same, now, ap (λ (x : Flight). commands x.0 hs) same)
      settled now all j v n (inr later) = all j v n later
  reached-IsTracked p es fs
        (finished q hs gs s serial percent g source outcome before flying named) =
      let t : IsTracked q hs gs = reached-IsTracked q hs gs before in
      record {
        tables =
            ap
              (λ (x : PowerLimits).
                (finish_apply address waits {F = F} percent g source outcome (s, x)).0.1)
              t.tables
            ∙ finish_apply_tables s serial percent g source outcome hs named;
        history =
            finishing-IsHistory serial percent g outcome hs (t.issued serial percent g flying)
              t.history;
        issued = λ j v n h.
            subst (λ (x : ℕ). n ≤ x) (sym (commands-finishing j serial percent g outcome hs))
              (t.issued j v n h);
      }

  pub pending_reached :
      (p : PowerLimits) (es : List Event) (fs : List Flight) (serial : List ℕ)
      (named : Option (List ℕ))
      → Reaches p es fs
      → named ≡ some serial
      → pending_for named p ≡ unacknowledged serial es
  pending_reached p es fs serial named reached h =
      let t : IsTracked p es fs = reached-IsTracked p es fs reached in
      ap (λ (x : Option (List ℕ)). pending_for x p) h
      ∙ ap (pending serial) t.tables
      ∙ pending_refines serial es t.history
