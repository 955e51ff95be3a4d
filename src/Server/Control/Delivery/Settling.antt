-- ===== src/Server/Control/Delivery/Settling.antt =====
-- What a session of foxess_local_cloud/server.py writes or reads when it settles.
use mathlib.Core.Path.{subst}
use foxess_local_gateway.Prelude.{
  ℕ, ◌<◌, ◌≡◌, refl, sym, ap, ◌∙◌, arith, List, [], ◌∷◌, ◌++◌, Bool, Option, none, some, Result, ok,
  inl, =b-refl,
}
use foxess_local_gateway.Protocol.Frame.{Frame, parse_frame}
use foxess_local_gateway.Protocol.Modbus.{
  write_single, read_request, parse_modbus_command, build_modbus_read_holding,
}
use foxess_local_gateway.Protocol.Modbus.Requests.{
  write_single_round_trip, request_frame, build_bytes, request_parses, parse_read,
}
use foxess_local_gateway.Dict.{get, get-put}
use foxess_local_gateway.LocalControl.{
  LocalControl, startup, usable, begin_write, send, write_built, device_for, next_counter,
  device_byte_write, device_byte_read, normalize_device, read_built, read_holding,
}
use foxess_local_gateway.Server.PowerLimit.{PowerLimits}
use foxess_local_gateway.Server.PowerLimit.Pending.{Event, unacknowledged}
use foxess_local_gateway.Server.Session.{Session}
use foxess_local_gateway.Server.Control.{known, session_reads, register_pending_read}
use foxess_local_gateway.Server.Control.Setpoint.{
  inapplicable, begin_apply, read_at, read_once, settle_at, settle_control, pending_for, begin_at,
}
use foxess_local_gateway.Server.Control.Delivery.{Flight, Reaches, pending_reached}

module _ (F : Type 0) (address : ℕ) (waits : Bool) where
  built_written :
      (key bytes : List ℕ) (c : LocalControl)
      → c.inverter_writer ≡ usable
      → (write_built waits key c (ok bytes)).0.written ≡ c.written ++ bytes ∷ []
  unfolding send
  built_written key bytes c attached = ground (arith, attached)

  -- One frame with the write goes to the inverter.
  abbrev pub Written : Session → LocalControl → ℕ → Type 0
  Written t c percent =
      (raw : List ℕ) × (f : Frame) × (d : LocalControl) × (parse_frame raw ≡ ok f)
      × (parse_modbus_command f ≡ some (write_single 1 address percent))
      × (t.local_control ≡ some d)
      × (d.written ≡ c.written ++ raw ∷ [])

  begun_Written :
      (percent : ℕ) (t : Session) (c : LocalControl) (serial : List ℕ)
      → c.inverter_writer ≡ usable
      → address < 65536
      → percent < 65536
      → Written (begin_at address waits (some c) (some serial) percent t).0 c percent
  unfolding begin_write device_for
  begun_Written percent t c serial attached ha hp =
      let counter : ℕ = next_counter c.counter in
      let advanced : LocalControl = record c { counter = counter } in
      let device : List ℕ = device_for device_byte_write counter in
      let (raw, f, made, parsed, valid, command_read, form) =
        write_single_round_trip device address percent refl ha hp in
      (
        raw,
        f,
        (begin_write waits address percent c).0,
        parsed,
        command_read,
        refl,
        ap
              (λ (r : Result (List ℕ)).
                (write_built waits (normalize_device device) advanced r).0.written)
              made
            ∙ built_written (normalize_device device) raw advanced attached,
      )

  begin_apply-Written :
      (percent : ℕ) (t : Session) (c : LocalControl) (serial : List ℕ)
      → t.local_control ≡ some c
      → known t.serial ≡ some serial
      → c.inverter_writer ≡ usable
      → address < 65536
      → percent < 65536
      → Written (begin_apply address waits percent t).0 c percent
  unfolding begin_apply
  begin_apply-Written percent t c serial controlled named attached ha hp =
      subst
        (λ (l : Option LocalControl).
          Written (begin_at address waits l (known t.serial) percent t).0 c percent)
        (sym controlled)
        (subst
          (λ (n : Option (List ℕ)).
            Written (begin_at address waits (some c) n percent t).0 c percent)
          (sym named) (begun_Written percent t c serial attached ha hp))

  -- One frame with the read of the register goes to the inverter, and its answer is waited for.
  abbrev pub Asked : Session → LocalControl → Type 0
  Asked t c =
      (raw : List ℕ) × (f : Frame) × (d : LocalControl) × (parse_frame raw ≡ ok f)
      × (parse_modbus_command f ≡ some (read_request 1 3 address 1))
      × (t.local_control ≡ some d)
      × (d.written ≡ c.written ++ raw ∷ [])
      × (get (normalize_device f.device) t.pending_reads ≡ some (address, 1))

  read_sent_through :
      (device raw : List ℕ) (c : LocalControl) (t : Session)
      → c.inverter_writer ≡ usable
      → ((read_built session_reads device address 1 none startup c t (ok raw)).0.0.written
          ≡ c.written ++ raw ∷ [])
        × (get
              (normalize_device device)
              (read_built session_reads device address 1 none startup c t
                (ok raw)).0.1.pending_reads
            ≡ some (address, 1))
  unfolding read_built send register_pending_read
  read_sent_through device raw c t attached =
      let key : List ℕ = normalize_device device in
      ground (arith, attached, get-put key key (address, 1) t.pending_reads, =b-refl key)

  read_at-Asked :
      (t : Session) (c : LocalControl) (serial : List ℕ)
      → c.inverter_writer ≡ usable
      → address < 65536
      → Asked (read_at address waits {F = F} (some c) (some serial) none startup t).0 c
  unfolding read_holding device_for build_modbus_read_holding
  read_at-Asked t c serial attached ha =
      let counter : ℕ = next_counter c.counter in
      let advanced : LocalControl = record c { counter = counter } in
      let device : List ℕ = device_for device_byte_read counter in
      let f : Frame = request_frame 3 device address 1 in
      let through = read_sent_through device f.raw advanced t attached in
      let made = build_bytes 3 device address 1 ha (omega arith) in
      (
        f.raw,
        f,
        (read_holding session_reads address 1 none startup c t).0.0,
        request_parses 3 device address 1 refl,
        parse_read 3 device address 1 (inl refl),
        refl,
        ap
              (λ (r : Result (List ℕ)).
                (read_built session_reads device address 1 none startup advanced t r).0.0.written)
              made
            ∙ through.0,
        ap
              (λ (r : Result (List ℕ)).
                get (normalize_device device)
                  (read_built session_reads device address 1 none startup advanced t
                    r).0.1.pending_reads)
              made
            ∙ through.1,
      )

  read_once-Asked :
      (t : Session) (c : LocalControl) (serial : List ℕ)
      → t.local_control ≡ some c
      → known t.serial ≡ some serial
      → c.inverter_writer ≡ usable
      → address < 65536
      → Asked (read_once address waits {F = F} none startup t).0 c
  unfolding read_once
  read_once-Asked t c serial controlled named attached ha =
      subst
        (λ (l : Option LocalControl).
          Asked (read_at address waits {F = F} l (known t.serial) none startup t).0 c)
        (sym controlled)
        (subst
          (λ (n : Option (List ℕ)).
            Asked (read_at address waits {F = F} (some c) n none startup t).0 c)
          (sym named) (read_at-Asked t c serial attached ha))

  -- What the settling does, by the setpoint that is still unacknowledged: one frame with the write, and
  -- no read; or the read, and no write.
  abbrev pub Settles : Session → LocalControl → PowerLimits → Option ℕ → Type 0
  Settles t c p (some percent) =
      Written (settle_control address waits {F = F} t p).0 c percent
      × ((settle_control address waits {F = F} t p).2 ≡ [])
  Settles t c p none =
      Asked (settle_control address waits {F = F} t p).0 c
      × ((settle_control address waits {F = F} t p).1 ≡ inapplicable)

  -- A value fits a register.
  abbrev pub Fits : Option ℕ → Type 0
  Fits none = Unit
  Fits (some percent) = percent < 65536

  settles :
      (p : PowerLimits) (t : Session) (c : LocalControl) (serial : List ℕ) (o : Option ℕ)
      → pending_for (known t.serial) p ≡ o
      → t.local_control ≡ some c
      → known t.serial ≡ some serial
      → c.inverter_writer ≡ usable
      → address < 65536
      → Fits o
      → Settles t c p o
  unfolding settle_control
  settles p t c serial none same controlled named attached ha hp =
      subst
        (λ (o : Option ℕ).
          Asked (settle_at address waits {F = F} o t).0 c
          × ((settle_at address waits {F = F} o t).1 ≡ inapplicable))
        (sym same) (read_once-Asked t c serial controlled named attached ha, refl)
  settles p t c serial (some percent) same controlled named attached ha hp =
      subst
        (λ (o : Option ℕ).
          Written (settle_at address waits {F = F} o t).0 c percent
          × ((settle_at address waits {F = F} o t).2 ≡ []))
        (sym same) (begin_apply-Written percent t c serial controlled named attached ha hp, refl)

  -- Whatever sessions have done before, with writes confirmed, refused, lost or raised in any order, as
  -- long as none has changed its serial while a write of its own was waiting, a session that settles
  -- writes the value of the serial's last command, unless that command's own
  -- write was confirmed: one frame goes to its attached writer, it parses to the write of that value
  -- to the register, and nothing is read. Without such a command it writes no setpoint: one
  -- frame goes to its attached writer, it parses to the read of that register, and its answer is
  -- pending under the frame's key. The address and the value have 16 bits.
  pub settle_control-Settles :
      (p : PowerLimits) (es : List Event) (fs : List Flight) (t : Session) (c : LocalControl)
      (serial : List ℕ)
      → Reaches F address waits p es fs
      → t.local_control ≡ some c
      → known t.serial ≡ some serial
      → c.inverter_writer ≡ usable
      → address < 65536
      → Fits (unacknowledged serial es)
      → Settles t c p (unacknowledged serial es)
  settle_control-Settles p es fs t c serial reached controlled named attached ha hp =
      settles p t c serial (unacknowledged serial es)
        (pending_reached F address waits p es fs serial (known t.serial) reached named) controlled
        named attached ha hp
