-- ===== src/LocalControl.antt =====
-- `LocalControl` of foxess_local_cloud/local_control.py: requests that the gateway injects into the
-- inverter's stream, and the answers that settle them. A coroutine that waits is split at its
-- waits: `begin_write` runs up to the wait for the answer, `finish_write` from its end.
pub mod Devices
pub mod Outcome
use foxess_local_gateway.Prelude.{
  ℕ, zero, suc, ◌+◌, ◌/◌, ◌%◌, List, [], ◌∷◌, ◌++◌, take, drop, Bool, true, false, not, Option,
  none, some, Result, ok, err, bit_and, ltb, ◌=b◌, ◌>>=◌, if◌then◌else◌,
}
use foxess_local_gateway.Bytes.{slice}
use foxess_local_gateway.Dict.{get, put, pop, member}
use foxess_local_gateway.Protocol.Frame.{Frame}
use foxess_local_gateway.Protocol.Extract.{marker_7f}
use foxess_local_gateway.Protocol.Modbus.{build_modbus_write_single, build_modbus_read_holding}

unfoldable pub normalize_device : List ℕ → List ℕ
normalize_device [] = []
normalize_device (d0 ∷ rest) = bit_and d0 0x7f ∷ take 3 rest

abbrev pub device_byte_read : ℕ
device_byte_read = 0x11

abbrev pub device_byte_write : ℕ
device_byte_write = 0x12

abbrev pub injected_counter_start : ℕ
injected_counter_start = 0xf000

abbrev pub injected_session_marker : ℕ
injected_session_marker = 0xaa

pub data WriteResult : Type 0 where
  confirmed rejected timeout no_connection : WriteResult

-- The inverter's writer: not attached, attached, or attached and closing.
pub data Writer : Type 0 where
  absent usable closing : Writer

-- Why a register is read: at startup, or after a write for a setpoint or for its re-application.
pub data Source : Type 0 where
  startup setpoint reapply : Source

-- The callbacks `register_pending_read` (key, address, count, expected value, source) and
-- `unregister_pending_read`, over the state `S` of their owner.
pub record Registry (S : Type 0) : Type 0 where
  pub register : List ℕ → ℕ → ℕ → Option ℕ → Source → S → S
  pub unregister : List ℕ → S → S

pub record LocalControl : Type 0 where
  pub counter : ℕ
  pub inverter_writer : Writer
  pub outstanding : List (List ℕ)
  pub pending_writes : List (List ℕ × Option Bool)
  pub cloud_marker_seen : Option ℕ
  -- the bytes given to the writer
  pub written : List (List ℕ)

abbrev pub init : LocalControl
init = record {
  counter = injected_counter_start;
  inverter_writer = absent;
  outstanding = [];
  pending_writes = [];
  cloud_marker_seen = none;
  written = [];
}

unfoldable pub attach_inverter_writer : LocalControl → LocalControl
attach_inverter_writer c = record c { inverter_writer = usable }

-- Whether the event is emitted, beside the state.
unfoldable pub observe_session_marker : ℕ → LocalControl → LocalControl × Bool
observe_session_marker marker c =
    let news : LocalControl × Bool = (record c { cloud_marker_seen = some marker }, true) in
    elim c.cloud_marker_seen [
      | none ↦ news
      | some seen ↦ if (seen ∷ []) =b (marker ∷ []) then (c, false) else news
    ]

-- The device field of the request that the counter names.
unfoldable pub device_for : ℕ → ℕ → List ℕ
device_for op_type counter =
    op_type ∷ counter % 256 ∷ counter / 256 % 256 ∷ injected_session_marker ∷ []

abbrev pub next_counter : ℕ → ℕ
next_counter counter = (counter + 1) % 65536

unfoldable pub is_our_frame : LocalControl → Frame → Bool
is_our_frame c frame =
    if not (frame.start =b marker_7f)
    then false
    else member (normalize_device frame.device) c.outstanding

-- `_send`: whether the bytes went to a writer.
unfoldable pub send : List ℕ → LocalControl → LocalControl × Bool
send bytes c = elim c.inverter_writer [
  | absent ↦ (c, false)
  | closing ↦ (c, false)
  | usable ↦ (record c { written = c.written ++ bytes ∷ [] }, true)
]

-- A write that is under way: settled already, or waiting for the answer with this key.
pub data Begun : Type 0 where
  settled : WriteResult → Begun
  waiting : List ℕ → Begun

abbrev pub register_write : Bool → List ℕ → LocalControl → LocalControl
register_write waits key c =
    if waits
    then record c {
      outstanding = key ∷ c.outstanding;
      pending_writes = put key none c.pending_writes;
    }
    else record c { outstanding = key ∷ c.outstanding }

-- `finally: self._pending_writes.pop(key, None)`
abbrev pub forget_write : List ℕ → LocalControl → LocalControl
forget_write key c = record c { pending_writes = pop key c.pending_writes }

abbrev pub sent_or_not : Bool → List ℕ → LocalControl × Bool → LocalControl × Begun
sent_or_not waits key (c, false) = (forget_write key c, settled no_connection)
sent_or_not true key (c, true) = (c, waiting key)
sent_or_not false key (c, true) = (forget_write key c, settled confirmed)

-- The rest of `write_register` up to its wait, once the frame is built or its building has raised.
abbrev pub write_built :
    Bool → List ℕ → LocalControl → Result (List ℕ) → LocalControl × Result Begun
write_built waits key c (err e) = (c, err e)
write_built waits key c (ok bytes) =
    let (c', begun) = sent_or_not waits key (send bytes (register_write waits key c)) in
    (c', ok begun)

-- `write_register` up to its wait; `waits` is `timeout > 0`. The counter advances first, and an
-- address or a value of more than 16 bits then raises, before anything is registered.
unfoldable pub begin_write : Bool → ℕ → ℕ → LocalControl → LocalControl × Result Begun
begin_write waits address value c =
    let counter = next_counter c.counter in
    let device = device_for device_byte_write counter in
    write_built waits (normalize_device device) (record c { counter = counter })
      (build_modbus_write_single device address value)

-- The result of the future when the wait ends; `none` in it means that the time is over.
abbrev pub outcome : Option (Option Bool) → WriteResult
outcome (some (some true)) = confirmed
outcome (some (some false)) = rejected
outcome _ = timeout

-- `write_register` from the end of its wait.
unfoldable pub finish_write : List ℕ → LocalControl → LocalControl × WriteResult
finish_write key c = (forget_write key c, outcome (get key c.pending_writes))

-- A future is set once.
abbrev pub settle :
    List ℕ → Bool → Option (Option Bool) → List (List ℕ × Option Bool) → List (List ℕ × Option Bool)
settle key ack (some none) pending = put key (some ack) pending
settle key ack _ pending = pending

unfoldable pub resolve_response : List ℕ → Bool → LocalControl → LocalControl
resolve_response device ack c =
    let key = normalize_device device in
    record c { pending_writes = settle key ack (get key c.pending_writes) c.pending_writes }

module _ {S : Type 0} (callbacks : Registry S) where
  abbrev pub read_sent :
      List ℕ → List ℕ → S → LocalControl × Bool → (LocalControl × S) × Option (List ℕ)
  read_sent device key s (c, true) = ((c, s), some device)
  read_sent device key s (c, false) = ((c, callbacks.unregister key s), none)

  -- The rest of `read_holding`, once the frame is built or its building has raised.
  unfoldable pub read_built :
      List ℕ
      → ℕ
      → ℕ
      → Option ℕ
      → Source
      → LocalControl
      → S
      → Result (List ℕ)
      → (LocalControl × S) × Result (Option (List ℕ))
  unfolding send
  read_built device address count expected source c s (err e) = ((c, s), err e)
  read_built device address count expected source c s (ok bytes) =
      let key = normalize_device device in
      let registered = callbacks.register key address count expected source s in
      let (both, sent) =
        read_sent device key registered
          (send bytes (record c { outstanding = key ∷ c.outstanding })) in
      (both, ok sent)

  -- The counter advances first, and an address or a count of more than 16 bits then raises.
  unfoldable pub read_holding :
      ℕ → ℕ → Option ℕ → Source → LocalControl → S → (LocalControl × S) × Result (Option (List ℕ))
  unfolding read_built
  read_holding address count expected source c s =
      let counter = next_counter c.counter in
      let device = device_for device_byte_read counter in
      read_built device address count expected source (record c { counter = counter }) s
        (build_modbus_read_holding device address count)
