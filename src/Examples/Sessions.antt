-- ===== src/Examples/Sessions.antt =====
-- Runs of a session of foxess_local_cloud/server.py, and of the publisher of foxess_local_cloud/mqtt.py.
use foxess_local_gateway.Prelude.{
  ok, ℕ, ◌≡◌, inl, refl, sym, arith, List, [], ◌∷◌, ◌++◌, append-nil, drop, Bool, true, false, not,
  ◌==◌, some, none,
}
use foxess_local_gateway.Dict
use foxess_local_gateway.Protocol.Crc.{crc16_le}
use foxess_local_gateway.Protocol.Frame.{Frame, make_frame}
use foxess_local_gateway.Protocol.Frame.RoundTrip.{described}
use foxess_local_gateway.Protocol.Bootstrap.{
  is_registration, registration_serial, reply, bootstrap_response,
}
use foxess_local_gateway.Protocol.Modbus.{is_modbus_write_success_response}
use foxess_local_gateway.Protocol.Extract.{marker_7e}
use foxess_local_gateway.Protocol.Extract.Stream.{
  start_7f, SentAs, sent_none, sent_next, extract_frames_stream,
}
use foxess_local_gateway.Protocol.Extract.Pieces.{Pieces, extract_frames-Pieces}
use foxess_local_gateway.LocalControl
use foxess_local_gateway.LocalControl.{
  LocalControl, usable, normalize_device, is_our_frame, timeout, setpoint,
}
use foxess_local_gateway.Server.PowerLimit
use foxess_local_gateway.Server.PowerLimit.Pending.{command, unacknowledged}
use foxess_local_gateway.Server.Session.{Session, init}
use foxess_local_gateway.Server.Session.Rules.{AllCalls}
use foxess_local_gateway.Server.Control.{known}
use foxess_local_gateway.Server.Control.Setpoint.{handle_setpoint, finish_apply}
use foxess_local_gateway.Server.Control.Delivery.{start, commanded, finished}
use foxess_local_gateway.Server.Control.Delivery.Settling.{Settles, settle_control-Settles}
use foxess_local_gateway.Server.Handle.{handle_frame}
use foxess_local_gateway.Server.Handle.Lost.{
  handler_left, all_calls, StaysWired, repeated_registration_loses_handler,
}
use foxess_local_gateway.Server.Handle.Commands.Unwired.{NoHandler}
use foxess_local_gateway.Server.Relay.{ours, relay_read, relay_client_to_upstream}
use foxess_local_gateway.Server.Relay.Silent.{to_cloud, to_inverter, sent}
use foxess_local_gateway.Server.Relay.Transparent.{IsPassive, relay_transparent}
use foxess_local_gateway.Server.Relay.Accounts.{received, Splits}
use foxess_local_gateway.Server.Relay.Removal.{InPlace, Passed}
use foxess_local_gateway.Server.Relay.Owned.{own_answers_withheld}
use foxess_local_gateway.Server.Relay.Downstream.{relay_upstream_to_client, return_read}
use foxess_local_gateway.Server.Relay.Downstream.Withheld.{captured_transfers_withheld}
use foxess_local_gateway.Firmware.Capture
use foxess_local_gateway.Firmware.Variant.{is_firmware_transfer_frame}
use foxess_local_gateway.Server.Relay.Downstream.Returned.{joined_reads, downstream_transparent}
use foxess_local_gateway.Examples.Wire
use foxess_local_gateway.Examples.Wire.{device, end, payload, raw, built}
use foxess_local_gateway.Examples.Requests.{two_values}

abbrev unscaled : ℕ → ℕ → ℕ → ℕ
unscaled v d n = v

abbrev not_zero : ℕ → Bool
not_zero v = not (v == 0)

abbrev serial : List ℕ
serial = b'6' ∷ b'0' ∷ []

abbrev attached : LocalControl
attached = record LocalControl.init { inverter_writer = usable }

-- A session whose read of the register waits for its answer.
abbrev reading : Session
unfolding normalize_device
reading = record (init (some attached) none) {
  serial = some serial;
  command_registered = true;
  pending_reads = (normalize_device two_values.device, (0xca5a, 1)) ∷ [];
  readbacks = (normalize_device two_values.device, (80, setpoint)) ∷ [];
}

abbrev again : Frame
again = record two_values {
  start = marker_7e;
  payload =
      1 ∷ 0 ∷ 1 ∷ 0x31 ∷ 2 ∷ b'6' ∷ b'0' ∷ 0 ∷ 0 ∷ 0 ∷ 0 ∷ 0 ∷ 0 ∷ 0 ∷ 0 ∷ 0 ∷ 0 ∷ 0 ∷ 0 ∷ 0 ∷ 0 ∷ 0
      ∷ 0 ∷ 0 ∷ 0 ∷ 0 ∷ 0 ∷ 0 ∷ [];
}

again_registers : is_registration again ≡ true
unfolding is_registration
again_registers = refl

again_named : known (registration_serial again) ≡ some serial
unfolding registration_serial
again_named = refl

wired : reading.command_registered ≡ true
unfolding reading
wired = refl

abbrev telemetry_later : List (Frame × ℕ)
telemetry_later = (two_values, 8) ∷ []

stays_wired :
    StaysWired ℕ unscaled not_zero 0xca5a true telemetry_later
      (handle_frame unscaled not_zero 0xca5a 7 true again reading).session
unfolding handle_frame reading is_registration registration_serial is_modbus_write_success_response
    reply bootstrap_response make_frame
stays_wired = (refl, tt)

repeated_registration_loses_handler_example :
    (handler_left ℕ serial true
        (all_calls ℕ unscaled not_zero 0xca5a true ((again, 7) ∷ telemetry_later) reading)
      ≡ false)
    × AllCalls (NoHandler ℕ) (
        all_calls ℕ unscaled not_zero 0xca5a true telemetry_later
          (handle_frame unscaled not_zero 0xca5a 7 true again reading).session)
repeated_registration_loses_handler_example =
    repeated_registration_loses_handler ℕ unscaled not_zero 0xca5a true serial again 7
      telemetry_later reading true refl again_registers again_named wired stays_wired

relay_transparent_example :
    Splits
      ([] ++ received ((raw, 5) ∷ ([], 6) ∷ []))
      (sent to_cloud
        (relay_client_to_upstream {F = ℕ} unscaled not_zero 0xca5a []
          ((raw, 5) ∷ ([], 6) ∷ [])
          (init none none)).calls)
      (relay_client_to_upstream {F = ℕ} unscaled not_zero 0xca5a []
        ((raw, 5) ∷ ([], 6) ∷ [])
        (init none none)).result
    × IsPassive
        (relay_client_to_upstream {F = ℕ} unscaled not_zero 0xca5a []
          ((raw, 5) ∷ ([], 6) ∷ [])
          (init none none)).session
relay_transparent_example =
    relay_transparent ℕ unscaled not_zero 0xca5a [] ((raw, 5) ∷ ([], 6) ∷ []) (init none none)
      (refl, tt)

downstream_transparent_example :
    Splits
      ([] ++ joined_reads (raw ∷ [] ∷ []))
      (sent to_inverter
        (relay_upstream_to_client {F = ℕ}
          (λ b. true)
          true
          true
          (λ n. n)
          []
          (raw ∷ [] ∷ [])
          (init (some attached) none)).calls)
      (relay_upstream_to_client {F = ℕ}
        (λ b. true)
        true
        true
        (λ n. n)
        []
        (raw ∷ [] ∷ [])
        (init (some attached) none)).result
downstream_transparent_example =
    downstream_transparent ℕ (λ b. true) true true (λ n. n) [] (raw ∷ [] ∷ [])
      (init (some attached) none) refl

once : SentAs raw (described Wire.start device 0 payload end ∷ [])
once = sent_next start_7f refl built sent_none (sym (append-nil raw))

extract_frames-Pieces_example : Pieces raw (described Wire.start device 0 payload end ∷ []) []
extract_frames-Pieces_example =
    extract_frames-Pieces raw (described Wire.start device 0 payload end ∷ []) [] (
      extract_frames_stream raw (described Wire.start device 0 payload end ∷ []) once
        (omega arith, tt))

-- A session that has written to the register with this device field.
abbrev writing : Session
unfolding normalize_device
writing = init (some (record attached { outstanding = normalize_device device ∷ [] })) none

abbrev own : Frame
own = described Wire.start device 0 payload end

abbrev foreign_device : List ℕ
foreign_device = 3 ∷ 1 ∷ 2 ∷ 4 ∷ []

-- A frame that answers no request of the gateway.
abbrev foreign : Frame
foreign = described Wire.start foreign_device 0 payload end

foreign_built : make_frame Wire.start foreign_device 0 payload end ≡ ok foreign.raw
unfolding make_frame
foreign_built = refl

foreign_and_own : SentAs (foreign.raw ++ own.raw) (foreign ∷ own ∷ [])
foreign_and_own = sent_next start_7f refl foreign_built once refl

-- The first two bytes came with an earlier read.
abbrev second_read : List ℕ
second_read = drop 2 foreign.raw ++ own.raw

abbrev mixed_read : List (List ℕ × Frame)
mixed_read = ([], foreign) ∷ ([], own) ∷ []

mixed_InPlace : InPlace (ours writing.local_control) [] mixed_read []
unfolding writing is_our_frame Dict.member normalize_device crc16_le
mixed_InPlace = (tt, (refl, tt))

own_answers_withheld_example :
    Passed foreign.raw []
      (sent to_cloud
        (relay_read {F = ℕ} unscaled not_zero 0xca5a 5 Wire.start second_read writing).calls)
      (relay_read {F = ℕ} unscaled not_zero 0xca5a 5 Wire.start second_read writing).result
unfolding writing is_our_frame Dict.member normalize_device crc16_le
own_answers_withheld_example =
    own_answers_withheld ℕ unscaled not_zero 0xca5a 5 Wire.start second_read [] [] mixed_read
      writing
      (extract_frames_stream (foreign.raw ++ own.raw) (foreign ∷ own ∷ []) foreign_and_own
        (omega arith, (omega arith, tt)))
      refl mixed_InPlace tt

-- An inverter whose setpoint was commanded and written, and whose answer did not come.
abbrev settled : Session
settled = record (init (some attached) none) { serial = some serial }

settle_control-Settles_example :
    Settles ℕ 0xca5a true settled attached
      (finish_apply 0xca5a true {F = ℕ} 80 1 setpoint
        (some timeout)
        (settled, (handle_setpoint 0xca5a true 80 settled PowerLimit.init).0.1)).0.1
      (unacknowledged serial (command serial 80 ∷ []))
unfolding handle_setpoint Dict.get
settle_control-Settles_example =
    settle_control-Settles ℕ 0xca5a true
      (finish_apply 0xca5a true {F = ℕ} 80 1 setpoint (some timeout)
        (settled, (handle_setpoint 0xca5a true 80 settled PowerLimit.init).0.1)).0.1
      (command serial 80 ∷ [])
      ((serial, (80, (handle_setpoint 0xca5a true 80 settled PowerLimit.init).2)) ∷ []) settled
      attached serial
      (finished (handle_setpoint 0xca5a true 80 settled PowerLimit.init).0.1
        (command serial 80 ∷ [])
        ((serial, (80, (handle_setpoint 0xca5a true 80 settled PowerLimit.init).2)) ∷ []) settled
        serial 80 1 setpoint (some timeout)
        (commanded PowerLimit.init [] [] settled attached serial 80 start refl refl) (inl refl)
        refl)
      refl refl refl (omega arith) (omega arith)

-- A chunk of a firmware transfer.
abbrev chunk : Frame
chunk = described Wire.start device 0xa2 (0xfa ∷ 0x6b ∷ 0x7c ∷ 0x7a ∷ 0x4d ∷ 0 ∷ 0 ∷ 5 ∷ []) end

chunk_built :
    make_frame Wire.start device 0xa2 (0xfa ∷ 0x6b ∷ 0x7c ∷ 0x7a ∷ 0x4d ∷ 0 ∷ 0 ∷ 5 ∷ []) end
    ≡ ok chunk.raw
unfolding make_frame
chunk_built = refl

own_and_chunk : SentAs (own.raw ++ chunk.raw) (own ∷ chunk ∷ [])
own_and_chunk =
    sent_next start_7f refl built
      (sent_next start_7f refl chunk_built sent_none (sym (append-nil chunk.raw))) refl

abbrev chunk_read : List (List ℕ × Frame)
chunk_read = ([], own) ∷ ([], chunk) ∷ []

chunk_InPlace : InPlace is_firmware_transfer_frame [] chunk_read []
unfolding is_firmware_transfer_frame crc16_le
chunk_InPlace = (tt, (refl, tt))

captured_transfers_withheld_example :
    Passed own.raw []
      (sent to_inverter
        (return_read {F = ℕ}
          (λ b. true)
          true
          true
          (λ n. n)
          Wire.start
          (drop 2 own.raw ++ chunk.raw)
          (init none (some Capture.init))).calls)
      (return_read {F = ℕ}
        (λ b. true)
        true
        true
        (λ n. n)
        Wire.start
        (drop 2 own.raw ++ chunk.raw)
        (init none (some Capture.init))).result
unfolding is_firmware_transfer_frame crc16_le
captured_transfers_withheld_example =
    captured_transfers_withheld ℕ (λ b. true) true true (λ n. n) Wire.start
      (drop 2 own.raw ++ chunk.raw) [] [] chunk_read (init none (some Capture.init)) Capture.init
      (extract_frames_stream (own.raw ++ chunk.raw) (own ∷ chunk ∷ []) own_and_chunk
        (omega arith, (omega arith, tt)))
      refl chunk_InPlace refl
