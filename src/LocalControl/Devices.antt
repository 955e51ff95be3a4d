-- ===== src/LocalControl/Devices.antt =====
-- The keys of injected requests: fresh for 65536 requests, and shared with the inverter's echo.
use foxess_local_gateway.Prelude.{
  ℕ, ◌/◌, ◌%◌, ◌<◌, ◌≡◌, refl, ap, sym, ◌∙◌, arith, List, [], ◌∷◌, Bool, true, false, bit_and,
  bit_or, =b-refl, ok, err, Result, ◌⊎◌, inl, inr,
}
use foxess_local_gateway.Bits.{bit_and-low7, bit_or_top}
use foxess_local_gateway.Dict.{member}
use foxess_local_gateway.Protocol.Frame.{Frame}
use foxess_local_gateway.Protocol.Extract.{marker_7f}
use foxess_local_gateway.LocalControl.{
  LocalControl, normalize_device, device_for, next_counter, is_our_frame, Begun, write_built,
  begin_write, send, register_write, sent_or_not, device_byte_write, injected_session_marker,
}

key_bytes :
    (op counter : ℕ)
    → normalize_device (device_for op counter)
      ≡ op % 128 ∷ counter % 256 ∷ counter / 256 % 256 ∷ injected_session_marker ∷ []
unfolding normalize_device device_for
key_bytes op counter = rw bit_and-low7

-- Requests with counters below 65536 and operation bytes below 128 have the same key only if they
-- have the same operation and the same counter.
pub keys_distinct :
    (op op' counter counter' : ℕ)
    → op < 128
    → op' < 128
    → counter < 65536
    → counter' < 65536
    → normalize_device (device_for op counter) ≡ normalize_device (device_for op' counter')
    → (op ≡ op') × (counter ≡ counter')
keys_distinct op op' n n' h h' b b' e = parts (sym (key_bytes op n) ∙ e ∙ key_bytes op' n')
  where
    parts :
        op % 128 ∷ n % 256 ∷ n / 256 % 256 ∷ injected_session_marker ∷ []
          ≡ op' % 128 ∷ n' % 256 ∷ n' / 256 % 256 ∷ injected_session_marker ∷ []
        → (op ≡ op') × (n ≡ n')
    parts p = (ground arith, ground arith)

-- The inverter's echo, with bit 7 of the first byte set, has the key of the request.
pub echo_same_key :
    (d0 : ℕ) (rest : List ℕ)
    → d0 < 256
    → normalize_device (bit_or d0 0x80 ∷ rest) ≡ normalize_device (d0 ∷ rest)
unfolding normalize_device
echo_same_key d0 rest h =
    let e : bit_and (bit_or d0 0x80) 0x7f ≡ bit_and d0 0x7f =
      bit_and-low7 (bit_or d0 0x80) ∙ rw (bit_or_top d0 h) (omega arith) ∙ sym (bit_and-low7 d0) in
    rw e

registered :
    (waits : Bool) (key : List ℕ) (c : LocalControl)
    → member key (register_write waits key c).outstanding ≡ true
unfolding member
registered true key c = rw (=b-refl key)
registered false key c = rw (=b-refl key)

send_outstanding :
    (bytes : List ℕ) (c : LocalControl) → (send bytes c).0.outstanding ≡ c.outstanding
unfolding send
send_outstanding bytes c = ground arith

sent_or_not_outstanding :
    (waits : Bool) (key : List ℕ) (p : LocalControl × Bool)
    → (sent_or_not waits key p).0.outstanding ≡ p.0.outstanding
sent_or_not_outstanding true key (c, true) = refl
sent_or_not_outstanding true key (c, false) = refl
sent_or_not_outstanding false key (c, true) = refl
sent_or_not_outstanding false key (c, false) = refl

built_outstanding :
    (waits : Bool) (key : List ℕ) (c : LocalControl) (r : Result (List ℕ)) (c' : LocalControl)
    (b : Begun)
    → write_built waits key c r ≡ (c', ok b)
    → member key c'.outstanding ≡ true
built_outstanding waits key c (err e) c' b h = absurd (ground arith)
built_outstanding waits key c (ok bytes) c' b h =
    let sent : LocalControl × Bool = send bytes (register_write waits key c) in
    let last : (sent_or_not waits key sent).0 ≡ c' =
      ap (λ (p : LocalControl × Result Begun). p.0) h in
    ap (λ (x : LocalControl). member key x.outstanding) (sym last)
    ∙ ap (member key) (
        sent_or_not_outstanding waits key sent
        ∙ send_outstanding bytes (register_write waits key c))
    ∙ registered waits key c

-- Once a write was begun, sent or not, a 7f frame with its device field is recognised as ours, and so
-- is one with the echoed device field, whose first byte has bit 7 set.
pub request_recognised :
    (waits : Bool) (address value : ℕ) (c c' : LocalControl) (b : Begun) (f : Frame) (op : ℕ)
    → begin_write waits address value c ≡ (c', ok b)
    → f.start ≡ marker_7f
    → (op ≡ device_byte_write) ⊎ (op ≡ bit_or device_byte_write 0x80)
    → f.device ≡ device_for op (next_counter c.counter)
    → is_our_frame c' f ≡ true
unfolding begin_write is_our_frame
request_recognised waits address value c c' b f op h s o d =
    let n : ℕ = next_counter c.counter in
    let key : List ℕ = normalize_device (device_for device_byte_write n) in
    let known : member key c'.outstanding ≡ true =
      built_outstanding waits key (record c { counter = n }) _ c' b h in
    let same : normalize_device f.device ≡ key = ap normalize_device d ∙ echoed o in
    rw (s, same, known)
  where
    echoed :
        (op ≡ device_byte_write) ⊎ (op ≡ bit_or device_byte_write 0x80)
        → normalize_device (device_for op (next_counter c.counter))
          ≡ normalize_device (device_for device_byte_write (next_counter c.counter))
    echoed (inl e) = rw e
    echoed (inr e) = rw e (
        key_bytes (bit_or device_byte_write 0x80) (next_counter c.counter)
        ∙ sym (key_bytes device_byte_write (next_counter c.counter)))
