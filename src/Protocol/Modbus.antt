-- ===== src/Protocol/Modbus.antt =====
-- The Modbus PDUs that foxess_local_cloud/protocol.py carries in 7f frames: builders, parsers and
-- classification.
pub mod Requests
pub mod Responses
use foxess_local_gateway.Prelude.{
  ℕ, zero, suc, ◌+◌, ◌*◌, ◌/◌, ◌%◌, List, [], ◌∷◌, ◌++◌, length, get_or, Bool, true, false, ◌&&◌,
  ◌||◌, not, Option, none, some, Result, bit_and, bit_or, leb, ltb, ◌==◌, ◌=b◌, ◌>>=◌,
  if◌then◌else◌,
}
use foxess_local_gateway.Bytes.{slice, from_bytes, to_bytes}
use foxess_local_gateway.Protocol.Frame.{Frame, make_frame}
use foxess_local_gateway.Protocol.Extract.{marker_7f}

abbrev pub end_7f : List ℕ
end_7f = 0xf7 ∷ 0xf7 ∷ []

abbrev pub modbus_fn_read_holding : ℕ
modbus_fn_read_holding = 0x03

abbrev pub modbus_fn_read_input : ℕ
modbus_fn_read_input = 0x04

abbrev pub modbus_fn_write_single : ℕ
modbus_fn_write_single = 0x06

abbrev pub modbus_fn_write_multiple : ℕ
modbus_fn_write_multiple = 0x10

abbrev pub command_envelope_func : ℕ
command_envelope_func = 0xe2

abbrev pub injected_device_marker : ℕ
injected_device_marker = 0x7f

-- `fn in MODBUS_FUNCTIONS`
abbrev pub in_modbus_functions : ℕ → Bool
in_modbus_functions fn =
    fn == modbus_fn_read_holding
    || fn == modbus_fn_read_input
    || fn == modbus_fn_write_single
    || fn == modbus_fn_write_multiple

-- `payload[i]`, where the code has tested that the payload is long enough.
abbrev pub byte_at : Frame → ℕ → ℕ
byte_at frame i = get_or frame.payload i 0

unfoldable pub is_injected_device : List ℕ → Bool
is_injected_device device =
    leb 1 (length device) && bit_and (get_or device 0 0) 0x7f == injected_device_marker

-- The three builders differ in the function byte only.
unfoldable pub build_modbus : ℕ → List ℕ → ℕ → ℕ → Result (List ℕ)
build_modbus function device address word = do
  a ← to_bytes 2 address
  w ← to_bytes 2 word
  make_frame marker_7f device command_envelope_func (0x01 ∷ function ∷ (a ++ w)) end_7f

unfoldable pub build_modbus_write_single : List ℕ → ℕ → ℕ → Result (List ℕ)
unfolding build_modbus
build_modbus_write_single = build_modbus modbus_fn_write_single

unfoldable pub build_modbus_read_holding : List ℕ → ℕ → ℕ → Result (List ℕ)
unfolding build_modbus
build_modbus_read_holding = build_modbus modbus_fn_read_holding

unfoldable pub build_modbus_read_input : List ℕ → ℕ → ℕ → Result (List ℕ)
unfolding build_modbus
build_modbus_read_input = build_modbus modbus_fn_read_input

unfoldable pub is_modbus_command : Frame → Bool
is_modbus_command frame =
    if not (frame.start =b marker_7f) || ltb (length frame.payload) 6
    then false
    else in_modbus_functions (byte_at frame 1)

-- The dictionaries that `parse_modbus_command` returns; `none` is the empty one.
pub data Pdu : Type 0 where
  read_request : (slave function address count : ℕ) → Pdu
  write_single : (slave address value : ℕ) → Pdu
  write_multiple : (slave address count byte_count : ℕ) → List ℕ → Pdu

-- The values of a write-multiple: up to `count` 16-bit words, while two bytes are left.
unfoldable pub take_words : ℕ → List ℕ → List ℕ
take_words zero data_bytes = []
take_words (suc n) (hi ∷ lo ∷ rest) = (hi * 256 + lo) ∷ take_words n rest
take_words (suc n) data_bytes = []

unfoldable pub parse_modbus_command : Frame → Option Pdu
unfolding is_modbus_command
parse_modbus_command frame =
    let payload = frame.payload in
    let slave = byte_at frame 0 in
    let function = byte_at frame 1 in
    let address = from_bytes (slice 2 4 payload) in
    let word = from_bytes (slice 4 6 payload) in
    if not (is_modbus_command frame)
    then none
    else if function == modbus_fn_read_holding || function == modbus_fn_read_input
    then some (read_request slave function address word)
    else if function == modbus_fn_write_single
    then some (write_single slave address word)
    else if function == modbus_fn_write_multiple && leb 7 (length payload)
    then some (
        write_multiple slave address word (byte_at frame 6)
          (take_words word (slice 7 (length payload) payload)))
    else none

-- `parse_modbus_command(frame).get("function") == MODBUS_FN_WRITE_SINGLE`
abbrev pub is_write_single : Option Pdu → Bool
is_write_single (some (write_single s a v)) = true
is_write_single _ = false

unfoldable pub is_modbus_write_success_response : Frame → Bool
unfolding parse_modbus_command
is_modbus_write_success_response frame =
    if not (frame.start =b marker_7f)
    then false
    else if is_write_single (parse_modbus_command frame)
    then true
    else length frame.payload == 2 && byte_at frame 1 == modbus_fn_write_single

unfoldable pub is_modbus_read_response : Frame → Bool
is_modbus_read_response frame =
    let fn = byte_at frame 1 in
    let bc = byte_at frame 2 in
    if not (frame.start =b marker_7f) || ltb (length frame.payload) 5
    then false
    else if not (fn == modbus_fn_read_holding || fn == modbus_fn_read_input)
    then false
    else ltb 0 bc && bc % 2 == 0 && length frame.payload == 3 + bc

pub record ReadResponse : Type 0 where
  pub slave : ℕ
  pub function : ℕ
  pub byte_count : ℕ
  pub values : List ℕ

-- `[payload[3 + i * 2 : 5 + i * 2] for i in range(n)]` as numbers.
unfoldable pub words_at : List ℕ → ℕ → ℕ → List ℕ
words_at payload base zero = []
words_at payload base (suc n) =
    from_bytes (slice base (base + 2) payload) ∷ words_at payload (base + 2) n

unfoldable pub parse_modbus_read_response : Frame → Option ReadResponse
unfolding is_modbus_read_response words_at
parse_modbus_read_response frame =
    let bc = byte_at frame 2 in
    if not (is_modbus_read_response frame)
    then none
    else some (record {
      slave = byte_at frame 0;
      function = byte_at frame 1;
      byte_count = bc;
      values = words_at frame.payload 3 (bc / 2);
    })

unfoldable pub is_modbus_read_exception : Frame → Bool
is_modbus_read_exception frame =
    frame.start =b marker_7f
    && length frame.payload == 3
    && (byte_at frame 1 == bit_or modbus_fn_read_holding 0x80
        || byte_at frame 1 == bit_or modbus_fn_read_input 0x80)

pub record ReadException : Type 0 where
  pub slave : ℕ
  pub function : ℕ
  pub exception_code : ℕ

unfoldable pub parse_modbus_read_exception : Frame → Option ReadException
unfolding is_modbus_read_exception
parse_modbus_read_exception frame =
    if not (is_modbus_read_exception frame)
    then none
    else some (record {
      slave = byte_at frame 0;
      function = bit_and (byte_at frame 1) 0x7f;
      exception_code = byte_at frame 2;
    })
