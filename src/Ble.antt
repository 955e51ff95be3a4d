-- ===== src/Ble.antt =====
-- The frames of foxess_local_cloud/ble_provision.py. Text is passed in encoded, `encode("utf-8")`
-- being Python's; `decode` stands for `decode("utf-8", errors="replace")`.
pub mod Scan
use foxess_local_gateway.Prelude.{
  ℕ, zero, suc, ◌+◌, ◌-◌, List, [], ◌∷◌, ◌++◌, length, get_elem?, drop, Bool, true, false, not,
  ◌&&◌, ◌||◌, Option, none, some, Result, ok, err, value_error, leb, ltb, ◌==◌, ◌=b◌, ◌>>=◌,
  if◌then◌else◌,
}
use foxess_local_gateway.Bytes.{slice}
use foxess_local_gateway.Telemetry.{ℤ, pos, negsuc}
use foxess_local_gateway.Protocol.Frame.{Frame, single_byte, make_frame}
use foxess_local_gateway.Protocol.Extract.{marker_7f}
use foxess_local_gateway.Protocol.Bootstrap.{bootstrap_response_device}

abbrev pub mfg_sig : List ℕ
mfg_sig = 0x03 ∷ 0xf3 ∷ 0xba ∷ 0x40 ∷ []

abbrev pub alt_high_byte : ℕ
alt_high_byte = 0x3a

abbrev pub set_creds_high_byte : ℕ
set_creds_high_byte = 0x3b

abbrev pub fn_scan : ℕ
fn_scan = 0xa1

abbrev pub fn_select : ℕ
fn_select = 0xad

abbrev pub fn_set_creds : ℕ
fn_set_creds = 0xae

abbrev pub fn_commit : ℕ
fn_commit = 0xb1

unfoldable pub derive_device_tail : Frame → Result (List ℕ)
unfolding bootstrap_response_device
derive_device_tail registration = do
  device ← bootstrap_response_device registration.device 0
  ok (drop 1 device)

unfoldable pub alt_frame : List ℕ → ℕ → List ℕ → Result (List ℕ)
unfolding make_frame
alt_frame device func payload = make_frame marker_7f device func payload (0xf7 ∷ 0xf7 ∷ [])

unfoldable pub make_scan_request : List ℕ → Result (List ℕ)
unfolding alt_frame
make_scan_request tail = alt_frame (alt_high_byte ∷ tail) fn_scan (0x06 ∷ [])

unfoldable pub make_select_request : List ℕ → Result (List ℕ)
unfolding alt_frame
make_select_request tail = alt_frame (alt_high_byte ∷ tail) fn_select (0x09 ∷ [])

unfoldable pub make_set_credentials : List ℕ → List ℕ → List ℕ → Result (List ℕ)
unfolding alt_frame
make_set_credentials tail ssid_bytes pass_bytes =
    if not (leb 1 (length ssid_bytes) && leb (length ssid_bytes) 32)
    then err value_error
    else if not (leb 8 (length pass_bytes) && leb (length pass_bytes) 63)
    then err value_error
    else (do
      ssid_len ← single_byte (length ssid_bytes)
      pass_len ← single_byte (length pass_bytes)
      alt_frame (set_creds_high_byte ∷ tail) fn_set_creds
          (mfg_sig ++ (ssid_len ++ (ssid_bytes ++ (pass_len ++ pass_bytes)))))

unfoldable pub make_commit : List ℕ → Result (List ℕ)
unfolding alt_frame
make_commit tail = alt_frame (alt_high_byte ∷ tail) fn_commit (0x04 ∷ [])

-- A signed byte.
abbrev pub rssi_of : ℕ → ℤ
rssi_of b = if ltb 127 b then negsuc (255 - b) else pos b

module _ (S : Type 0) (decode : List ℕ → S) where
  pub record ScannedNetwork : Type 0 where
    pub ssid : S
    pub rssi : ℤ

  -- The loop over at most `n` records, from what is left of the body on; the code keeps the offset of
  -- what is left instead.
  unfoldable pub scan_records : ℕ → List ℕ → List ScannedNetwork
  scan_records zero rest = []
  scan_records (suc n) [] = []
  scan_records (suc n) (rec_len ∷ []) = []
  scan_records (suc n) (rec_len ∷ rssi_byte ∷ rest) =
      let others = scan_records n (drop rec_len (rssi_byte ∷ rest)) in
      if ltb rec_len 1 || ltb (length (rssi_byte ∷ rest)) rec_len
      then []
      else record { ssid = decode (slice 1 rec_len (rssi_byte ∷ rest)); rssi = rssi_of rssi_byte }
        ∷ others

  unfoldable pub scan_body : List ℕ → List ScannedNetwork
  unfolding scan_records
  scan_body [] = []
  scan_body (b ∷ []) = []
  scan_body (b ∷ count ∷ rest) = scan_records count rest

  unfoldable pub parse_scan_response : Frame → Result (List ScannedNetwork)
  unfolding scan_body
  parse_scan_response frame =
      if not (frame.start =b marker_7f) || not (frame.func == fn_scan)
      then err value_error
      else ok (scan_body frame.payload)
