-- ===== src/Protocol/Frame/Corruption.antt =====
-- A payload byte that changes on the way is noticed: the frame parses, and its CRC is not valid.
use foxess_local_gateway.Prelude.{
  ℕ, ◌/◌, ◌%◌, ◌<◌, ◌≡◌, ◌≢◌, refl, ap, sym, ◌∙◌, arith, List, [], ◌∷◌, ◌++◌, length, length-append,
  append_assoc, false, ok, ◌=b◌, =b→eq, Bool-cases, inl, inr,
}
use foxess_local_gateway.Bytes.{IsBytes}
use foxess_local_gateway.Protocol.Crc.{crc16_le}
use foxess_local_gateway.Protocol.Crc.Detect.{crc16_le_pair, crc16_detects_byte}
use foxess_local_gateway.Protocol.Frame.{Frame, parse_frame}
use foxess_local_gateway.Protocol.Frame.RoundTrip.{body_of, laid_out, parse_layout}

ne→=b : (xs ys : List ℕ) → xs ≢ ys → (xs =b ys) ≡ false
ne→=b xs ys h = elim (Bool-cases (xs =b ys)) [ inl e ↦ absurd (h (=b→eq xs ys e)) | inr e ↦ e ]

IsBytes-append : (xs ys : List ℕ) → IsBytes xs → IsBytes ys → IsBytes (xs ++ ys)
IsBytes-append [] ys h k = k
IsBytes-append (x ∷ xs) ys (hx, h) k = (hx, IsBytes-append xs ys h k)

-- The bytes before the changed one.
abbrev before : List ℕ → ℕ → ℕ → List ℕ → List ℕ
before device func n front = device ++ func ∷ n / 256 ∷ n % 256 ∷ front

body_split :
    (device : List ℕ) (func n : ℕ) (front back : List ℕ) (x : ℕ)
    → length (front ++ x ∷ back) ≡ n
    → body_of device func (front ++ x ∷ back) ≡ before device func n front ++ x ∷ back
body_split device func n front back x h =
    rw h (sym (append_assoc device (func ∷ n / 256 ∷ n % 256 ∷ front) (x ∷ back)))

same_length :
    (front back : List ℕ) (x y : ℕ) → length (front ++ x ∷ back) ≡ length (front ++ y ∷ back)
same_length front back x y =
    omega (arith, length-append front (x ∷ back), length-append front (y ∷ back))

-- What is received when `x` of the payload was sent and `y` arrives in its place.
abbrev pub received : List ℕ → List ℕ → ℕ → List ℕ → ℕ → ℕ → List ℕ → List ℕ → List ℕ
received start device func front x y back end =
    start
    ++ body_of device func (front ++ y ∷ back)
    ++ crc16_le (body_of device func (front ++ x ∷ back))
    ++ end

module _ (device : List ℕ) (func : ℕ) (front back : List ℕ) (x y : ℕ)
    (device_bytes : IsBytes device) (func_fits : func < 256) (front_bytes : IsBytes front)
    (back_bytes : IsBytes back) (x_fits : x < 256) (y_fits : y < 256)
    (size_fits : length (front ++ x ∷ back) < 65536) (changed : x ≢ y) where
  crc_differs :
      crc16_le (body_of device func (front ++ x ∷ back))
      ≢ crc16_le (body_of device func (front ++ y ∷ back))
  crc_differs e =
      let n : ℕ = length (front ++ x ∷ back) in
      let bytes : IsBytes (before device func n front) =
        IsBytes-append device _ device_bytes
          (func_fits, (omega arith, (omega arith, front_bytes))) in
      crc16_detects_byte (before device func n front) back x y bytes back_bytes x_fits y_fits
        changed
        (ap crc16_le (sym (body_split device func n front back x refl))
          ∙ e
          ∙ ap crc16_le (body_split device func n front back y (same_length front back y x)))

  corrupted_parse :
      (s0 s1 d0 d1 d2 d3 c0 c1 e0 e1 : ℕ)
      → device ≡ d0 ∷ d1 ∷ d2 ∷ d3 ∷ []
      → crc16_le (body_of device func (front ++ x ∷ back)) ≡ c0 ∷ c1 ∷ []
      → (f : Frame) × (parse_frame
            (received (s0 ∷ s1 ∷ []) device func front x y back (e0 ∷ e1 ∷ []))
          ≡ ok f)
        × (f.valid_crc ≡ false)
  corrupted_parse s0 s1 d0 d1 d2 d3 c0 c1 e0 e1 d c =
      let payload : List ℕ = front ++ y ∷ back in
      let invalid : (c0 ∷ c1 ∷ [] =b crc16_le (body_of device func payload)) ≡ false =
        ne→=b _ _ (λ e. crc_differs (c ∙ e)) in
      (
        laid_out s0 s1 d0 d1 d2 d3 func payload c0 c1 e0 e1,
        rw (c, d, append_assoc payload (c0 ∷ c1 ∷ []) (e0 ∷ e1 ∷ []))
            (parse_layout s0 s1 d0 d1 d2 d3 func payload c0 c1 e0 e1),
        rw d at invalid,
      )

-- Whatever byte of the payload changes on the way, and to whatever other byte, the received frame
-- still parses and its CRC is reported as not valid.
pub corrupted_payload :
    (start device end : List ℕ) (func : ℕ) (front back : List ℕ) (x y : ℕ)
    → length start ≡ 2
    → length device ≡ 4
    → length end ≡ 2
    → IsBytes device
    → func < 256
    → IsBytes front
    → IsBytes back
    → x < 256
    → y < 256
    → length (front ++ x ∷ back) < 65536
    → x ≢ y
    → (f : Frame) × (parse_frame (received start device func front x y back end) ≡ ok f)
      × (f.valid_crc ≡ false)
corrupted_payload (s0 ∷ s1 ∷ []) (d0 ∷ d1 ∷ d2 ∷ d3 ∷ []) (e0 ∷ e1 ∷ []) func front back x y hs hd
      he db ff fb bb xf yf sf ne =
    let device : List ℕ = d0 ∷ d1 ∷ d2 ∷ d3 ∷ [] in
    let (c0, c1, c) = crc16_le_pair (body_of device func (front ++ x ∷ back)) in
    corrupted_parse device func front back x y db ff fb bb xf yf sf ne s0 s1 d0 d1 d2 d3 c0 c1 e0 e1
      refl c
corrupted_payload _ _ _ func front back x y hs hd he db ff fb bb xf yf sf ne = absurd (omega arith)
