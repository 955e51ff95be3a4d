-- ===== src/Protocol/Crc/Detect.antt =====
-- The CRC is a 16-bit number, and it tells apart any two messages that differ in one byte.
use foxess_local_gateway.Prelude.{
  ℕ, zero, suc, ◌/◌, ◌%◌, ◌^◌, ◌≤◌, ◌<◌, ◌≡◌, ◌≢◌, refl, ap, sym, ◌∙◌, arith, List, [], ◌∷◌, ◌++◌,
  bit_xor,
}
use foxess_local_gateway.Bits.{bit_xor_cancel, bit_xor_comm, bit_xor-lt, bit_xor-div, bit_and-one}
use foxess_local_gateway.Bytes.{IsBytes}
use foxess_local_gateway.Protocol.Crc.{shift_round, shift_rounds, crc_byte, crc_loop, crc16_le}

shift_round-lt : (crc : ℕ) → crc < 2 ^ 16 → shift_round crc < 2 ^ 16
unfolding shift_round
shift_round-lt crc h = ground (arith, bit_xor-lt 16 (crc / 2) 0xa001 (omega arith) (omega arith))

shift_rounds-lt : (n crc : ℕ) → crc < 2 ^ 16 → shift_rounds n crc < 2 ^ 16
unfolding shift_rounds
shift_rounds-lt zero crc h = h
shift_rounds-lt (suc n) crc h = shift_rounds-lt n (shift_round crc) (shift_round-lt crc h)

crc_byte-lt : (crc byte : ℕ) → crc < 2 ^ 16 → byte < 256 → crc_byte crc byte < 2 ^ 16
unfolding crc_byte
crc_byte-lt crc byte h b = shift_rounds-lt 8 _ (bit_xor-lt 16 crc byte h (omega arith))

pub crc_loop-lt : (crc : ℕ) (bs : List ℕ) → crc < 2 ^ 16 → IsBytes bs → crc_loop crc bs < 2 ^ 16
unfolding crc_loop
crc_loop-lt crc [] h bs = h
crc_loop-lt crc (b ∷ bs) h (hb, hbs) = crc_loop-lt (crc_byte crc b) bs (crc_byte-lt crc b h hb) hbs

-- The feedback word has the top bit set, so a round that applied it can be told from one that did
-- not.
feedback_top : (a : ℕ) → a < 2 ^ 15 → 2 ^ 15 ≤ bit_xor a 0xa001
feedback_top a h =
    let top : bit_xor a 0xa001 / 2 ^ 15 ≡ bit_xor (a / 2 ^ 15) 1 = bit_xor-div 15 a 0xa001 in
    let low : a / 2 ^ 15 ≡ 0 = omega arith in omega (arith, top, ap (λ (t : ℕ). bit_xor t 1) low)

shift_round_injective : (a b : ℕ) → a < 2 ^ 16 → b < 2 ^ 16 → shift_round a ≡ shift_round b → a ≡ b
unfolding shift_round
shift_round_injective a b ha hb e = ground (
  arith,
  bit_and-one a,
  bit_and-one b,
  feedback_top (a / 2) (omega arith),
  feedback_top (b / 2) (omega arith),
  bit_xor_cancel (a / 2) 0xa001,
  bit_xor_cancel (b / 2) 0xa001,
)

shift_rounds_injective :
    (n a b : ℕ) → a < 2 ^ 16 → b < 2 ^ 16 → shift_rounds n a ≡ shift_rounds n b → a ≡ b
unfolding shift_rounds
shift_rounds_injective zero a b ha hb e = e
shift_rounds_injective (suc n) a b ha hb e = shift_round_injective a b ha hb (
    shift_rounds_injective n (shift_round a) (shift_round b) (shift_round-lt a ha)
      (shift_round-lt b hb) e)

crc_byte_injective :
    (a b x : ℕ) → a < 2 ^ 16 → b < 2 ^ 16 → x < 256 → crc_byte a x ≡ crc_byte b x → a ≡ b
unfolding crc_byte
crc_byte_injective a b x ha hb hx e =
    let masked : bit_xor a x ≡ bit_xor b x =
      shift_rounds_injective 8 _ _ (bit_xor-lt 16 a x ha (omega arith))
        (bit_xor-lt 16 b x hb (omega arith)) e in
    sym (bit_xor_cancel a x) ∙ ap (λ (t : ℕ). bit_xor t x) masked ∙ bit_xor_cancel b x

crc_loop_injective :
    (a b : ℕ) (bs : List ℕ)
    → a < 2 ^ 16
    → b < 2 ^ 16
    → IsBytes bs
    → crc_loop a bs ≡ crc_loop b bs
    → a ≡ b
unfolding crc_loop
crc_loop_injective a b [] ha hb h e = e
crc_loop_injective a b (x ∷ bs) ha hb (hx, h) e = crc_byte_injective a b x ha hb hx (
    crc_loop_injective (crc_byte a x) (crc_byte b x) bs (crc_byte-lt a x ha hx)
      (crc_byte-lt b x hb hx) h e)

-- The same state fed with two different bytes.
xor_left : (c x y : ℕ) → bit_xor c x ≡ bit_xor c y → x ≡ y
xor_left c x y e =
    sym (bit_xor_cancel x c)
    ∙ ap (λ (t : ℕ). bit_xor t c) (bit_xor_comm x c ∙ e ∙ bit_xor_comm c y)
    ∙ bit_xor_cancel y c

crc_byte_tells : (c x y : ℕ) → c < 2 ^ 16 → x < 256 → y < 256 → crc_byte c x ≡ crc_byte c y → x ≡ y
unfolding crc_byte
crc_byte_tells c x y hc hx hy e = xor_left c x y (
    shift_rounds_injective 8 _ _ (bit_xor-lt 16 c x hc (omega arith))
      (bit_xor-lt 16 c y hc (omega arith)) e)

crc_loop-append : (c : ℕ) (xs ys : List ℕ) → crc_loop c (xs ++ ys) ≡ crc_loop (crc_loop c xs) ys
unfolding crc_loop
crc_loop-append c [] ys = refl
crc_loop-append c (x ∷ xs) ys = crc_loop-append (crc_byte c x) xs ys

crc_loop_tells :
    (c : ℕ) (front back : List ℕ) (x y : ℕ)
    → c < 2 ^ 16
    → IsBytes front
    → IsBytes back
    → x < 256
    → y < 256
    → crc_loop c (front ++ x ∷ back) ≡ crc_loop c (front ++ y ∷ back)
    → x ≡ y
unfolding crc_loop
crc_loop_tells c front back x y hc hf hb hx hy e =
    let s : ℕ = crc_loop c front in
    let hs : s < 2 ^ 16 = crc_loop-lt c front hc hf in
    crc_byte_tells s x y hs hx hy (
      crc_loop_injective (crc_byte s x) (crc_byte s y) back (crc_byte-lt s x hs hx)
        (crc_byte-lt s y hs hy) hb
        (sym (crc_loop-append c front (x ∷ back)) ∙ e ∙ crc_loop-append c front (y ∷ back)))

-- The two bytes of the field give the state back.
crc16_le_state :
    (xs ys : List ℕ) → crc16_le xs ≡ crc16_le ys → crc_loop 0xffff xs ≡ crc_loop 0xffff ys
unfolding crc16_le
crc16_le_state xs ys e = ground arith

-- The CRC field is two bytes: the state never outgrows the 16 bits that `to_bytes(2)` takes.
pub crc16_le-IsBytes : (bs : List ℕ) → IsBytes bs → IsBytes (crc16_le bs)
unfolding crc16_le
crc16_le-IsBytes bs h = omega (arith, crc_loop-lt 0xffff bs (omega arith) h)

-- Two messages of bytes that differ in exactly one byte, at any place, have different CRC fields.
pub crc16_detects_byte :
    (front back : List ℕ) (x y : ℕ)
    → IsBytes front
    → IsBytes back
    → x < 256
    → y < 256
    → x ≢ y
    → crc16_le (front ++ x ∷ back) ≢ crc16_le (front ++ y ∷ back)
crc16_detects_byte front back x y hf hb hx hy ne e = ne (
    crc_loop_tells 0xffff front back x y (omega arith) hf hb hx hy
      (crc16_le_state (front ++ x ∷ back) (front ++ y ∷ back) e))

-- The field has exactly two bytes.
pub crc16_le_pair : (bs : List ℕ) → (c0 : ℕ) × (c1 : ℕ) × (crc16_le bs ≡ c0 ∷ c1 ∷ [])
unfolding crc16_le
crc16_le_pair bs = (crc_loop 0xffff bs % 256, crc_loop 0xffff bs / 256, refl)
