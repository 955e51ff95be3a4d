-- ===== src/Bits.antt =====
-- Laws of the native exclusive or and of single-bit tests, which the CRC and the masks of the
-- protocol need at variables.
use Prim.Native.Nat.{digits, differ, bit_xor-bitwise, bit_and-bitwise}
use mathlib.Core.Path.{ap₂}
use native.Mathlib.Nat.{
  pow-suc, one-le-pow, div-add-mod, mod-lt, mod-eq_of_lt, add-mul-mod_self_left, div-div-eq-div-mul,
  div-one,
}
use foxess_local_gateway.Prelude.{
  Bool, true, ◌==◌, ◌&&◌, bit_or, ℕ, zero, suc, ◌+◌, ◌-◌, ◌*◌, ◌/◌, ◌%◌, ◌^◌, ◌≤◌, ◌<◌, min,
  bit_and, bit_xor, ◌≡◌, refl, ap, ◌∙◌, sym, arith,
}

-- The count of digits to go does not matter once it covers the number.
module _ (z : ℕ → ℕ) (f : ℕ → ℕ → ℕ) where
  digits_enough : (n m a b : ℕ) → a ≤ n → a ≤ m → digits z f n a b ≡ digits z f m a b
  digits_enough zero zero zero b p q = refl
  digits_enough zero (suc m) zero b p q = refl
  digits_enough (suc n) zero zero b p q = refl
  digits_enough (suc n) (suc m) zero b p q = refl
  digits_enough zero m (suc a) b p q = absurd (omega arith)
  digits_enough (suc n) zero (suc a) b p q = absurd (omega arith)
  digits_enough (suc n) (suc m) (suc a) b p q =
      omega (arith, digits_enough n m (suc a / 2) (b / 2) (omega arith) (omega arith))

-- Addition of two binary digits without the carry.
differ_digits : (x y : ℕ) → x < 2 → y < 2 → differ x y ≡ (x + y) % 2
differ_digits zero y p q = omega arith
differ_digits (suc x) zero p q = omega arith
differ_digits (suc zero) (suc zero) p q = refl
differ_digits (suc zero) (suc (suc y)) p q = absurd (omega arith)
differ_digits (suc (suc x)) (suc y) p q = absurd (omega arith)

differ-mod : (a b : ℕ) → differ (a % 2) (b % 2) ≡ (a + b) % 2
differ-mod a b = omega (arith, differ_digits (a % 2) (b % 2) (omega arith) (omega arith))

pub bit_xor_step : (a b : ℕ) → bit_xor a b ≡ bit_xor (a / 2) (b / 2) * 2 + (a + b) % 2
bit_xor_step zero b = omega (arith, bit_xor-bitwise 0 b, bit_xor-bitwise 0 (b / 2))
bit_xor_step (suc a) b = omega (
  arith,
  bit_xor-bitwise (suc a) b,
  bit_xor-bitwise (suc a / 2) (b / 2),
  differ-mod (suc a) b,
  digits_enough (λ y. y) differ a (suc a / 2) (suc a / 2) (b / 2) (omega arith) (omega arith),
)

bit_xor_half : (a b : ℕ) → bit_xor a b / 2 ≡ bit_xor (a / 2) (b / 2)
bit_xor_half a b = omega (arith, bit_xor_step a b)

zero_of_le : (a : ℕ) → a ≤ 0 → a ≡ 0
zero_of_le a h = omega arith

-- Applying the same mask twice gives the number back.
bit_xor_cancel_fuel : (n a k : ℕ) → a ≤ n → k ≤ n → bit_xor (bit_xor a k) k ≡ a
bit_xor_cancel_fuel zero a k p q = rw (zero_of_le a p, zero_of_le k q)
bit_xor_cancel_fuel (suc n) a k p q = omega (
  arith,
  bit_xor_step a k,
  bit_xor_step (bit_xor a k) k,
  ap (λ (t : ℕ). bit_xor t (k / 2)) (bit_xor_half a k),
  bit_xor_cancel_fuel n (a / 2) (k / 2) (omega arith) (omega arith),
)

pub bit_xor_cancel : (a k : ℕ) → bit_xor (bit_xor a k) k ≡ a
bit_xor_cancel a k = bit_xor_cancel_fuel (a + k) a k (omega arith) (omega arith)

bit_xor_comm_fuel : (n a b : ℕ) → a ≤ n → b ≤ n → bit_xor a b ≡ bit_xor b a
bit_xor_comm_fuel zero a b p q = rw (zero_of_le a p, zero_of_le b q)
bit_xor_comm_fuel (suc n) a b p q = omega (
  arith,
  bit_xor_step a b,
  bit_xor_step b a,
  bit_xor_comm_fuel n (a / 2) (b / 2) (omega arith) (omega arith),
)

pub bit_xor_comm : (a b : ℕ) → bit_xor a b ≡ bit_xor b a
bit_xor_comm a b = bit_xor_comm_fuel (a + b) a b (omega arith) (omega arith)

-- Both below `2 ^ n`, so the result is.
pub bit_xor-lt : (n a b : ℕ) → a < 2 ^ n → b < 2 ^ n → bit_xor a b < 2 ^ n
bit_xor-lt zero a b p q = rw (zero_of_le a (omega arith), zero_of_le b (omega arith)) (omega arith)
bit_xor-lt (suc n) a b p q = omega (
  arith,
  pow-suc 2 n,
  bit_xor_step a b,
  bit_xor-lt n (a / 2) (b / 2) (omega (arith, pow-suc 2 n)) (omega (arith, pow-suc 2 n)),
)

-- The digits from the `n`th on.
pub bit_xor-div : (n a b : ℕ) → bit_xor a b / 2 ^ n ≡ bit_xor (a / 2 ^ n) (b / 2 ^ n)
bit_xor-div zero a b = simp div-one
bit_xor-div (suc n) a b =
    ap (λ (t : ℕ). bit_xor a b / t) (pow-suc' n)
    ∙ sym (div-div-eq-div-mul (bit_xor a b) 2 (2 ^ n))
    ∙ ap (λ (t : ℕ). t / 2 ^ n) (bit_xor_half a b)
    ∙ bit_xor-div n (a / 2) (b / 2)
    ∙ ap₂ bit_xor (halve a) (halve b)
  where
    pow-suc' : (k : ℕ) → 2 ^ suc k ≡ 2 * 2 ^ k
    pow-suc' k = omega (arith, pow-suc 2 k)

    halve : (x : ℕ) → x / 2 / 2 ^ n ≡ x / 2 ^ suc n
    halve x = div-div-eq-div-mul x 2 (2 ^ n) ∙ ap (λ (t : ℕ). x / t) (sym (pow-suc' n))

-- The lowest digit of a conjunction, and a conjunction with 0.
bit_and_step : (a b : ℕ) → bit_and a b ≡ bit_and (a / 2) (b / 2) * 2 + min (a % 2) (b % 2)
bit_and_step zero b = omega (arith, bit_and-bitwise 0 b, bit_and-bitwise 0 (b / 2))
bit_and_step (suc a) b = omega (
  arith,
  bit_and-bitwise (suc a) b,
  bit_and-bitwise (suc a / 2) (b / 2),
  digits_enough (λ y. 0) min a (suc a / 2) (suc a / 2) (b / 2) (omega arith) (omega arith),
)

bit_and-zero_fuel : (n a : ℕ) → a ≤ n → bit_and a 0 ≡ 0
bit_and-zero_fuel zero a h = rw (zero_of_le a h)
bit_and-zero_fuel (suc n) a h =
    omega (arith, bit_and_step a 0, bit_and-zero_fuel n (a / 2) (omega arith))

mod_double : (a m : ℕ) → 0 < m → a % (m * 2) ≡ a / 2 % m * 2 + a % 2
mod_double a m h =
    let r : ℕ = a / 2 % m * 2 + a % 2 in
    let q : ℕ = a / 2 / m in
    let split : a ≡ r + m * 2 * q = omega (arith, div-add-mod (a / 2) m) in
    ap (λ (t : ℕ). t % (m * 2)) split
    ∙ add-mul-mod_self_left r (m * 2) q
    ∙ mod-eq_of_lt (omega (arith, mod-lt (a / 2) h))

mask_half : (m : ℕ) → 0 < m → (m * 2 - 1) / 2 ≡ m - 1
mask_half m h = omega arith

-- `a & (2 ** k - 1)`
pub bit_and-mask : (k a : ℕ) → bit_and a (2 ^ k - 1) ≡ a % 2 ^ k
bit_and-mask zero a = omega (arith, bit_and-zero_fuel a a (omega arith))
bit_and-mask (suc k) a = rw (pow-suc) (
    omega (
      arith,
      one-le-pow k 2,
      mod_double a (2 ^ k) (omega (arith, one-le-pow k 2)),
      bit_and_step a (2 ^ k * 2 - 1),
      ap (λ (t : ℕ). bit_and (a / 2) t) (mask_half (2 ^ k) (omega (arith, one-le-pow k 2))),
      bit_and-mask k (a / 2),
    ))

pub bit_and-one : (a : ℕ) → bit_and a 1 ≡ a % 2
bit_and-one a = bit_and-mask 1 a

-- Over a byte: a function that agrees with another on every value below `n`.
agree_below : (ℕ → ℕ) → (ℕ → ℕ) → ℕ → Bool
agree_below f g zero = true
agree_below f g (suc n) = f n == g n && agree_below f g n

agree_below→eq : (f g : ℕ → ℕ) (n i : ℕ) → agree_below f g n ≡ true → i < n → f i ≡ g i
unfolding agree_below
agree_below→eq f g zero i e h = absurd (omega arith)
agree_below→eq f g (suc n) i e h = ground (arith, agree_below→eq f g n i)

-- `b | 0x80`, `b & 0x7F` and `b | 0x80` cleared again, for a byte.
pub bit_or_top : (b : ℕ) → b < 256 → bit_or b 0x80 ≡ b % 128 + 128
unfolding agree_below
bit_or_top b h = agree_below→eq (λ x. bit_or x 0x80) (λ x. x % 128 + 128) 256 b refl h

pub bit_and-low7 : (b : ℕ) → bit_and b 0x7f ≡ b % 128
bit_and-low7 b = bit_and-mask 7 b

-- A test of one bit.
bit_and_double :
    (a m : ℕ)
    → bit_and (a / 2) m ≡ a / 2 / m % 2 * m
    → bit_and a (m * 2) ≡ a / (m * 2) % 2 * (m * 2)
bit_and_double a m h =
    let lowest : bit_and a (m * 2) ≡ bit_and (a / 2) m * 2 =
      bit_and_step a (m * 2)
      ∙ ap (λ (s : ℕ). bit_and (a / 2) s * 2 + min (a % 2) (m * 2 % 2)) (half m)
      ∙ omega arith in
    let halves : a / 2 / m ≡ a / (m * 2) =
      div-div-eq-div-mul a 2 m ∙ ap (λ (t : ℕ). a / t) (omega arith) in
    lowest
    ∙ ap (λ (t : ℕ). t * 2) h
    ∙ mul_assoc_two (a / 2 / m % 2) m
    ∙ ap (λ (t : ℕ). t % 2 * (m * 2)) halves
  where
    half : (n : ℕ) → n * 2 / 2 ≡ n
    half n = omega arith

    mul_assoc_two : (d n : ℕ) → d * n * 2 ≡ d * (n * 2)
    mul_assoc_two d n = grind arith

pub bit_and-pow : (k a : ℕ) → bit_and a (2 ^ k) ≡ a / 2 ^ k % 2 * 2 ^ k
bit_and-pow zero a = omega (arith, bit_and-one a, div-one a)
bit_and-pow (suc k) a = rw (pow-suc) (bit_and_double a (2 ^ k) (bit_and-pow k (a / 2)))

-- One more digit of a remainder.
pub mod_double_high : (a m : ℕ) → 0 < m → a % (m * 2) ≡ a / m % 2 * m + a % m
mod_double_high a m h =
    let r : ℕ = a / m % 2 * m + a % m in
    let q : ℕ = a / m / 2 in
    let split : a ≡ r + m * 2 * q =
      sym (div-add-mod a m)
      ∙ ap (λ (t : ℕ). m * t + a % m) (halve (a / m))
      ∙ regroup m (a / m / 2) (a / m % 2) (a % m) in
    ap (λ (t : ℕ). t % (m * 2)) split
    ∙ add-mul-mod_self_left r (m * 2) q
    ∙ mod-eq_of_lt (bounded (a / m % 2) (a % m) (omega arith) (mod-lt a h))
  where
    halve : (d : ℕ) → d ≡ d / 2 * 2 + d % 2
    halve d = omega arith

    regroup : (n e f s : ℕ) → n * (e * 2 + f) + s ≡ f * n + s + n * 2 * e
    regroup n e f s = grind arith

    bounded : (f s : ℕ) → f < 2 → s < m → f * m + s < m * 2
    bounded zero s p q = omega arith
    bounded (suc zero) s p q = omega arith
    bounded (suc (suc f)) s p q = absurd (omega arith)
