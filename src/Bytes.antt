-- ===== src/Bytes.antt =====
-- Python's `bytes`: slices, big-endian conversion, searching, and ASCII decoding. A byte string is a
-- list of numbers.
use foxess_local_gateway.Prelude.{
  ℕ, zero, suc, ◌+◌, ◌-◌, ◌*◌, ◌/◌, ◌%◌, ◌^◌, ◌<◌, ◌≡◌, ap, sym, ◌∙◌, arith, List, [], ◌∷◌, ◌++◌,
  append_assoc, length-append, take_exact, drop_exact, length, get_elem?, take, drop, Bool, true,
  ◌&&◌, Option, none, some, Result, ok, err, overflow_error, index_error, unicode_error, ltb, ◌=b◌,
  if◌then◌else◌,
}

-- Python's `data[i:j]`.
abbrev pub slice : ℕ → ℕ → List ℕ → List ℕ
slice i j xs = drop i (take j xs)

-- Python's `data[-n:]`.
abbrev pub last_bytes : ℕ → List ℕ → List ℕ
last_bytes n xs = drop (length xs - n) xs

-- Python's `data[i]`, which raises `IndexError` out of range.
abbrev pub index : List ℕ → ℕ → Result ℕ
index xs i = elim (get_elem? xs i) [ none ↦ err index_error | some b ↦ ok b ]

-- `int.from_bytes(data, "big")`
abbrev pub from_bytes_acc : ℕ → List ℕ → ℕ
from_bytes_acc acc [] = acc
from_bytes_acc acc (b ∷ bs) = from_bytes_acc (acc * 256 + b) bs

abbrev pub from_bytes : List ℕ → ℕ
from_bytes bs = from_bytes_acc 0 bs

-- The `n` low bytes of `v`, most significant first.
abbrev pub big_endian : ℕ → ℕ → List ℕ
big_endian zero v = []
big_endian (suc n) v = v / 256 ^ n % 256 ∷ big_endian n v

-- `v.to_bytes(n, "big")`, which raises `OverflowError` when `v` does not fit.
abbrev pub to_bytes : ℕ → ℕ → Result (List ℕ)
to_bytes n v = if ltb v (256 ^ n) then ok (big_endian n v) else err overflow_error

-- `data.startswith(prefix)`
abbrev pub starts_with : List ℕ → List ℕ → Bool
starts_with xs p = take (length p) xs =b p

-- `data.find(needle)`: the first offset at which `needle` stands.
abbrev pub find : List ℕ → List ℕ → Option ℕ
find needle [] = if needle =b [] then some 0 else none
find needle (x ∷ xs) =
    let rest = find needle xs in
    if starts_with (x ∷ xs) needle
    then some 0
    else elim rest [ none ↦ none | some i ↦ some (suc i) ]

abbrev pub all_bytes : (ℕ → Bool) → List ℕ → Bool
all_bytes p [] = true
all_bytes p (b ∷ bs) = p b && all_bytes p bs

-- `data.decode("ascii")`: the code points, or `UnicodeDecodeError`.
abbrev pub decode_ascii : List ℕ → Result (List ℕ)
decode_ascii bs = if all_bytes (λ b. ltb b 128) bs then ok bs else err unicode_error

-- Every element is a byte.
abbrev pub IsBytes : List ℕ → Type 0
IsBytes [] = Unit
IsBytes (b ∷ bs) = (b < 256) × IsBytes bs

-- A slice that starts and ends where a part does.
pub slice-part :
    (i j : ℕ) (front part back : List ℕ)
    → i ≡ length front
    → j ≡ length front + length part
    → slice i j (front ++ (part ++ back)) ≡ part
slice-part i j front part back hi hj =
    ap (drop i) (
      ap (take j) (sym (append_assoc front part back))
      ∙ take_exact j (front ++ part) back (omega (arith, length-append front part)))
    ∙ drop_exact i front part hi

pub last_bytes-append :
    (n : ℕ) (front back : List ℕ) → n ≡ length back → last_bytes n (front ++ back) ≡ back
last_bytes-append n front back h =
    drop_exact (length (front ++ back) - n) front back (omega (arith, length-append front back))
