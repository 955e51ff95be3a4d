-- ===== src/Prelude/Errors.antt =====
-- Python functions that raise return a `Result`.
pub data Error : Type 0 where
  value_error overflow_error index_error unicode_error key_error firmware_error : Error

pub data Result {ℓ} (A : Type ℓ) : Type ℓ where
  ok : A → Result A
  err : Error → Result A

infixl 5 ◌>>=◌
abbrev pub ◌>>=◌ {ℓ κ} : {A : Type ℓ} {B : Type κ} → Result A → (A → Result B) → Result B
ok a >>= f = f a
err e >>= f = err e
