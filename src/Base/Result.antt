-- ===== src/Base/Result.antt =====
-- Code that may raise. The exceptions are told apart by their class; no caller reads more of them.
use mathlib.Core.Path.{◌≡◌, refl}

pub data Raised : Type 0 where
  value_error integrity_error name_error index_error key_error json_error : Raised
  attribute_error timeout_error incomplete_read_error overflow_error type_error : Raised

pub data Result {ℓ} (A : Type ℓ) : Type ℓ where
  ok : A → Result A
  err : Raised → Result A

infixl 5 ◌>>=◌
abbrev pub ◌>>=◌ {ℓ κ} : {A : Type ℓ} {B : Type κ} → Result A → (A → Result B) → Result B
ok a >>= f = f a
err e >>= f = err e

pub Result-cases {ℓ} :
    {A : Type ℓ} (r : Result A) (P : Type 0)
    → ((a : A) → r ≡ ok a → P)
    → ((x : Raised) → r ≡ err x → P)
    → P
Result-cases (ok a) P f g = f a refl
Result-cases (err x) P f g = g x refl
