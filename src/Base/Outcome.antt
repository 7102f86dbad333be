-- ===== src/Base/Outcome.antt =====
-- How a C function ends: by returning, by `exit`, or in undefined behaviour.
use Prim.Native.Nat.{ℕ}
use mathlib.Core.Path.{◌≡◌}

-- `exit code` is a call of `exit(-code)`; `fault` is an access outside an object.
pub data Run {ℓ} (A : Type ℓ) : Type ℓ where
  ok : A → Run A
  exit : ℕ → Run A
  fault : Run A

infixl 5 ◌>>=◌
abbrev pub ◌>>=◌ {ℓ κ} : {A : Type ℓ} {B : Type κ} → Run A → (A → Run B) → Run B
ok a >>= f = f a
exit c >>= f = exit c
fault >>= f = fault

-- An `int` that is 0 on success and a negative error code otherwise: `failed c` is `-c`.
pub data Status : Type 0 where
  done : Status
  failed : ℕ → Status

pub ok_injective {ℓ} : {A : Type ℓ} {a b : A} → ok a ≡ ok b → a ≡ b
ok_injective h = cc
