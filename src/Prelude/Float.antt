-- ===== src/Prelude/Float.antt =====
-- Floating-point numbers: the operations that the program uses, as an interface. The definitions
-- take an instance, so they hold for IEEE 754 doubles; no law of arithmetic is built in.
use Prim.Native.Nat.{ℕ}
use mathlib.Core.Path.{◌≡◌}
use mathlib.Core.Bool.{Bool, true, false}

pub record Floats (F : Type 0) : Type 0 where
  -- The literal m / 10 ^ k, as in `decimal 5 1` for 0.5.
  pub decimal : ℕ → ℕ → F
  -- `float(n)` at a natural number.
  pub of_ℕ : ℕ → F
  pub add : F → F → F
  pub sub : F → F → F
  pub mul : F → F → F
  pub div : F → F → F
  pub lt : F → F → Bool
  pub le : F → F → Bool
  pub eq : F → F → Bool

-- What IEEE 754 says of `<`: it is asymmetric, and its complement is transitive through every b
-- that is a number. A NaN is below nothing and above nothing.
pub record FloatOrder {F : Type 0} (fl : Floats F) : Type 0 where
  pub is_number : F → Bool
  pub lt_asymm : (a b : F) → fl.lt a b ≡ true → fl.lt b a ≡ false
  pub nlt_trans :
      (a b c : F) → is_number b ≡ true → fl.lt a b ≡ false → fl.lt b c ≡ false → fl.lt a c ≡ false
