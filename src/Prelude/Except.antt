-- ===== src/Prelude/Except.antt =====
-- Code that returns or raises, with an error type of its own for each component.
use mathlib.Core.Bool.{Bool, true, false}
use mathlib.Core.Logic.{◌⊎◌, inl, inr}
use mathlib.Core.Option.{Option, none, some}
use mathlib.Core.Path.{◌≡◌, refl}

pub data Except (E A : Type 0) : Type 0 where
  done : A → Except E A
  failed : E → Except E A

infixl 5 ◌>>=◌ ◌>>◌
abbrev pub ◌>>=◌ : {E A B : Type 0} → Except E A → (A → Except E B) → Except E B
done a >>= f = f a
failed e >>= f = failed e

abbrev pub ◌>>◌ : {E B : Type 0} → Except E (Unit {0}) → Except E B → Except E B
m >> k = m >>= λ _. k

-- `if not test: raise e`
abbrev pub check : {E : Type 0} → Bool → E → Except E (Unit {0})
check true e = done tt
check false e = failed e

abbrev pub or_fail : {E A : Type 0} → Option A → E → Except E A
or_fail none e = failed e
or_fail (some a) e = done a

-- A call that changes a state, and what follows it unless it raises.
abbrev pub then_do : {E A B S : Type 0} → Except E A × S → (A → S → Except E B × S) → Except E B × S
then_do (done a, s) f = f a s
then_do (failed e, s) f = (failed e, s)

pub Except-cases :
    {E A : Type 0} (m : Except E A) → ((a : A) × (m ≡ done a)) ⊎ ((e : E) × (m ≡ failed e))
Except-cases (done a) = inl (a, refl)
Except-cases (failed e) = inr (e, refl)
