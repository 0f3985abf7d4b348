-- ===== src/Prelude/Http.antt =====
-- What a call returns, or the exception it raises: a code with the status of its HTTP answer, or one that no handler names.
use Prim.Native.Nat.{ℕ}
use Prim.Native.String.{String}
use mathlib.Core.Path.{◌≡◌, refl}
use mathlib.Core.Bool.{Bool, true, false}
use efata_777_backend_premiu.Prelude.Tests.{if◌then◌else◌}

pub data Outcome (A : Type 0) : Type 0 where
  returned : A → Outcome A
  raised : String → ℕ → Outcome A
  crashed : Outcome A

infixl 5 ◌>>=◌
unfoldable pub ◌>>=◌ : {A B : Type 0} → Outcome A → (A → Outcome B) → Outcome B
returned a >>= f = f a
raised code status >>= f = raised code status
crashed >>= f = crashed

-- `if not passed: raise ...`, for a list of such lines in front of a result.
abbrev pub require : Bool → String → ℕ → Outcome (Unit {0})
require passed code status = if passed then returned tt else raised code status

abbrev pub is_returned : {A : Type 0} → Outcome A → Bool
is_returned (returned a) = true
is_returned (raised code status) = false
is_returned crashed = false

-- A bind returns only by both of its halves.
pub bind-returned :
    {A B : Type 0} (m : Outcome A) (f : A → Outcome B) (b : B)
    → m >>= f ≡ returned b
    → (a : A) × (m ≡ returned a) × (f a ≡ returned b)
unfolding ◌>>=◌
bind-returned (returned a) f b h = (a, refl, h)
bind-returned (raised code status) f b h = cc h
bind-returned crashed f b h = cc h

pub require-passes :
    (b : Bool) (code : String) (n : ℕ) (u : Unit {0}) → require b code n ≡ returned u → b ≡ true
require-passes true code n u h = refl
require-passes false code n u h = cc h
