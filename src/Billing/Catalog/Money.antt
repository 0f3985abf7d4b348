-- ===== src/Billing/Catalog/Money.antt =====
-- Python's `Decimal`, below the 28 digits of its context: multiplication and `quantize`.
use efata_777_backend_premiu.Prelude.{
  ℕ, suc, ◌+◌, ◌-◌, ◌*◌, ◌/◌, ◌%◌, ◌^◌, if◌then◌else◌, ltb, leb, ◌==◌,
}
use efata_777_backend_premiu.Prelude.Int.{ℤ, pos, negsuc, ◌*ℤ◌}

-- `coefficient / 10 ** places`.
pub record Decimal : Type 0 where
  pub coefficient : ℤ
  pub places : ℕ

unfoldable pub times : Decimal → Decimal → Decimal
unfolding ◌*ℤ◌
times a b = record { coefficient = a.coefficient *ℤ b.coefficient; places = a.places + b.places }

-- A quotient and its remainder by `k`, rounded by ROUND_HALF_EVEN.
unfoldable pub round_at : ℕ → ℕ → ℕ → ℕ
round_at q r k =
    if ltb (2 * r) k then q else if ltb k (2 * r) then suc q else if q % 2 == 0 then q else suc q

unfoldable pub half_even : ℕ → ℕ → ℕ
half_even m k = round_at (m / k) (m % k) k

abbrev pub negative : ℕ → ℤ
negative n = if n == 0 then pos 0 else negsuc (n - 1)

abbrev pub over_sign : (ℕ → ℕ) → ℤ → ℤ
over_sign f (pos n) = pos (f n)
over_sign f (negsuc n) = negative (f (suc n))

-- `quantize(Decimal(10) ** -n)`, as a multiple of 10 ** -n.
unfoldable pub quantize : ℕ → Decimal → ℤ
unfolding half_even round_at
quantize n d =
    if leb d.places n
    then over_sign (λ m. m * 10 ^ (n - d.places)) d.coefficient
    else over_sign (λ m. half_even m (10 ^ (d.places - n))) d.coefficient
