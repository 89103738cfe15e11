-- ===== src/Decimal/Rounding.antt =====
-- What ROUND_HALF_UP promises of a stored figure.
use nexora_ai.Prelude.{ℕ, zero, suc, ◌+◌, ◌*◌, ◌/◌, ◌≤◌, ◌<◌, ◌≡◌, refl, ap, ◌∙◌, arith}
use native.Mathlib.Nat.{mul-div-le, lt-mul-div-succ}
use nexora_ai.Prelude.Int.{ℤ, pos, negsuc, pos_part, neg_part}
use nexora_ai.Decimal.{half_up, negate, to_money, to_amount, money_unit}

-- For an even unit the result is the nearest multiple, and a tie goes away from zero.
pub half_up_nearest :
    (h n : ℕ) → 0 < h → let r = half_up (2 * h) n in (2 * h * r ≤ n + h) × (n < 2 * h * r + h)
unfolding half_up
half_up_nearest h n p = omega (
  arith,
  mul-div-le (n + 2 * h / 2) (2 * h),
  lt-mul-div-succ (n + 2 * h / 2) {b = 2 * h} (omega arith),
)

pub abs-negate : (n : ℕ) → (pos_part (negate n) ≡ 0) × (neg_part (negate n) ≡ n)
abs-negate zero = (refl, refl)
abs-negate (suc n) = (refl, refl)

half_up_exact : (n : ℕ) → half_up money_unit (n * money_unit) ≡ n
unfolding half_up
half_up_exact n = omega arith

pub to_money-negate : (n : ℕ) → to_money (negate n) ≡ negate (half_up money_unit n)
unfolding to_money
to_money-negate zero = refl
to_money-negate (suc n) = refl

pub to_money-to_amount : (a : ℤ) → to_money (to_amount a) ≡ a
unfolding to_money to_amount
to_money-to_amount (pos n) = ap pos (half_up_exact n)
to_money-to_amount (negsuc n) =
    to_money-negate (suc n * money_unit) ∙ ap negate (half_up_exact (suc n))

pub to_amount_parts :
    (a : ℤ)
    → (pos_part (to_amount a) ≡ pos_part a * money_unit)
      × (neg_part (to_amount a) ≡ neg_part a * money_unit)
unfolding to_amount
to_amount_parts (pos n) = omega arith
to_amount_parts (negsuc n) = omega (arith, abs-negate (suc n * money_unit))
