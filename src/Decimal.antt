-- ===== src/Decimal.antt =====
-- Quantization of decimals: `core/money.py`, `sales/money.py` and the first half of
-- `vat/pricing.py`. A decimal of k places is the integer count of units of 10 ^ -k.
pub mod Rounding
use nexora_ai.Prelude.{ℕ, zero, suc, ◌+◌, ◌*◌, ◌/◌}
use nexora_ai.Prelude.Int.{ℤ, pos, negsuc}

-- The coefficient and the number of places of a `Decimal` whose exponent is not positive.
pub record Decimal : Type 0 where
  pub coefficient : ℤ
  pub places : ℕ

-- ROUND_HALF_UP on a magnitude: the nearest multiple of `unit`, a tie away from zero.
unfoldable pub half_up : ℕ → ℕ → ℕ
half_up unit n = (n + unit / 2) / unit

abbrev pub negate : ℕ → ℤ
negate zero = pos 0
negate (suc n) = negsuc n

unfoldable pub round_half_up : ℕ → ℤ → ℤ
unfolding half_up
round_half_up unit (pos n) = pos (half_up unit n)
round_half_up unit (negsuc n) = negate (half_up unit (suc n))

-- The same value counted in a unit that is `unit` times finer.
unfoldable pub scale_up : ℕ → ℤ → ℤ
scale_up unit (pos n) = pos (n * unit)
scale_up unit (negsuc n) = negate (suc n * unit)

-- Money columns hold units of 10 ^ -4, and what a price times a quantity yields has twelve places.
abbrev pub money_unit : ℕ
money_unit = 100_000_000

-- `round_money` and `quantize` of an amount of twelve places.
unfoldable pub to_money : ℤ → ℤ
unfolding round_half_up
to_money = round_half_up money_unit

unfoldable pub to_amount : ℤ → ℤ
unfolding scale_up
to_amount = scale_up money_unit
