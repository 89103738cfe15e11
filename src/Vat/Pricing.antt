-- ===== src/Vat/Pricing.antt =====
-- `vat/pricing.py` and `line_totals` of `sales/money.py`. A rate counts units of 10 ^ -6, a stored
-- amount units of 10 ^ -4 and an amount on its way in units of 10 ^ -12. The code computes with 28
-- significant digits; the model is exact.
pub mod Agree
use nexora_ai.Prelude.{ℕ, ◌+◌, ◌^◌, if◌then◌else◌}
use nexora_ai.Prelude.Int.{ℤ, pos, negsuc, ◌+ℤ◌, ◌-ℤ◌, ◌*ℤ◌, ltb_ℤ}
use nexora_ai.Decimal.{round_half_up, to_money}
use nexora_ai.Session.{Failure, value_error, Result, ok, err}

-- A unit of a rate, in units of 10 ^ -6.
abbrev pub one : ℕ
one = 1_000_000

pub record Breakdown : Type 0 where
  pub net : ℤ
  pub vat : ℤ
  pub gross : ℤ

-- A stored amount times a rate, stored.
unfoldable pub charge : ℤ → ℤ → ℤ
unfolding round_half_up
charge amount rate = round_half_up one (amount *ℤ rate)

unfoldable pub exclusive : ℤ → ℤ → Breakdown
exclusive net rate =
    let net_r = to_money net in
    let vat = charge net_r rate in record { net = net_r; vat = vat; gross = net_r +ℤ vat }

-- `quantize(gross_r / (1 + rate))`, for a rate that is not negative.
unfoldable pub back_out : ℤ → ℤ → ℤ
unfolding round_half_up
back_out gross (pos rate) = round_half_up (one + rate) (gross *ℤ pos one)
back_out gross (negsuc rate) = gross

unfoldable pub inclusive : ℤ → ℤ → Result Breakdown
inclusive gross rate =
    let gross_r = to_money gross in
    let net = back_out gross_r rate in
    if ltb_ℤ rate (pos 0)
    then err (value_error "VAT rate cannot be negative")
    else ok (record { net = net; vat = gross_r -ℤ net; gross = gross_r })

-- `line_totals`, of a quantity, a unit price, a discount rate and a tax rate of six places each.
abbrev pub unrounded_net : ℤ → ℤ → ℤ → ℤ
unrounded_net quantity unit_price discount_rate =
    quantity *ℤ unit_price *ℤ (pos one -ℤ discount_rate)

unfoldable pub line_totals : ℤ → ℤ → ℤ → ℤ → Breakdown
line_totals quantity unit_price discount_rate tax_rate =
    let net = round_half_up (10 ^ 14) (unrounded_net quantity unit_price discount_rate) in
    let tax =
      round_half_up (10 ^ 20) (unrounded_net quantity unit_price discount_rate *ℤ tax_rate) in
    record { net = net; vat = tax; gross = net +ℤ tax }
