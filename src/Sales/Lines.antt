-- ===== src/Sales/Lines.antt =====
-- What the methods of `sales/service.py` share: guards on a status, and the lines of a document.
use nexora_ai.Prelude.{ℕ, Bool, false, ◌||◌, not, List, [], ◌∷◌, ◌==◌, any_of}
use nexora_ai.Prelude.Int.{ℤ, pos, ◌+ℤ◌}
use nexora_ai.Session.{Uuid, conflict, Tx, raise_if}
use nexora_ai.Vat.Pricing.{line_totals}
use nexora_ai.Sales.Model.{LineTotals}

-- `_require_status`, on the positions of the statuses in their enumeration.
abbrev pub require_status : {S : Type 0} → ℕ → List ℕ → Tx S Unit
require_status actual allowed =
    raise_if (not (any_of (λ s. actual == s) allowed)) (conflict "DOCUMENT_STATE_INVALID")

pub record LineInput : Type 0 where
  pub product_id : Uuid
  pub quantity : ℤ
  pub unit_price : ℤ
  pub discount_rate : ℤ
  pub tax_rate : ℤ

-- `len({line.product_id for line in lines}) != len(lines)`
abbrev pub has_duplicate : List LineInput → Bool
has_duplicate [] = false
has_duplicate (l ∷ ls) = any_of (λ m. l.product_id == m.product_id) ls || has_duplicate ls

-- The columns of a line of a quantity, at the price and the rates of `t`.
unfoldable pub totals_for : ℤ → ℤ → ℤ → ℤ → LineTotals
unfolding line_totals
totals_for quantity unit_price discount_rate tax_rate =
    let t = line_totals quantity unit_price discount_rate tax_rate in
    record {
      quantity = quantity;
      unit_price = unit_price;
      discount_rate = discount_rate;
      tax_rate = tax_rate;
      net_amount = t.net;
      tax_amount = t.vat;
      total_amount = t.gross;
    }

-- The amounts of a document so far: `net` and `tax`.
pub record Amounts : Type 0 where
  pub net : ℤ
  pub tax : ℤ

unfoldable pub plus_line : Amounts → LineTotals → Amounts
plus_line a t = record { net = a.net +ℤ t.net_amount; tax = a.tax +ℤ t.tax_amount }

abbrev pub no_amounts : Amounts
no_amounts = record { net = pos 0; tax = pos 0 }
