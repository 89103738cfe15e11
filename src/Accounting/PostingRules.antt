-- ===== src/Accounting/PostingRules.antt =====
-- `accounting/posting_rules.py`: the journal lines of each business event.
pub mod Balance
use nexora_ai.Prelude.{ℕ, String, Bool, Option, none, some, List, [], ◌∷◌, ◌++◌, if◌then◌else◌}
use nexora_ai.Prelude.Int.{ℤ, pos, ◌+ℤ◌, eq_ℤ}
use nexora_ai.Session.{Uuid}

-- The key of a line in the map of accounts: a system code, or the symbols `MANUAL:…` and `REV:…`
-- that the service makes of an account's identifier.
pub data Code : Type 0 where
  system : String → Code
  manual : Uuid → Code
  rev : Uuid → Code

-- Amounts are in units of 10 ^ -12, the product of a quantity's and a unit cost's six places.
pub record PostingLine : Type 0 where
  pub code : Code
  pub debit : ℤ
  pub credit : ℤ

abbrev pub debit_line : String → ℤ → PostingLine
debit_line code amount = record { code = system code; debit = amount; credit = pos 0 }

abbrev pub credit_line : String → ℤ → PostingLine
credit_line code amount = record { code = system code; debit = pos 0; credit = amount }

-- `if amount: lines.append(line)`
abbrev pub if_nonzero : ℤ → PostingLine → List PostingLine
if_nonzero amount line = if eq_ℤ amount (pos 0) then [] else line ∷ []

unfoldable pub cogs_recognition : ℤ → List PostingLine
cogs_recognition cost = debit_line "COGS" cost ∷ credit_line "INVENTORY" cost ∷ []

unfoldable pub cash_sale : ℤ → ℤ → ℤ → List PostingLine × List PostingLine
cash_sale net tax cost = (
  (debit_line "CASH" (net +ℤ tax) ∷ credit_line "SALES_REVENUE" net ∷ [])
      ++ if_nonzero tax (credit_line "VAT_OUTPUT" tax),
  debit_line "COGS" cost ∷ credit_line "INVENTORY" cost ∷ [],
)

unfoldable pub credit_sale : ℤ → ℤ → List PostingLine
credit_sale net tax =
    (debit_line "AR_CONTROL" (net +ℤ tax) ∷ credit_line "SALES_REVENUE" net ∷ [])
    ++ if_nonzero tax (credit_line "VAT_OUTPUT" tax)

unfoldable pub customer_payment : ℤ → Bool → List PostingLine
customer_payment amount cash =
    debit_line (if cash then "CASH" else "BANK") amount ∷ credit_line "AR_CONTROL" amount ∷ []

-- `[INVENTORY debit, COGS credit]`, where cost returns to stock.
abbrev pub cost_return : ℤ → List PostingLine
cost_return cost = debit_line "INVENTORY" cost ∷ credit_line "COGS" cost ∷ []

unfoldable pub sales_return : ℤ → ℤ → ℤ → List PostingLine × Option (List PostingLine)
sales_return net tax cost = (
  (debit_line "SALES_RETURNS" net ∷ if_nonzero tax (debit_line "VAT_OUTPUT" tax))
      ++ (credit_line "AR_CONTROL" (net +ℤ tax) ∷ []),
  if eq_ℤ cost (pos 0) then none else some (cost_return cost),
)

unfoldable pub pos_refund : ℤ → ℤ → ℤ → Bool → List PostingLine × Option (List PostingLine)
pos_refund net tax cost restock = (
  (debit_line "SALES_RETURNS" net ∷ if_nonzero tax (debit_line "VAT_OUTPUT" tax))
      ++ (credit_line "CASH" (net +ℤ tax) ∷ []),
  if restock then (if eq_ℤ cost (pos 0) then none else some (cost_return cost)) else none,
)

unfoldable pub goods_receipt : ℤ → List PostingLine
goods_receipt cost = debit_line "INVENTORY" cost ∷ credit_line "GRNI" cost ∷ []

unfoldable pub supplier_bill : ℤ → ℤ → List PostingLine
supplier_bill goods_cost tax =
    (debit_line "GRNI" goods_cost ∷ if_nonzero tax (debit_line "VAT_INPUT" tax))
    ++ (credit_line "AP_CONTROL" (goods_cost +ℤ tax) ∷ [])

unfoldable pub supplier_payment : ℤ → Bool → List PostingLine
supplier_payment amount cash =
    debit_line "AP_CONTROL" amount ∷ credit_line (if cash then "CASH" else "BANK") amount ∷ []
