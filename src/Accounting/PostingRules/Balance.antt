-- ===== src/Accounting/PostingRules/Balance.antt =====
-- Every rule of `posting_rules.py` yields lines whose debits equal their credits.
use nexora_ai.Prelude.{
  String, ◌≡◌, refl, inl, inr, Bool, Bool-cases, true, false, Option, none, some, List, [], ◌∷◌,
  arith, if◌then◌else◌,
}
use nexora_ai.Prelude.Int.{
  ℤ, pos, ◌+ℤ◌, eq_ℤ, total, eq_ℤ→eq, int_laws, eq_of_parts, +ℤ_zero, total-append,
}
use nexora_ai.Accounting.PostingRules.{
  PostingLine, debit_line, credit_line, if_nonzero, cogs_recognition, cash_sale, credit_sale,
  customer_payment, sales_return, pos_refund, goods_receipt, supplier_bill, supplier_payment,
}

abbrev pub debits : List PostingLine → ℤ
debits = total (λ l. l.debit)

abbrev pub credits : List PostingLine → ℤ
credits = total (λ l. l.credit)

-- The debits and the credits both come to `amount`.
abbrev pub Posts : ℤ → List PostingLine → Type 0
Posts amount lines = (debits lines ≡ amount) × (credits lines ≡ amount)

abbrev pub PostsIfAny : ℤ → Option (List PostingLine) → Type 0
PostsIfAny amount none = amount ≡ pos 0
PostsIfAny amount (some lines) = Posts amount lines

-- A line that is left out when its amount is zero adds that amount all the same.
debits-if_nonzero : (c : String) (t : ℤ) → debits (if_nonzero t (debit_line c t)) ≡ t
debits-if_nonzero c t = ground (arith, eq_of_parts t (pos 0), +ℤ_zero t)

credits-if_nonzero : (c : String) (t : ℤ) → credits (if_nonzero t (credit_line c t)) ≡ t
credits-if_nonzero c t = ground (arith, eq_of_parts t (pos 0), +ℤ_zero t)

credits-if_nonzero_debit : (c : String) (t : ℤ) → credits (if_nonzero t (debit_line c t)) ≡ pos 0
credits-if_nonzero_debit c t = ground (arith, +ℤ_zero (pos 0))

debits-if_nonzero_credit : (c : String) (t : ℤ) → debits (if_nonzero t (credit_line c t)) ≡ pos 0
debits-if_nonzero_credit c t = ground (arith, +ℤ_zero (pos 0))

ruleset sides = (
  debits-if_nonzero, credits-if_nonzero, credits-if_nonzero_debit, debits-if_nonzero_credit,
  total-append,
)

two_lines-Posts : (d c : String) (a : ℤ) → Posts a (debit_line d a ∷ credit_line c a ∷ [])
two_lines-Posts d c a = omega int_laws

credit_sale-Posts : (net tax : ℤ) → Posts (net +ℤ tax) (credit_sale net tax)
unfolding credit_sale
credit_sale-Posts net tax = (simp sides (omega int_laws), simp sides (omega int_laws))

cash_sale-Posts : (net tax cost : ℤ) → Posts (net +ℤ tax) (cash_sale net tax cost).0
unfolding cash_sale
cash_sale-Posts net tax cost = (simp sides (omega int_laws), simp sides (omega int_laws))

sales_return-Posts : (net tax cost : ℤ) → Posts (net +ℤ tax) (sales_return net tax cost).0
unfolding sales_return
sales_return-Posts net tax cost = (simp sides (omega int_laws), simp sides (omega int_laws))

pos_refund-Posts :
    (net tax cost : ℤ) (restock : Bool) → Posts (net +ℤ tax) (pos_refund net tax cost restock).0
unfolding pos_refund
pos_refund-Posts net tax cost restock = (simp sides (omega int_laws), simp sides (omega int_laws))

supplier_bill-Posts : (cost tax : ℤ) → Posts (cost +ℤ tax) (supplier_bill cost tax)
unfolding supplier_bill
supplier_bill-Posts cost tax = (simp sides (omega int_laws), simp sides (omega int_laws))

sales_return_cost : (net tax cost : ℤ) → PostsIfAny cost (sales_return net tax cost).1
unfolding sales_return
sales_return_cost net tax cost = elim (Bool-cases (eq_ℤ cost (pos 0))) [
  | inl z ↦ rw z (eq_ℤ→eq cost (pos 0) z)
  | inr nz ↦ rw nz (two_lines-Posts "INVENTORY" "COGS" cost)
]

-- The cost leg of a refund, which only a restocking one has.
pos_refund_cost :
    (net tax cost : ℤ) (restock : Bool)
    → PostsIfAny (if restock then cost else pos 0) (pos_refund net tax cost restock).1
unfolding pos_refund
pos_refund_cost net tax cost false = refl
pos_refund_cost net tax cost true = elim (Bool-cases (eq_ℤ cost (pos 0))) [
  | inl z ↦ rw z (eq_ℤ→eq cost (pos 0) z)
  | inr nz ↦ rw nz (two_lines-Posts "INVENTORY" "COGS" cost)
]

abbrev pub RulesPost : ℤ → ℤ → ℤ → ℤ → Bool → Type 0
RulesPost net tax cost amount flag =
    Posts cost (cogs_recognition cost)
    × Posts (net +ℤ tax) (cash_sale net tax cost).0
    × Posts cost (cash_sale net tax cost).1
    × Posts (net +ℤ tax) (credit_sale net tax)
    × Posts amount (customer_payment amount flag)
    × Posts (net +ℤ tax) (sales_return net tax cost).0
    × PostsIfAny cost (sales_return net tax cost).1
    × Posts (net +ℤ tax) (pos_refund net tax cost flag).0
    × PostsIfAny (if flag then cost else pos 0) (pos_refund net tax cost flag).1
    × Posts cost (goods_receipt cost)
    × Posts (cost +ℤ tax) (supplier_bill cost tax)
    × Posts amount (supplier_payment amount flag)

-- For all amounts, whatever their signs, the debits and the credits of the lines that each rule
-- returns come to one and the same figure: net plus tax for the two sales, the two refunds and the
-- supplier's bill, the cost for each cost entry, the amount for each payment. A cost entry that is
-- left out is one of cost zero, or that of a refund which does not restock.
pub rules-Posts : (net tax cost amount : ℤ) (flag : Bool) → RulesPost net tax cost amount flag
unfolding cogs_recognition cash_sale customer_payment goods_receipt supplier_payment
rules-Posts net tax cost amount flag = (
  two_lines-Posts "COGS" "INVENTORY" cost,
  unfold cash_sale in cash_sale-Posts net tax cost,
  two_lines-Posts "COGS" "INVENTORY" cost,
  credit_sale-Posts net tax,
  two_lines-Posts (if flag then "CASH" else "BANK") "AR_CONTROL" amount,
  sales_return-Posts net tax cost,
  sales_return_cost net tax cost,
  pos_refund-Posts net tax cost flag,
  pos_refund_cost net tax cost flag,
  two_lines-Posts "INVENTORY" "GRNI" cost,
  supplier_bill-Posts cost tax,
  two_lines-Posts "AP_CONTROL" (if flag then "CASH" else "BANK") amount,
)
