-- ===== src/Vat/Reversal.antt =====
-- What a reversal, as of a credit note, leaves of the totals of a return.
use nexora_ai.Prelude.{
  Bool-cases, inl, inr, ℕ, zero, suc, ◌≡◌, sym, ap, ◌∙◌, true, false, List, [], ◌∷◌, ◌++◌,
}
use nexora_ai.Prelude.Int.{ℤ, pos, neg, abs, ◌+ℤ◌, int_laws}
use nexora_ai.Decimal.{half_up, negate, to_money, money_unit}
use nexora_ai.Decimal.Rounding.{to_money-negate}
use nexora_ai.Session.{Uuid}
use nexora_ai.Vat.Model.{VatTransaction, output, same_direction}
use nexora_ai.Vat.Register.{Taxed, new_transaction}
use nexora_ai.Vat.Returns.{side, totals_of}

-- The keyword arguments with which the same document is reversed.
abbrev pub reversal : Taxed → Taxed
reversal x = record x { is_reversal = true }

neg_pos : (n : ℕ) → neg (pos n) ≡ negate n
neg_pos zero = omega int_laws
neg_pos (suc n) = omega int_laws

to_money-neg : (n : ℕ) → to_money (neg (pos n)) ≡ neg (to_money (pos n))
unfolding to_money
to_money-neg n = ap to_money (neg_pos n) ∙ to_money-negate n ∙ sym (neg_pos (half_up money_unit n))

-- A row and the row that follows it, both of a side.
side-append :
    (f : VatTransaction → ℤ) (ts : List VatTransaction) (t u : VatTransaction)
    → t.direction ≡ output
    → u.direction ≡ output
    → side output f (ts ++ t ∷ u ∷ []) ≡ side output f ts +ℤ f t +ℤ f u
side-append f [] t u p q = rw (p, q) (omega int_laws)
side-append f (x ∷ ts) t u p q = elim (Bool-cases (same_direction output x.direction)) [
  | inl e ↦ rw (e, side-append f ts t u p q) (omega int_laws)
  | inr e ↦ rw e (side-append f ts t u p q)
]

-- A sale is recorded and then reversed in full. The output VAT of the rows is what it was before,
-- but their taxable sales have grown by the taxable amount twice.
pub reversed_sale :
    (i j : Uuid) (x : Taxed) (ts : List VatTransaction)
    → x.direction ≡ output
    → x.is_reversal ≡ false
    → let sale = new_transaction i x in
      let after = totals_of (ts ++ sale ∷ new_transaction j (reversal x) ∷ []) in
      (after.output_vat ≡ (totals_of ts).output_vat)
      × (after.taxable_sales
          ≡ (totals_of ts).taxable_sales +ℤ sale.taxable_amount +ℤ sale.taxable_amount)
unfolding totals_of
reversed_sale i j x ts out plain = (
  side-append (λ t. t.vat_amount) ts (new_transaction i x) (new_transaction j (reversal x)) out out
      ∙ rw (plain, to_money-neg (abs x.vat_amount)) (omega int_laws),
  side-append (λ t. t.taxable_amount) ts (new_transaction i x) (new_transaction j (reversal x)) out
      out,
)
