-- ===== src/Sales/Kept/Billing.antt =====
-- The methods that reach the books or the register: conversion, invoices, payments, credit notes.
use nexora_ai.Prelude.{
  ◌≡◌, refl, Bool, true, false, not, some, List, [], ◌∷◌, ◌==◌, any_of, is_some, String, Bool-cases,
  inl, inr,
}
use nexora_ai.Prelude.Int.{pos, leb_ℤ}
use nexora_ai.Session.{
  Uuid, Date, Context, Env, require_branch, may_use_branch, year_of, audit, raise_if, gets,
  not_found, ◌>>◌, conflict, pure,
}
use nexora_ai.Session.Keeps.{
  Keeps, Keeps-bind, Keeps-new_id, Keeps-gets, Keeps-raise_if, Keeps-pure, keeps_rules,
}
use nexora_ai.Session.Takes.{
  Takes, Takes-Keeps, Keeps-Takes, Takes-after, Takes-then, Takes-guard, Takes-weaken,
}
use nexora_ai.Vat.Filed.Kept.{record_taxed-IsRegister}
use nexora_ai.Vat.Grouping.{RateLine}
use nexora_ai.Company.{require_warehouse}
use nexora_ai.Company.Kept.{
  Stands, allocate-Keeps, in_register-Stands, in_documents-Takes, Takes-document, Stands-map,
  in_documents-Stands, require_warehouse-Stands,
}
use nexora_ai.Sales.Invariant.{IsSales}
use nexora_ai.Sales.Invariant.Writes.{insert_order_line_beside, insert_invoice-IsSales}
use nexora_ai.Sales.Invariant.Counters.{
  write_invoiced-IsSales, write_conversion-IsSales, set_issued-IsSales,
}
use nexora_ai.Sales.Model.{
  Invoice, InvoiceStatus, Quotation, QuotationLine, SalesOrder, SalesOrderLine, accepted, cancelled,
  draft, invoice_code, invoice_row, issued, order_line_row, paid, partially_paid, quotation_code,
  quotation_lines_of, quotation_row,
}
use nexora_ai.Sales.Lines.{Amounts, plus_line, require_status, totals_for}
use nexora_ai.Sales.Quotations.{
  QuotationConvert, convert, convert_quotation, copy_lines, order_of_quotation,
}
use nexora_ai.Sales.Invoices.{
  Billed, InvoiceCreate, bill, bill_line, bill_lines, billable, create_invoice, issue, issue_draft,
  issued_invoice, new_invoice, new_invoice_line, post_invoice, record_groups,
  record_vat_for_invoice, taxed_group,
}
use nexora_ai.Sales.Kept.{Sound, shared_rules}

pub copy_lines-Keeps :
    (env : Env) (i : Uuid) (ls : List QuotationLine) (j : Uuid) (q : Quotation)
    → Keeps (Stands (λ d. IsSales d × (quotation_row j d ≡ some q))) (copy_lines env i ls)
unfolding copy_lines
copy_lines-Keeps env i [] j q = search keeps_rules
copy_lines-Keeps env i (l ∷ ls) j q = Keeps-bind _ _ (Keeps-new_id env) λ k.
    Keeps-bind _ _ (in_documents-Stands _ (insert_order_line_beside k i l.product_id l.totals j q))
      λ _. copy_lines-Keeps env i ls j q

convert-Takes :
    (env : Env) (j : Uuid) (q : Quotation) (p : QuotationConvert)
    → is_some q.converted_order_id ≡ false
    → Takes (Stands (λ d. IsSales d × (quotation_row j d ≡ some q))) Sound (convert env q p)
unfolding convert
convert-Takes env j q p new =
    Takes-after (gets (λ d. quotation_lines_of q.id d.documents)) _ (Keeps-gets _) λ lines.
      Takes-after _ _ (Keeps-new_id env) λ i.
        Takes-after _ _ (copy_lines-Keeps env i lines j q) λ _.
          Takes-after _ _ (allocate-Keeps "sales_order" (year_of env.today)) λ n.
            Takes-then Sound _
              (λ _.
                audit "sales.quotation_converted" "quotation" (some q.id)
                >> pure (order_of_quotation i q p n))
              (in_documents-Takes IsSales _
                (write_conversion-IsSales j q (order_of_quotation i q p n) refl new))
              λ _. Keeps-Takes _ (search keeps_rules)

pub convert_quotation-Sound :
    (c : Context) (env : Env) (i : Uuid) (p : QuotationConvert)
    → Keeps Sound (convert_quotation c env i p)
unfolding convert_quotation require_branch
convert_quotation-Sound c env i p = Takes-Keeps _ (
    Takes-document IsSales Sound (quotation_row i) not_found _ λ q.
      Takes-after (raise_if (not (may_use_branch c q.branch_id)) _) _ (Keeps-raise_if _ _) λ _.
        Takes-after (require_warehouse c q.branch_id p.warehouse_id) _
          (require_warehouse-Stands c q.branch_id p.warehouse_id)
          λ _.
            Takes-after (require_status (quotation_code q.status) (quotation_code accepted ∷ [])) _
              (Keeps-raise_if _ _)
              λ _.
                Takes-guard (is_some q.converted_order_id) (conflict "ALREADY_CONVERTED")
                  (convert env q p) (convert-Takes env i q p))

-- invoices

bill-Takes :
    (env : Env) (v i : Uuid) (b : Bool) (line : SalesOrderLine) (x : Billed)
    → Takes (Stands (λ d. IsSales d × (order_line_row i d ≡ some line))) Sound (bill env v b line x)
unfolding bill totals_for
bill-Takes env v i b line x = Takes-after _ _ (Keeps-new_id env) λ j.
    Takes-then Sound _ _
      (in_documents-Takes IsSales _ (
        write_invoiced-IsSales b i line (new_invoice_line j v line (billable b line)) refl refl
          refl))
      λ _. Keeps-Takes _ (
        Keeps-pure (record {
          billed_any = true;
          amounts = plus_line x.amounts (new_invoice_line j v line (billable b line)).totals;
        }))

bill_lines-Sound :
    (env : Env) (v : Uuid) (b : Bool) (ls : List SalesOrderLine) (x : Billed)
    → Keeps Sound (bill_lines env v b ls x)
unfolding bill_lines bill_line
bill_lines-Sound env v b [] x = search keeps_rules
bill_lines-Sound env v b (l ∷ ls) x = Takes-Keeps _ (
    Takes-document IsSales Sound (order_line_row l.id) not_found _ λ line.
      Takes-then Sound (bill_line env v b line x) _
        (elim (Bool-cases (leb_ℤ (billable b line) (pos 0))) [
          | inl e ↦
              rw e (Takes-weaken _ _ (Stands-map _ _ (λ d h. h.0)) (Keeps-Takes _ (Keeps-pure x)))
          | inr e ↦ rw e (bill-Takes env v l.id b line x)
        ])
        λ after. Keeps-Takes _ (bill_lines-Sound env v b ls after))

pub create_invoice-Sound :
    (c : Context) (env : Env) (q : InvoiceCreate) → Keeps Sound (create_invoice c env q)
unfolding create_invoice require_branch
create_invoice-Sound c env q =
    search
      (
        shared_rules,
        bill_lines-Sound,
        (λ (i : Uuid) (o : SalesOrder) (a : Amounts).
            insert_invoice-IsSales (new_invoice i o q a) refl refl refl),
      )
      depth 18

-- the register and the issue of an invoice

pub record_groups-Sound :
    (env : Env) (d : Date) (s : String) (i : Uuid) (b : Bool) (gs : List RateLine)
    → Keeps Sound (record_groups env d s i b gs)
unfolding record_groups
record_groups-Sound env d s i b [] = search keeps_rules
record_groups-Sound env d s i b (g ∷ gs) =
    Keeps-bind _ _ (in_register-Stands _ (record_taxed-IsRegister env (taxed_group d s i b g)))
      λ _. record_groups-Sound env d s i b gs

post_invoice-Sound : (c : Context) (env : Env) (v : Invoice) → Keeps Sound (post_invoice c env v)
unfolding post_invoice
post_invoice-Sound c env v = search shared_rules depth 9

record_vat-Sound : (env : Env) (v : Invoice) → Keeps Sound (record_vat_for_invoice env v)
unfolding record_vat_for_invoice
record_vat-Sound env v = search (keeps_rules, record_groups-Sound) depth 9

issue_draft-Takes :
    (c : Context) (env : Env) (i : Uuid) (v : Invoice)
    → v.status ≡ draft
    → Takes (Stands (λ d. IsSales d × (invoice_row i d ≡ some v))) Sound (issue_draft c env i v)
unfolding issue_draft
issue_draft-Takes c env i v drafted =
    Takes-after _ _ (allocate-Keeps "invoice" (year_of env.today)) λ n.
      Takes-then Sound _
        (λ _.
          post_invoice c env (issued_invoice n v)
          >> (record_vat_for_invoice env (issued_invoice n v)
              >> (audit "sales.invoice_issued" "invoice" (some i) >> pure (issued_invoice n v))))
        (in_documents-Takes IsSales _ (set_issued-IsSales i v n drafted))
        λ _. Keeps-Takes _ (search (keeps_rules, post_invoice-Sound, record_vat-Sound) depth 9)

is_draft :
    (s : InvoiceStatus)
    → not (any_of (λ c. invoice_code s == c) (invoice_code draft ∷ [])) ≡ false
    → s ≡ draft
is_draft draft e = refl
is_draft issued e = cc
is_draft partially_paid e = cc
is_draft paid e = cc
is_draft cancelled e = cc

pub issue-Sound : (c : Context) (env : Env) (i : Uuid) → Keeps Sound (issue c env i)
unfolding issue require_branch
issue-Sound c env i = Takes-Keeps _ (
    Takes-document IsSales Sound (invoice_row i) not_found _ λ v.
      Takes-after (raise_if (not (may_use_branch c v.branch_id)) _) _ (Keeps-raise_if _ _) λ _.
        Takes-guard (not (any_of (λ s. invoice_code v.status == s) (invoice_code draft ∷ []))) _
          (issue_draft c env i v) λ e. issue_draft-Takes c env i v (is_draft v.status e))
