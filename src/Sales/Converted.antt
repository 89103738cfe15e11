-- ===== src/Sales/Converted.antt =====
-- A quotation becomes an order once.
use nexora_ai.Prelude.{
  ◌≡◌, refl, sym, ◌∙◌, subst, true, false, not, some, [], ◌∷◌, ◌==◌, is_some, first, update_where,
  ==→eq,
}
use nexora_ai.Prelude.Rows.{first-update, first-passes}
use nexora_ai.Prelude.Tally.{found_itself}
use nexora_ai.Session.{
  Uuid, Context, Env, Failure, Session, Tx, Result, ok, err, year_of, may_use_branch, not_found,
  conflict, audit, raise_if, require_branch, gets, pure, ◌>>◌,
}
use nexora_ai.Session.Keeps.{Keeps, Ensures, Keeps-gets, Keeps-new_id, Keeps-raise_if, keeps_rules}
use nexora_ai.Session.Takes.{Takes, Takes-after, Takes-then, Takes-guard, Takes-found, Keeps-Takes}
use nexora_ai.Company.{Company, require_warehouse}
use nexora_ai.Company.Kept.{
  Stands, allocate-Keeps, in_documents-Takes, require_warehouse-Stands, Takes-document,
}
use nexora_ai.Sales.Model.{
  Quotation, SalesOrder, Sales, accepted, quotation_code, quotation_row, quotation_lines_of,
}
use nexora_ai.Sales.Lines.{require_status}
use nexora_ai.Sales.Quotations.{
  QuotationConvert, order_of_quotation, write_conversion, convert, convert_quotation,
}
use nexora_ai.Sales.Invariant.{IsSales, Takes-insert, quotation_id}
use nexora_ai.Sales.Kept.{Sound}
use nexora_ai.Sales.Kept.Billing.{copy_lines-Keeps}

-- The quotation is there and has become an order.
abbrev IsConverted : Uuid → Sales → Type 0
IsConverted i d =
    (q : Quotation) × (quotation_row i d ≡ some q) × (is_some q.converted_order_id ≡ true)

abbrev converted_to : SalesOrder → Quotation → Quotation
converted_to o q = record q { converted_order_id = some o.id }

write_conversion-IsConverted :
    (i : Uuid) (q : Quotation) (o : SalesOrder)
    → Takes
        (λ d. IsSales d × (quotation_row i d ≡ some q))
        (IsConverted i)
        (write_conversion q.id o)
unfolding write_conversion
write_conversion-IsConverted i q o = Takes-insert _ (IsConverted i) _ _ _ _ _ _ λ d h fit free. (
  converted_to o q,
  (let same = ==→eq i q.id (first-passes (λ k. i == k.id) d.quotations q h.1) in
      subst
        (λ j.
          first (λ k. j == k.id) (update_where (λ k. q.id == k.id) (converted_to o) d.quotations)
          ≡ some (converted_to o q))
        (sym same)
        (first-update (λ k. q.id == k.id) (converted_to o) d.quotations q (λ x. refl)
          (found_itself quotation_id i d.quotations q h.1))),
  refl,
)

convert-IsConverted :
    (env : Env) (j : Uuid) (q : Quotation) (p : QuotationConvert)
    → Takes
        (Stands (λ d. IsSales d × (quotation_row j d ≡ some q)))
        (Stands (IsConverted j))
        (convert env q p)
unfolding convert
convert-IsConverted env j q p =
    Takes-after (gets (λ d. quotation_lines_of q.id d.documents)) _ (Keeps-gets _) λ lines.
      Takes-after _ _ (Keeps-new_id env) λ i.
        Takes-after _ _ (copy_lines-Keeps env i lines j q) λ _.
          Takes-after _ _ (allocate-Keeps "sales_order" (year_of env.today)) λ n.
            Takes-then (Stands (IsConverted j)) _
              (λ _.
                audit "sales.quotation_converted" "quotation" (some q.id)
                >> pure (order_of_quotation i q p n))
              (in_documents-Takes (IsConverted j) _
                (write_conversion-IsConverted j q (order_of_quotation i q p n)))
              λ _. Keeps-Takes _ (search keeps_rules)

convert_quotation-IsConverted :
    (c : Context) (env : Env) (i : Uuid) (p : QuotationConvert)
    → Takes Sound (Stands (IsConverted i)) (convert_quotation c env i p)
unfolding convert_quotation require_branch
convert_quotation-IsConverted c env i p =
    Takes-document IsSales (Stands (IsConverted i)) (quotation_row i) not_found _ λ q.
      Takes-after (raise_if (not (may_use_branch c q.branch_id)) _) _ (Keeps-raise_if _ _) λ _.
        Takes-after (require_warehouse c q.branch_id p.warehouse_id) _
          (require_warehouse-Stands c q.branch_id p.warehouse_id)
          λ _.
            Takes-after (require_status (quotation_code q.status) (quotation_code accepted ∷ [])) _
              (Keeps-raise_if _ _)
              λ _.
                Takes-guard (is_some q.converted_order_id) (conflict "ALREADY_CONVERTED")
                  (convert env q p) λ _. convert-IsConverted env i q p

-- A method that could only return to what cannot be has failed.
fails :
    {S A : Type 0} {P : S → Type 0} (m : Tx S A) (s : Session S)
    → P s.rows
    → Takes P (λ _. ⊥) m
    → (e : Failure) × (m s ≡ err e)
fails {S} {A} m s h k = go (m s) refl (k.at s h)
  where
    go :
        (r : Result (A × Session S))
        → m s ≡ r
        → Ensures (λ (_ : S). ⊥) r
        → (e : Failure) × (m s ≡ err e)
    go (ok u) p x = absurd x
    go (err e) p x = (e, p)

require_warehouse-Keeps :
    {P : Company Sales → Type 0} (c : Context) (b w : Uuid) → Keeps P (require_warehouse c b w)
unfolding require_warehouse require_branch
require_warehouse-Keeps c b w = search keeps_rules depth 9

IsConverted-fails :
    (c : Context) (env : Env) (i : Uuid) (p : QuotationConvert)
    → Takes (λ b. IsConverted i b.documents) (λ _. ⊥) (convert_quotation c env i p)
unfolding convert_quotation require_branch
IsConverted-fails c env i p =
    Takes-found (λ b. quotation_row i b.documents) not_found _
      λ q. Takes-after (raise_if (not (may_use_branch c q.branch_id)) _) _ (Keeps-raise_if _ _) λ _.
        Takes-after (require_warehouse c q.branch_id p.warehouse_id) _
          (require_warehouse-Keeps c q.branch_id p.warehouse_id)
          λ _.
            Takes-after (require_status (quotation_code q.status) (quotation_code accepted ∷ [])) _
              (Keeps-raise_if _ _)
              λ _.
                Takes-guard (is_some q.converted_order_id) (conflict "ALREADY_CONVERTED")
                  (convert env q p)
                  λ guard. record { at = λ s h. absurd (impossible q s guard h.0 h.1) }
  where
    impossible :
        (q : Quotation) (s : Session (Company Sales))
        → is_some q.converted_order_id ≡ false
        → IsConverted i s.rows.documents
        → quotation_row i s.rows.documents ≡ some q
        → ⊥
    impossible q s guard (r, found, done) row = cc

-- In a company whose invariants hold, a quotation has become an order. Wherever the quotation's row
-- stands as that left it, no further conversion of it returns, whoever asks for it, with whatever
-- warehouse and date.
pub convert_again :
    (c c2 : Context) (env env2 : Env) (i : Uuid) (p p2 : QuotationConvert) (o : SalesOrder)
    (s t v : Session (Company Sales))
    → Sound s.rows
    → convert_quotation c env i p s ≡ ok (o, t)
    → quotation_row i v.rows.documents ≡ quotation_row i t.rows.documents
    → (e : Failure) × (convert_quotation c2 env2 i p2 v ≡ err e)
convert_again c c2 env env2 i p p2 o s t v h e same =
    let after =
      subst (Ensures (Stands (IsConverted i))) e
        ((convert_quotation-IsConverted c env i p).at s h) in
    let (q, found, done) = after.documents in
    fails (convert_quotation c2 env2 i p2) v (q, same ∙ found, done)
      (IsConverted-fails c2 env2 i p2)
