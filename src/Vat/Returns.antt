-- ===== src/Vat/Returns.antt =====
-- `prepare_return` and `file_return` of `VatService`.
use nexora_ai.Prelude.{
  Bool, false, ◌&&◌, not, none, some, List, ◌==◌, leb, ltb, any_of, first, select_where,
  update_where, is_some,
}
use nexora_ai.Prelude.Int.{ℤ, ◌-ℤ◌, total}
use nexora_ai.Session.{
  Uuid, Date, Context, Env, not_found, conflict, domain_validation, integrity_error, Tx, pure,
  raise_if, or_raise, gets, modify, new_id, audit, ◌>>=◌, ◌>>◌,
}
use nexora_ai.Vat.Model.{
  VatDirection, output, input, same_direction, draft, filed, is_filed, VatTransaction, VatReturn,
  Totals, Register, insert_return, is_negative,
}

-- `SUM(…) FILTER (WHERE direction = …)`
abbrev pub side : VatDirection → (VatTransaction → ℤ) → List VatTransaction → ℤ
side d f ts = total f (select_where (λ t. same_direction d t.direction) ts)

-- The sums of stored amounts have four places, so `quantize` leaves them.
unfoldable pub totals_of : List VatTransaction → Totals
totals_of ts =
    let out = side output (λ t. t.vat_amount) ts in
    let inp = side input (λ t. t.vat_amount) ts in
    record {
      output_vat = out;
      input_vat = inp;
      net_vat = out -ℤ inp;
      taxable_sales = side output (λ t. t.taxable_amount) ts;
      taxable_purchases = side input (λ t. t.taxable_amount) ts;
    }

-- `occurred_on BETWEEN :start AND :end AND vat_return_id IS NULL`
abbrev pub is_open : Date → Date → VatTransaction → Bool
is_open start end t =
    leb start t.occurred_on && leb t.occurred_on end && not (is_some t.vat_return_id)

abbrev pub new_return : Uuid → Date → Date → Totals → VatReturn
new_return i start end totals = record {
  id = i;
  period_start = start;
  period_end = end;
  status = draft;
  totals = totals;
  filed_at = none;
  filed_by = none;
}

-- `prepare_return`
unfoldable pub prepare_return : Env → Date → Date → Tx Register VatReturn
prepare_return env start end = do
  raise_if (ltb end start) (domain_validation "INVALID_DATE_RANGE")
  existing ← gets (λ b. any_of (λ r. r.period_start == start && r.period_end == end) b.returns)
  raise_if existing (conflict "RETURN_EXISTS")
  open_rows ← gets (λ b. select_where (is_open start end) b.transactions)
  i ← new_id env
  insert_return (new_return i start end (totals_of open_rows))
  audit "vat.return_prepared" "vat_return" (some i)
  pure (new_return i start end (totals_of open_rows))

-- `vat_return_id = :return_id`
abbrev pub is_claimed : Uuid → VatTransaction → Bool
is_claimed i t = elim t.vat_return_id [ none ↦ false | some j ↦ i == j ]

abbrev pub claim_rows : VatReturn → Register → Register
claim_rows r b = record b {
  transactions =
      update_where (is_open r.period_start r.period_end)
        (λ t. record t { vat_return_id = some r.id }) b.transactions;
}

abbrev pub filed_return : Context → Env → Totals → VatReturn → VatReturn
filed_return c env totals r = record r {
  status = filed;
  totals = totals;
  filed_at = some env.now;
  filed_by = some c.membership_id;
}

abbrev pub put_return : VatReturn → Register → Register
put_return r b = record b { returns = update_where (λ q. r.id == q.id) (λ _. r) b.returns }

-- The rows are claimed, and the return is filed with their totals.
unfoldable pub claim_and_file : Context → Env → VatReturn → Tx Register VatReturn
claim_and_file c env r = do
  modify (claim_rows r)
  rows ← gets (λ b. select_where (is_claimed r.id) b.transactions)
  raise_if (is_negative (totals_of rows)) (integrity_error "totals_nonnegative")
  modify (put_return (filed_return c env (totals_of rows) r))
  audit "vat.return_filed" "vat_return" (some r.id)
  pure (filed_return c env (totals_of rows) r)

-- `file_return`
unfoldable pub file_return : Context → Env → Uuid → Tx Register VatReturn
file_return c env i = do
  found ← gets (λ b. first (λ r. i == r.id) b.returns)
  r ← or_raise found not_found
  raise_if (is_filed r.status) (conflict "RETURN_ALREADY_FILED")
  claim_and_file c env r
