-- ===== src/Inventory/Reconcile/Reports.antt =====
-- What the reconciliation reports and writes, for any stock.
use nexora_ai.Prelude.{
  ℕ, zero, suc, append_assoc, append_nil, ◌+◌, ◌≡◌, refl, sym, ap, ◌∙◌, Bool, true, ◌&&◌, not, List,
  [], ◌∷◌, ◌++◌, length, none, arith, if◌then◌else◌, select_where, Bool-cases, inl, inr,
}
use nexora_ai.Prelude.Int.{ℤ, eq_ℤ, ◌-ℤ◌}
use nexora_ai.Session.{AuditRow, Session, ok, bind_ok, audit, pure}
use nexora_ai.Inventory.Model.{InventoryBalance, InventoryMovement, Stock}
use nexora_ai.Inventory.Transfers.{ledger}
use nexora_ai.Inventory.Reconcile.{
  LedgerRow, ledger_row, row_first, insert_row, ledger_rows, reconciliation, differs, audit_drift,
  with_difference, Reconciliation, reconcile,
}

-- How many elements pass a test.
abbrev pub count {ℓ} : {A : Type ℓ} → (A → Bool) → List A → ℕ
count t [] = 0
count t (x ∷ xs) = (if t x then 1 else 0) + count t xs

-- What is wrong with a balance: it differs from the sum of its movements.
abbrev pub is_off : List InventoryMovement → InventoryBalance → Bool
is_off ms b = not (eq_ℤ (ledger b.warehouse_id b.product_id ms) b.quantity_on_hand)

-- The report on a balance.
abbrev pub item_of : List InventoryMovement → InventoryBalance → LedgerRow × ℤ
item_of ms b = (
  record {
    warehouse_id = b.warehouse_id;
    product_id = b.product_id;
    ledger_quantity = ledger b.warehouse_id b.product_id ms;
    cached_quantity = b.quantity_on_hand;
  },
  ledger b.warehouse_id b.product_id ms -ℤ b.quantity_on_hand,
)

abbrev drift_event : AuditRow
drift_event = record {
  action = "inventory.reconciliation_drift";
  resource_type = "inventory_balance";
  resource_id = none;
}

abbrev pub drift_events : ℕ → List AuditRow
drift_events zero = []
drift_events (suc n) = drift_event ∷ drift_events n

module _ (g : LedgerRow × ℤ → Bool) where
  abbrev reported : LedgerRow → Bool
  reported r = differs r && g (r, r.ledger_quantity -ℤ r.cached_quantity)

  count-drift :
      (rs : List LedgerRow)
      → count g (with_difference (select_where differs rs)) ≡ count reported rs
  count-drift [] = refl
  count-drift (r ∷ rs) = elim (Bool-cases (differs r)) [
    | inl e ↦ rw (e, count-drift rs) refl
    | inr e ↦ rw (e, count-drift rs) (omega arith)
  ]

count-insert_row :
    (t : LedgerRow → Bool) (q : LedgerRow) (rs : List LedgerRow)
    → count t (insert_row q rs) ≡ count t (q ∷ rs)
count-insert_row t q [] = refl
count-insert_row t q (r ∷ rs) = elim (Bool-cases (row_first q r)) [
  | inl e ↦ rw e refl
  | inr e ↦ let rest = count-insert_row t q rs in rw (e, rest) (omega arith)
]

count-ledger_rows :
    (t : LedgerRow → Bool) (ms : List InventoryMovement) (bs : List InventoryBalance)
    → count t (ledger_rows ms bs) ≡ count (λ b. t (ledger_row ms b)) bs
count-ledger_rows t ms [] = refl
count-ledger_rows t ms (b ∷ bs) =
    count-insert_row t (ledger_row ms b) (ledger_rows ms bs)
    ∙ ap (λ n. (if t (ledger_row ms b) then 1 else 0) + n) (count-ledger_rows t ms bs)

count_all {ℓ} : {A : Type ℓ} (xs : List A) → count (λ _. true) xs ≡ length xs
count_all [] = refl
count_all (x ∷ xs) = omega (arith, count_all xs)

audit_drift_lem :
    (rs : List LedgerRow) (s : Session Stock)
    → audit_drift rs s ≡ ok (tt, record s { audit_rows = s.audit_rows ++ drift_events (length rs) })
unfolding audit_drift audit
audit_drift_lem [] s =
    ap (λ rows. ok (tt, record s { audit_rows = rows })) (sym (append_nil s.audit_rows))
audit_drift_lem (r ∷ rs) s =
    audit_drift_lem rs (record s { audit_rows = s.audit_rows ++ drift_event ∷ [] })
    ∙ ap (λ rows. ok (tt, record s { audit_rows = rows }))
        (append_assoc s.audit_rows (drift_event ∷ []) (drift_events (length rs)))

length-with_difference : (rs : List LedgerRow) → length (with_difference rs) ≡ length rs
length-with_difference [] = refl
length-with_difference (r ∷ rs) = ap suc (length-with_difference rs)

-- What `reconcile` answers, in any stock, whether it keeps the invariant or not: it returns; every
-- balance is checked; the drift has, in some order, one item for every balance whose quantity is not
-- the sum of its movements, with both figures and their difference, and no other item, so that any
-- test passes on as many items of the drift as on such balances; and nothing is written but one
-- audit event for each item.
pub reconcile_reports :
    (s : Session Stock)
    → (report : Reconciliation) × (reconcile s
        ≡ ok (report, record s { audit_rows = s.audit_rows ++ drift_events (length report.drift) }))
      × (report.checked ≡ length s.rows.balances)
      × ((g : LedgerRow × ℤ → Bool)
          → count g report.drift
            ≡ count
                (λ b. is_off s.rows.movements b && g (item_of s.rows.movements b))
                s.rows.balances)
unfolding reconcile reconciliation
reconcile_reports s =
    let ms = s.rows.movements in
    let bs = s.rows.balances in
    let rows = ledger_rows ms bs in
    let off = select_where differs rows in
    (
      record { checked = length rows; drift = with_difference off },
      bind_ok (audit_drift off)
            (λ _. pure (record { checked = length rows; drift = with_difference off }))
            (audit_drift_lem off s)
          ∙ ap
              (λ n. ok (
                record { checked = length rows; drift = with_difference off },
                record s { audit_rows = s.audit_rows ++ drift_events n },
              ))
              (sym (length-with_difference off)),
      sym (count_all rows) ∙ count-ledger_rows (λ _. true) ms bs ∙ count_all bs,
      λ g. count-drift g rows ∙ count-ledger_rows (reported g) ms bs,
    )
