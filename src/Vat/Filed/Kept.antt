-- ===== src/Vat/Filed/Kept.antt =====
-- Every operation of `VatService` keeps the promise of filed returns.
use nexora_ai.Prelude.{
  ◌≡◌, refl, sym, ap, ◌∙◌, subst, true, List, [], ◌∷◌, ◌++◌, All, if◌then◌else◌, Bool-cases, inl,
  inr, str_eq,
}
use nexora_ai.Session.{
  Uuid, Env, not_found, permission_denied, conflict, domain_validation, runtime_error, value_error,
  integrity_error, database_error, Session, Tx, Result, ok, err,
}
use nexora_ai.Session.Keeps.{Keeps, Ensures, Keeps-modify, keeps_rules}
use nexora_ai.Vat.Model.{
  VatRate, VatTransaction, VatReturn, Register, insert_rate, insert_transaction,
}
use nexora_ai.Vat.Register.{
  RateCreate, create_rate, except_code, Taxed, new_transaction, record_taxed,
}
use nexora_ai.Vat.Returns.{totals_of}
use nexora_ai.Vat.Filed.{claimed, in_period, IsStated, IsRegister, claimed-append}

pub Keeps-except_code :
    {A : Type 0} {P : Register → Type 0} (m : Tx Register A) → Keeps P m → Keeps P (except_code m)
Keeps-except_code {A} {P = P} m k = record { at = λ s h. go (m s) (k.at s h) }
  where
    go :
        (r : Result (A × Session Register))
        → Ensures P r
        → Ensures P (elim r [
          | ok u ↦ ok u
          | err (integrity_error name) ↦
              if str_eq name "code"
              then err (conflict "DUPLICATE_RESOURCE")
              else err (integrity_error name)
          | err f ↦ err f
        ])
    go (ok u) e = e
    go (err not_found) e = tt
    go (err (permission_denied c)) e = tt
    go (err (conflict c)) e = tt
    go (err (domain_validation c)) e = tt
    go (err (runtime_error c)) e = tt
    go (err (value_error c)) e = tt
    go (err (database_error c)) e = tt
    go (err (integrity_error c)) e = elim (Bool-cases (str_eq c "code")) [
      | inl t ↦ rw t tt
      | inr t ↦ rw t tt
    ]

same_rows :
    (b : Register) (rates : List VatRate) → IsRegister b → IsRegister (record b { rates = rates })
same_rows b rates h = record {
  returns_distinct = h.returns_distinct;
  stated = h.stated;
  unknown = h.unknown;
}

insert_rate-IsRegister : (r : VatRate) → Keeps IsRegister (insert_rate r)
unfolding insert_rate
insert_rate-IsRegister r = search (keeps_rules, Keeps-modify, same_rows) depth 12

pub create_rate-IsRegister : (env : Env) (q : RateCreate) → Keeps IsRegister (create_rate env q)
unfolding create_rate
create_rate-IsRegister env q =
    search (keeps_rules, Keeps-except_code, insert_rate-IsRegister) depth 9

-- What a return states stays true of rows that it claims the same of.
pub IsStated-same :
    (ts us : List VatTransaction) (r : VatReturn)
    → claimed r.id us ≡ claimed r.id ts
    → IsStated ts r
    → IsStated us r
IsStated-same ts us r e h = record {
  figures = λ f. h.figures f ∙ ap totals_of (sym e);
  in_its_period = λ f. subst (All (λ t. in_period r t ≡ true)) (sym e) (h.in_its_period f);
  nothing_claimed = λ f. e ∙ h.nothing_claimed f;
}

All-IsStated :
    (ts us : List VatTransaction) (rs : List VatReturn)
    → ((i : Uuid) → claimed i us ≡ claimed i ts)
    → All (IsStated ts) rs
    → All (IsStated us) rs
All-IsStated ts us [] e h = tt
All-IsStated ts us (r ∷ rs) e h = (IsStated-same ts us r (e r.id) h.0, All-IsStated ts us rs e h.1)

recorded-IsRegister :
    (i : Uuid) (x : Taxed) (b : Register)
    → IsRegister b
    → IsRegister (record b { transactions = b.transactions ++ new_transaction i x ∷ [] })
recorded-IsRegister i x b h =
    let same : (j : Uuid)
        → claimed j (b.transactions ++ new_transaction i x ∷ []) ≡ claimed j b.transactions =
      λ j. claimed-append j b.transactions (new_transaction i x) refl in
    record {
      returns_distinct = h.returns_distinct;
      stated = All-IsStated b.transactions _ b.returns same h.stated;
      unknown = λ j n. same j ∙ h.unknown j n;
    }

insert_transaction-IsRegister :
    (i : Uuid) (x : Taxed) → Keeps IsRegister (insert_transaction (new_transaction i x))
unfolding insert_transaction
insert_transaction-IsRegister i x = search (keeps_rules, Keeps-modify, recorded-IsRegister) depth 12

pub record_taxed-IsRegister : (env : Env) (x : Taxed) → Keeps IsRegister (record_taxed env x)
unfolding record_taxed
record_taxed-IsRegister env x = search (keeps_rules, insert_transaction-IsRegister) depth 9
