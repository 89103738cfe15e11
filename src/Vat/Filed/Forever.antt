-- ===== src/Vat/Filed/Forever.antt =====
-- A filed return and the rows that it has claimed are what they were, whatever is done.
use mathlib.Core.Option.{some-injective}
use nexora_ai.Prelude.{
  ◌≡◌, refl, sym, ap, ◌∙◌, subst, true, false, some, List, [], ◌∷◌, ◌++◌, ◌==◌, arith, first,
  update_where, Bool-cases, inl, inr,
}
use nexora_ai.Prelude.Rows.{first-passes}
use nexora_ai.Session.{Uuid, Date, Context, Env}
use nexora_ai.Session.Keeps.{Keeps, Keeps-inv, Keeps-modify, keeps_rules}
use nexora_ai.Vat.Model.{
  VatTransaction, VatReturn, Register, VatRate, Totals, is_filed, insert_rate, insert_transaction,
  insert_return,
}
use nexora_ai.Vat.Register.{RateCreate, create_rate, Taxed, record_taxed, new_transaction}
use nexora_ai.Vat.Returns.{prepare_return, file_return, new_return, totals_of, filed_return}
use nexora_ai.Vat.Filed.{claimed, claimed-append, claimed-other, with_claim}
use nexora_ai.Vat.Filed.Kept.{Keeps-except_code}
use nexora_ai.Vat.Filed.Filing.{file_return_inv, insert_return_inv}

pub record Stays (i : Uuid) (r : VatReturn) (ts : List VatTransaction) (b : Register) : Type 0 where
  pub listed : first (λ q. i == q.id) b.returns ≡ some r
  pub rows : claimed i b.transactions ≡ ts

first-append :
    (i : Uuid) (rs qs : List VatReturn) (r : VatReturn)
    → first (λ q. i == q.id) rs ≡ some r
    → first (λ q. i == q.id) (rs ++ qs) ≡ some r
first-append i [] qs r e = cc
first-append i (q ∷ rs) qs r e = ground (arith, first-append i rs qs r)

first-replaced :
    (i : Uuid) (f : VatReturn) (rs : List VatReturn)
    → (i == f.id) ≡ false
    → first (λ q. i == q.id) (update_where (λ q. f.id == q.id) (λ _. f) rs)
      ≡ first (λ q. i == q.id) rs
first-replaced i f [] n = refl
first-replaced i f (q ∷ rs) n = ground (arith, first-replaced i f rs n)

module _ (i : Uuid) (r : VatReturn) (ts : List VatTransaction)
    (done : is_filed r.status ≡ true) where
  abbrev pub IsSame : Register → Type 0
  IsSame = Stays i r ts

  IsSame-rates :
      (b : Register) (rates : List VatRate) → IsSame b → IsSame (record b { rates = rates })
  IsSame-rates b rates h = record { listed = h.listed; rows = h.rows }

  insert_rate-IsSame : (q : VatRate) → Keeps IsSame (insert_rate q)
  unfolding insert_rate
  insert_rate-IsSame q = search (keeps_rules, Keeps-modify, IsSame-rates) depth 12

  pub create_rate-IsSame : (env : Env) (q : RateCreate) → Keeps IsSame (create_rate env q)
  unfolding create_rate
  create_rate-IsSame env q = search (keeps_rules, Keeps-except_code, insert_rate-IsSame) depth 9

  recorded :
      (j : Uuid) (x : Taxed) (b : Register)
      → IsSame b
      → IsSame (record b { transactions = b.transactions ++ new_transaction j x ∷ [] })
  recorded j x b h = record {
    listed = h.listed;
    rows = claimed-append i b.transactions (new_transaction j x) refl ∙ h.rows;
  }

  insert_transaction-IsSame :
      (j : Uuid) (x : Taxed) → Keeps IsSame (insert_transaction (new_transaction j x))
  unfolding insert_transaction
  insert_transaction-IsSame j x = search (keeps_rules, Keeps-modify, recorded) depth 12

  pub record_taxed-IsSame : (env : Env) (x : Taxed) → Keeps IsSame (record_taxed env x)
  unfolding record_taxed
  record_taxed-IsSame env x = search (keeps_rules, insert_transaction-IsSame) depth 9

  insert_return-IsSame :
      (j : Uuid) (start end : Date) (totals : Totals)
      → Keeps IsSame (insert_return (new_return j start end totals))
  insert_return-IsSame j start end totals =
      Keeps-inv {P = Stays i r ts} {m = insert_return (new_return j start end totals)} λ s u h e.
        let (_, after) = insert_return_inv (new_return j start end totals) s e in
        subst (Stays i r ts) (sym after)
          (record { listed = first-append i s.rows.returns _ r h.listed; rows = h.rows })

  pub prepare_return-IsSame :
      (env : Env) (start end : Date) → Keeps IsSame (prepare_return env start end)
  unfolding prepare_return
  prepare_return-IsSame env start end = search (keeps_rules, insert_return-IsSame) depth 14

  -- The return that is filed is a draft, hence another one.
  another :
      (j : Uuid) (q : VatReturn) (b : Register)
      → Stays i r ts b
      → first (λ x. j == x.id) b.returns ≡ some q
      → is_filed q.status ≡ false
      → (i == q.id) ≡ false
  another j q b h found draft = elim (Bool-cases (i == q.id)) [
    | inl e ↦
        let test = first-passes (λ (x : VatReturn). j == x.id) b.returns q found in
        let same : i ≡ j = ground arith in
        let one : r ≡ q =
          some-injective _ _ (
            sym h.listed ∙ ap (λ k. first (λ (x : VatReturn). k == x.id) b.returns) same ∙ found) in
        cc (sym done ∙ ap (λ (x : VatReturn). is_filed x.status) one ∙ draft)
    | inr e ↦ e
  ]

  pub file_return-IsSame : (c : Context) (env : Env) (j : Uuid) → Keeps IsSame (file_return c env j)
  file_return-IsSame c env j = Keeps-inv {P = Stays i r ts} {m = file_return c env j} λ s u h e.
      let (q, found, draft, after) = file_return_inv c env j s e in
      let other = another j q s.rows h found draft in
      let totals = totals_of (claimed q.id (with_claim q s.rows.transactions)) in
      subst (Stays i r ts) (sym after) (record {
        listed = first-replaced i (filed_return c env totals q) s.rows.returns other ∙ h.listed;
        rows = claimed-other i q s.rows.transactions other ∙ h.rows;
      })
