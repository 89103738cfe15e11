-- ===== src/Vat/Filed.antt =====
-- What a filed return promises: its figures are those of the rows that it has claimed, which lie in
-- its period, and a draft has claimed none.
pub mod Filing
pub mod Forever
pub mod Kept
use nexora_ai.Prelude.{
  ℕ, ◌≡◌, refl, sym, ap, ◌∙◌, subst, Bool, true, false, ◌&&◌, not, Option, none, some, List, [],
  ◌∷◌, ◌++◌, ◌==◌, leb, arith, All, any_of, first, select_where, update_where, if◌then◌else◌,
  Bool-cases, inl, inr, ==_refl,
}
use nexora_ai.Prelude.Groups.{Distinct}
use nexora_ai.Session.{Uuid}
use nexora_ai.Vat.Model.{VatTransaction, VatReturn, Totals, Register, is_filed}
use nexora_ai.Vat.Returns.{is_open, is_claimed, totals_of, claim_rows}

abbrev pub return_id : VatReturn → Uuid
return_id r = r.id

abbrev pub claimed : Uuid → List VatTransaction → List VatTransaction
claimed i ts = select_where (is_claimed i) ts

abbrev pub in_period : VatReturn → VatTransaction → Bool
in_period r t = leb r.period_start t.occurred_on && leb t.occurred_on r.period_end

-- A return, among the rows of the register.
pub record IsStated (ts : List VatTransaction) (r : VatReturn) : Type 0 where
  pub figures : is_filed r.status ≡ true → r.totals ≡ totals_of (claimed r.id ts)
  pub in_its_period : is_filed r.status ≡ true → All (λ t. in_period r t ≡ true) (claimed r.id ts)
  pub nothing_claimed : is_filed r.status ≡ false → claimed r.id ts ≡ []

pub record IsRegister (b : Register) : Type 0 where
  pub returns_distinct : Distinct return_id b.returns
  pub stated : All (IsStated b.transactions) b.returns
  pub unknown :
      (i : Uuid) → any_of (λ r. i == r.id) b.returns ≡ false → claimed i b.transactions ≡ []

abbrev pub with_claim : VatReturn → List VatTransaction → List VatTransaction
with_claim r ts =
    update_where (is_open r.period_start r.period_end) (λ t. record t { vat_return_id = some r.id })
      ts

-- A row that is recorded is claimed by nothing.
pub claimed-append :
    (i : Uuid) (ts : List VatTransaction) (t : VatTransaction)
    → is_claimed i t ≡ false
    → claimed i (ts ++ t ∷ []) ≡ claimed i ts
claimed-append i [] t n = rw n refl
claimed-append i (x ∷ ts) t n = ground (arith, claimed-append i ts t n)

-- Filing one return leaves the rows of another.
pub claimed-other :
    (i : Uuid) (r : VatReturn) (ts : List VatTransaction)
    → (i == r.id) ≡ false
    → claimed i (with_claim r ts) ≡ claimed i ts
claimed-other i r [] n = refl
claimed-other i r (t ∷ ts) n = ground (arith, claimed-other i r ts n)

-- A draft that is filed claims rows of its period only.
pub claimed-in_period :
    (r : VatReturn) (ts : List VatTransaction)
    → claimed r.id ts ≡ []
    → All (λ t. in_period r t ≡ true) (claimed r.id (with_claim r ts))
claimed-in_period r [] e = tt
claimed-in_period r (t ∷ ts) e =
    let unclaimed : is_claimed r.id t ≡ false = ground (arith, e) in
    let later = claimed-in_period r ts (ground (arith, e)) in
    elim (Bool-cases (is_open r.period_start r.period_end t)) [
      | inl o ↦ rw o (rw (==_refl r.id) (ground (arith, o), later))
      | inr o ↦ rw o (rw unclaimed later)
    ]
