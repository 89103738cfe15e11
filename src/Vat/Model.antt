-- ===== src/Vat/Model.antt =====
-- The rows of `vat/models.py` with the constraints of their tables. Rates count units of 10 ^ -6
-- and amounts units of 10 ^ -4; the rows are one tenant's.
use nexora_ai.Prelude.{
  ℕ, String, Bool, true, false, ◌&&◌, ◌||◌, not, Option, none, some, List, [], ◌∷◌, ◌++◌, ◌==◌, leb,
  str_eq, any_of,
}
use nexora_ai.Prelude.Int.{ℤ, pos, ltb_ℤ, leb_ℤ}
use nexora_ai.Session.{Uuid, Date, Tx, integrity_error, raise_if, modify, gets, ◌>>=◌, ◌>>◌}

pub data VatDirection : Type 0 where
  output input : VatDirection

abbrev pub same_direction : VatDirection → VatDirection → Bool
same_direction output output = true
same_direction input input = true
same_direction _ _ = false

pub data VatReturnStatus : Type 0 where
  draft filed : VatReturnStatus

abbrev pub is_filed : VatReturnStatus → Bool
is_filed draft = false
is_filed filed = true

pub record VatRate : Type 0 where
  pub id : Uuid
  pub code : String
  pub rate : ℤ
  pub valid_from : Date
  pub valid_to : Option Date

pub record VatTransaction : Type 0 where
  pub id : Uuid
  pub direction : VatDirection
  pub occurred_on : Date
  pub source_type : String
  pub source_id : Uuid
  pub rate_code : Option String
  pub rate : ℤ
  pub taxable_amount : ℤ
  pub vat_amount : ℤ
  pub is_reversal : Bool
  pub vat_return_id : Option Uuid

-- The five figures of a return.
pub record Totals : Type 0 where
  pub output_vat : ℤ
  pub input_vat : ℤ
  pub net_vat : ℤ
  pub taxable_sales : ℤ
  pub taxable_purchases : ℤ

pub record VatReturn : Type 0 where
  pub id : Uuid
  pub period_start : Date
  pub period_end : Date
  pub status : VatReturnStatus
  pub totals : Totals
  pub filed_at : Option ℕ
  pub filed_by : Option Uuid

pub record Register : Type 0 where
  pub rates : List VatRate
  pub transactions : List VatTransaction
  pub returns : List VatReturn

-- `rate >= 0 AND rate <= 1`
abbrev pub rate_range : ℤ → Bool
rate_range rate = leb_ℤ (pos 0) rate && leb_ℤ rate (pos 1_000_000)

abbrev pub valid_range : VatRate → Bool
valid_range r = elim r.valid_to [ none ↦ true | some last ↦ leb r.valid_from last ]

-- The unique key (tenant, code, valid from) is the one whose name and detail hold `code`.
unfoldable pub insert_rate : VatRate → Tx Register Unit
insert_rate r = do
  taken ← gets (λ b. any_of (λ q. str_eq r.code q.code && r.valid_from == q.valid_from) b.rates)
  raise_if taken (integrity_error "code")
  raise_if (not (rate_range r.rate)) (integrity_error "rate_range")
  raise_if (not (valid_range r)) (integrity_error "valid_range")
  modify (λ b. record b { rates = b.rates ++ r ∷ [] })

abbrev pub reversal_sign : VatTransaction → Bool
reversal_sign t =
    (leb_ℤ (pos 0) t.vat_amount && not t.is_reversal)
    || (leb_ℤ t.vat_amount (pos 0) && t.is_reversal)

unfoldable pub insert_transaction : VatTransaction → Tx Register Unit
insert_transaction t = do
  raise_if (not (rate_range t.rate)) (integrity_error "rate_range")
  raise_if (ltb_ℤ t.taxable_amount (pos 0)) (integrity_error "taxable_nonnegative")
  raise_if (not (reversal_sign t)) (integrity_error "reversal_sign")
  modify (λ b. record b { transactions = b.transactions ++ t ∷ [] })

-- `totals_nonnegative`
abbrev pub is_negative : Totals → Bool
is_negative t = ltb_ℤ t.output_vat (pos 0) || ltb_ℤ t.input_vat (pos 0)

abbrev pub same_period : VatReturn → VatReturn → Bool
same_period r q = r.period_start == q.period_start && r.period_end == q.period_end

unfoldable pub insert_return : VatReturn → Tx Register Unit
insert_return r = do
  taken ← gets (λ b. any_of (λ q. r.id == q.id || same_period r q) b.returns)
  raise_if (taken || is_negative r.totals || not (leb r.period_start r.period_end))
      (integrity_error "vat_returns")
  modify (λ b. record b { returns = b.returns ++ r ∷ [] })
