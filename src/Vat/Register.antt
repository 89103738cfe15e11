-- ===== src/Vat/Register.antt =====
-- `VatService`: rates by date, prices and the register.
use nexora_ai.Prelude.{
  String, Bool, true, ◌&&◌, Option, none, some, List, [], ◌∷◌, leb, str_eq, if◌then◌else◌,
  select_where,
}
use nexora_ai.Prelude.Int.{ℤ, pos, neg, abs}
use nexora_ai.Decimal.{to_money}
use nexora_ai.Session.{
  Uuid, Date, Env, not_found, conflict, integrity_error, Tx, Result, ok, err, pure, or_raise, gets,
  new_id, audit, ◌>>=◌, ◌>>◌,
}
use nexora_ai.Vat.Model.{
  VatDirection, VatRate, VatTransaction, Register, insert_rate, insert_transaction,
}
use nexora_ai.Vat.Pricing.{Breakdown, inclusive, exclusive}

-- `_rate_on`: the rows in force on a date, the latest of them first.
abbrev pub in_force : String → Date → VatRate → Bool
in_force code on_date r =
    str_eq code r.code
    && leb r.valid_from on_date
    && elim r.valid_to [ none ↦ true | some last ↦ leb on_date last ]

abbrev pub later_rate : VatRate → Option VatRate → Option VatRate
later_rate r none = some r
later_rate r (some q) = if leb q.valid_from r.valid_from then some r else some q

abbrev pub latest : List VatRate → Option VatRate
latest [] = none
latest (r ∷ rs) = later_rate r (latest rs)

unfoldable pub rate_in : String → Date → List VatRate → Option VatRate
rate_in code on_date rates = latest (select_where (in_force code on_date) rates)

unfoldable pub rate_on : String → Date → Tx Register VatRate
rate_on code on_date = do found ← gets (λ b. rate_in code on_date b.rates); or_raise found not_found

pub record RateCreate : Type 0 where
  pub code : String
  pub rate : ℤ
  pub valid_from : Date
  pub valid_to : Option Date

-- `except IntegrityError as exc: if "code" in str(exc.orig)`
abbrev pub except_code : {A : Type 0} → Tx Register A → Tx Register A
except_code m s = elim (m s) [
  | ok r ↦ ok r
  | err (integrity_error name) ↦
      if str_eq name "code" then err (conflict "DUPLICATE_RESOURCE") else err (integrity_error name)
  | err f ↦ err f
]

abbrev pub new_rate : Uuid → RateCreate → VatRate
new_rate i q = record {
  id = i;
  code = q.code;
  rate = q.rate;
  valid_from = q.valid_from;
  valid_to = q.valid_to;
}

-- `create_rate`
unfoldable pub create_rate : Env → RateCreate → Tx Register VatRate
create_rate env q = except_code (do
  i ← new_id env
  insert_rate (new_rate i q)
  audit "vat.rate_created" "vat_rate" (some i)
  pure (new_rate i q))

pub record PriceQuery : Type 0 where
  pub amount : ℤ
  pub rate_code : String
  pub on_date : Date
  pub is_inclusive : Bool

abbrev pub lift_result : {A : Type 0} → Result A → Tx Register A
lift_result (ok a) s = ok (a, s)
lift_result (err e) s = err e

-- `breakdown`
unfoldable pub breakdown : PriceQuery → Tx Register Breakdown
breakdown q = do
  r ← rate_on q.rate_code q.on_date
  lift_result (if q.is_inclusive then inclusive q.amount r.rate else ok (exclusive q.amount r.rate))

-- The keyword arguments of `record`, amounts in units of 10 ^ -12.
pub record Taxed : Type 0 where
  pub direction : VatDirection
  pub occurred_on : Date
  pub source_type : String
  pub source_id : Uuid
  pub taxable_amount : ℤ
  pub vat_amount : ℤ
  pub rate : ℤ
  pub rate_code : Option String
  pub is_reversal : Bool

abbrev pub new_transaction : Uuid → Taxed → VatTransaction
new_transaction i x = record {
  id = i;
  direction = x.direction;
  occurred_on = x.occurred_on;
  source_type = x.source_type;
  source_id = x.source_id;
  rate_code = x.rate_code;
  rate = x.rate;
  taxable_amount = to_money (pos (abs x.taxable_amount));
  vat_amount =
      to_money (if x.is_reversal then neg (pos (abs x.vat_amount)) else pos (abs x.vat_amount));
  is_reversal = x.is_reversal;
  vat_return_id = none;
}

-- `record`, inside another module's transaction.
unfoldable pub record_taxed : Env → Taxed → Tx Register VatTransaction
record_taxed env x = do
  i ← new_id env
  insert_transaction (new_transaction i x)
  pure (new_transaction i x)
