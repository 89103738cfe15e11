-- ===== src/Vat/Tests.antt =====
-- The VAT theorems at a rate of 15 %, a sale and a return for its month.
use nexora_ai.Session.Served.{serve_all}
use nexora_ai.Prelude.{◌+◌, ◌==◌, first, ◌≡◌, refl, false, none, some, List, [], ◌∷◌, arith}
use nexora_ai.Prelude.Int.{pos, ◌+ℤ◌, ◌-ℤ◌}
use nexora_ai.Decimal.{to_money}
use nexora_ai.Session.{Context, Env, Session, ok, service_transaction, audit}
use nexora_ai.Vat.Model.{
  insert_rate, insert_transaction, insert_return, VatRate, VatReturn, Register, output, filed,
}
use nexora_ai.Vat.Pricing.{Breakdown, inclusive}
use nexora_ai.Vat.Pricing.Agree.{Agrees, inclusive-Agrees}
use nexora_ai.Vat.Returns.{totals_of, prepare_return, file_return, claim_and_file}
use nexora_ai.Vat.Register.{
  record_taxed, rate_on, RateCreate, Taxed, new_rate, create_rate, new_transaction, rate_in,
}
use nexora_ai.Vat.Rates.{Resolves, rate_in-Resolves, create_rate_later}
use nexora_ai.Vat.Grouping.{
  RateLine, Summarises, group_taxable_lines, group_taxable_lines-Summarises,
}
use nexora_ai.Vat.Reversal.{reversal, reversed_sale}
use nexora_ai.Vat.Filed.{IsRegister, claimed}
use nexora_ai.Vat.Requests.{
  perform, Request, taxed_of, prepare_of, file_of, serve, serve-IsRegister, serve-Stays,
}

abbrev accountant : Context
accountant = record { membership_id = 7; permissions = []; branch_ids = none }

abbrev clock : Env
clock = record { uuid7 = λ n. n + 100; now = 50; today = 20_260_401 }

abbrev standard : VatRate
standard = record {
  id = 1;
  code = "STANDARD";
  rate = pos 150_000;
  valid_from = 20_250_701;
  valid_to = none;
}

abbrev opened : Session Register
opened = record {
  rows = record { rates = standard ∷ []; transactions = []; returns = [] };
  sequences = [];
  audit_rows = [];
  drawn = 0;
}

-- 1,000.00 with 150.00 of VAT.
abbrev sale : Taxed
sale = record {
  direction = output;
  occurred_on = 20_260_310;
  source_type = "invoice";
  source_id = 60;
  taxable_amount = pos 1_000_000_000_000_000;
  vat_amount = pos 150_000_000_000_000;
  rate = pos 150_000;
  rate_code = some "STANDARD";
  is_reversal = false;
}

-- The sale, the return for March and its filing, as identifiers 100 and 101.
abbrev march : List (Context × Env × Request)
march =
    (accountant, clock, taxed_of sale)
    ∷ (accountant, clock, prepare_of 20_260_301 20_260_331)
    ∷ (accountant, clock, file_of 101)
    ∷ []

abbrev march_return : VatReturn
march_return = record {
  id = 101;
  period_start = 20_260_301;
  period_end = 20_260_331;
  status = filed;
  totals = record {
    output_vat = pos 1_500_000;
    input_vat = pos 0;
    net_vat = pos 1_500_000;
    taxable_sales = pos 10_000_000;
    taxable_purchases = pos 0;
  };
  filed_at = some 50;
  filed_by = some 7;
}

-- A rate of 20 % from 2027 on.
abbrev raised : RateCreate
raised = record { code = "STANDARD"; rate = pos 200_000; valid_from = 20_270_101; valid_to = none }

opened-IsRegister : IsRegister opened.rows
opened-IsRegister = record { returns_distinct = tt; stated = tt; unknown = λ i h. refl }

march_filed : first (λ q. 101 == q.id) (serve march opened).rows.returns ≡ some march_return
unfolding serve_all service_transaction perform record_taxed insert_transaction to_money
    prepare_return insert_return totals_of file_return claim_and_file audit rate_on ◌+ℤ◌ ◌-ℤ◌
march_filed = refl

created :
    create_rate clock raised opened
    ≡ ok (
      new_rate 100 raised,
      record opened {
        rows = record opened.rows { rates = standard ∷ new_rate 100 raised ∷ [] };
        audit_rows =
            record {
              action = "vat.rate_created";
              resource_type = "vat_rate";
              resource_id = some 100;
            }
            ∷ [];
        drawn = 1;
      },
    )
unfolding create_rate insert_rate audit
created = refl

-- 100.00 with its VAT of 15 %.
inclusive-Agrees_example :
    (b : Breakdown) × (inclusive (pos 100_000_000_000_000) (pos 150_000) ≡ ok b)
    × Agrees (pos 100_000_000_000_000) (pos 150_000) b
inclusive-Agrees_example = inclusive-Agrees 100_000_000_000_000 150_000 (omega arith)

serve-IsRegister_example : IsRegister (serve march opened).rows
serve-IsRegister_example = serve-IsRegister march opened opened-IsRegister

-- A second sale in March and a second filing after the return is filed.
serve-Stays_example :
    (first (λ q. 101 == q.id) (serve march (serve march opened)).rows.returns ≡ some march_return)
    × (claimed 101 (serve march (serve march opened)).rows.transactions
        ≡ claimed 101 (serve march opened).rows.transactions)
serve-Stays_example = serve-Stays march (serve march opened) 101 march_return refl march_filed

rate_in-Resolves_example :
    Resolves "STANDARD" 20_260_310
      (standard ∷ new_rate 100 raised ∷ [])
      (rate_in "STANDARD" 20_260_310 (standard ∷ new_rate 100 raised ∷ []))
rate_in-Resolves_example =
    rate_in-Resolves "STANDARD" 20_260_310 (standard ∷ new_rate 100 raised ∷ [])

create_rate_later_example :
    rate_in "STANDARD" 20_260_310 (standard ∷ new_rate 100 raised ∷ [])
    ≡ rate_in "STANDARD" 20_260_310 (standard ∷ [])
create_rate_later_example =
    create_rate_later clock raised opened "STANDARD" 20_260_310 created (omega arith)

abbrev document : List RateLine
document =
    record { rate = pos 150_000; net = pos 100; tax = pos 15 }
    ∷ record { rate = pos 0; net = pos 40; tax = pos 0 }
    ∷ record { rate = pos 150_000; net = pos 20; tax = pos 3 }
    ∷ []

group_taxable_lines-Summarises_example : Summarises document (group_taxable_lines document)
group_taxable_lines-Summarises_example = group_taxable_lines-Summarises document

reversed_sale_example :
    let t = new_transaction 60 sale in
    let after = totals_of (t ∷ new_transaction 61 (reversal sale) ∷ []) in
    (after.output_vat ≡ (totals_of []).output_vat)
    × (after.taxable_sales ≡ (totals_of []).taxable_sales +ℤ t.taxable_amount +ℤ t.taxable_amount)
reversed_sale_example = reversed_sale 60 61 sale [] refl refl
