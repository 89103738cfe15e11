-- ===== src/Idempotency/Tests.antt =====
-- The theorems on keys at an endpoint that takes payments.
use nexora_ai.Prelude.{ℕ, ◌≡◌, ◌==◌, refl, true, false, some, List, [], ◌∷◌, first, if◌then◌else◌}
use nexora_ai.Session.{Session, Tx, ok, err, domain_validation}
use nexora_ai.Idempotency.{
  IdempotencyKey, completed, Keyed, Endpoint, guarded, claim, claim_or_replay, answer,
  answer_stored, do_work, complete,
}
use nexora_ai.Idempotency.Once.{guarded_again, guarded_other}

-- A payment has a number and an amount.
abbrev Payment : Type 0
Payment = ℕ × ℕ

abbrev take_payment : ℕ → Tx (List Payment) Payment
take_payment amount s = ok ((7, amount), record s { rows = (7, amount) ∷ s.rows })

-- Two bodies, and a hash that tells them apart.
abbrev payments : Endpoint ℕ ℕ (List Payment) Payment
payments = record {
  path = "POST /sales/payments";
  digest = λ amount. if amount == 100 then "hash of 100" else "another hash";
  work = take_payment;
  respond = λ p. p.0;
  found = λ i ps. first (λ p. i == p.0) ps;
}

abbrev with_rows : Keyed ℕ (List Payment) → Session (Keyed ℕ (List Payment))
with_rows b = record { rows = b; sequences = []; audit_rows = []; drawn = 0 }

abbrev paid_key : IdempotencyKey ℕ
paid_key = record {
  endpoint = "POST /sales/payments";
  key = "k-1";
  request_hash = "hash of 100";
  status = completed;
  response_status = some 201;
  response_body = some 7;
}

abbrev unpaid : Session (Keyed ℕ (List Payment))
unpaid = with_rows (record { keys = []; work = [] })

abbrev paid : Session (Keyed ℕ (List Payment))
paid = with_rows (record { keys = paid_key ∷ []; work = (7, 100) ∷ [] })

-- Another payment has come in between.
abbrev later : Session (Keyed ℕ (List Payment))
later = with_rows (record { keys = paid_key ∷ []; work = (8, 30) ∷ (7, 100) ∷ [] })

paid_lem : guarded payments (some "k-1") 100 unpaid ≡ ok (((7, 100), false), paid)
unfolding guarded claim claim_or_replay answer answer_stored do_work complete
paid_lem = refl

guarded_again_example : guarded payments (some "k-1") 100 later ≡ ok (((7, 100), true), later)
guarded_again_example =
    guarded_again payments "k-1" 100 unpaid (7, 100) paid later refl paid_lem refl refl

guarded_other_example :
    guarded payments (some "k-1") 200 later ≡ err (domain_validation "IDEMPOTENCY_KEY_REUSE")
guarded_other_example =
    guarded_other payments "k-1" 100 200 unpaid (7, 100) paid later refl paid_lem refl refl
