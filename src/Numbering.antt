-- ===== src/Numbering.antt =====
-- `numbering/service.py`: gapless document numbers from the counters of `document_sequences`.
pub mod Gapless
mod Tests
use nexora_ai.Prelude.{
  ℕ, ◌+◌, ◌-◌, String, Bool, ◌&&◌, Option, none, some, List, [], ◌∷◌, ◌==◌, str_eq, if◌then◌else◌,
  is_some,
}
use nexora_ai.Session.{
  Sequence, DocumentNumber, Session, Tx, Result, ok, or_raise, value_error, ◌>>=◌,
}

-- `NumberAllocator.SERIES`
abbrev pub series_prefixes : List (String × String)
series_prefixes =
    ("quotation", "QT")
    ∷ ("sales_order", "SO")
    ∷ ("fulfillment", "FUL")
    ∷ ("invoice", "INV")
    ∷ ("credit_note", "CN")
    ∷ ("sales_payment", "RCP")
    ∷ ("purchase_order", "PO")
    ∷ ("goods_receipt", "GRN")
    ∷ ("supplier_bill", "BILL")
    ∷ ("purchase_payment", "PMT")
    ∷ ("pos_session", "SHIFT")
    ∷ ("pos_sale", "SALE")
    ∷ ("pos_return", "RET")
    ∷ ("journal", "JE")
    ∷ []

abbrev pub prefix_in : String → List (String × String) → Option String
prefix_in series [] = none
prefix_in series ((s, prefix) ∷ rest) =
    let found = prefix_in series rest in if str_eq series s then some prefix else found

unfoldable pub prefix_of : String → Option String
prefix_of series = prefix_in series series_prefixes

abbrev pub is_counter : String → ℕ → Sequence → Bool
is_counter series period q = str_eq series q.series && period == q.period

-- `INSERT … ON CONFLICT DO UPDATE … RETURNING next_value - 1`, with the counters that it leaves.
unfoldable pub upsert : String → ℕ → String → List Sequence → ℕ × List Sequence
upsert series period prefix [] =
    (2 - 1, record { series = series; period = period; next_value = 2; prefix = prefix } ∷ [])
upsert series period prefix (q ∷ qs) =
    let later = upsert series period prefix qs in
    if is_counter series period q
    then (q.next_value + 1 - 1, record q { next_value = q.next_value + 1 } ∷ qs)
    else (later.0, q ∷ later.1)

unfoldable pub allocate : {S : Type 0} → String → ℕ → Tx S DocumentNumber
unfolding upsert
allocate series period = do
  prefix ← or_raise (prefix_of series) (value_error "unknown document series")
  λ s.
      let (allocated, counters) = upsert series period prefix s.sequences in
      ok (
        record { prefix = prefix; period = period; allocated = allocated },
        record s { sequences = counters },
      )
