-- ===== src/Numbering/Tests.antt =====
-- Three requests over two counters, one of which has already given out four numbers.
use nexora_ai.Prelude.{ℕ, String, ◌≡◌, refl, List, [], ◌∷◌}
use nexora_ai.Session.{DocumentNumber, Session, ok}
use nexora_ai.Numbering.{prefix_of}
use nexora_ai.Numbering.Gapless.{
  allocate_all, values_of, requests_of, count_from, next_of, allocate_all_gapless,
}

abbrev counters : Session Unit
counters = record {
  rows = tt;
  sequences = record { series = "invoice"; period = 2026; next_value = 5; prefix = "INV" } ∷ [];
  audit_rows = [];
  drawn = 0;
}

abbrev requests : List (String × ℕ)
requests = ("invoice", 2026) ∷ ("journal", 2026) ∷ ("invoice", 2026) ∷ []

allocate_all_gapless_example :
    (ns : List DocumentNumber) × (s' : Session Unit) × (allocate_all requests counters
      ≡ ok (ns, s'))
    × (values_of "invoice" 2026 requests ns
        ≡ count_from
            (next_of "invoice" 2026 counters.sequences)
            (requests_of "invoice" 2026 requests))
unfolding prefix_of
allocate_all_gapless_example =
    allocate_all_gapless "invoice" 2026 requests counters (refl, (refl, (refl, tt)))

two_invoices :
    count_from (next_of "invoice" 2026 counters.sequences) (requests_of "invoice" 2026 requests)
    ≡ 5 ∷ 6 ∷ []
two_invoices = refl
