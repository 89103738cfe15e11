-- ===== src/Numbering/Gapless.antt =====
-- Each counter gives out consecutive numbers, whatever the other counters do in between.
use nexora_ai.Prelude.{
  ℕ, zero, suc, ◌+◌, String, ◌≡◌, refl, ap, ◌∙◌, Bool, true, ◌&&◌, List, [], ◌∷◌, arith, ◌==◌,
  str_eq, eq_iff, if◌then◌else◌, All, Option-cases, inl, inr, is_some,
}
use nexora_ai.Session.{Sequence, DocumentNumber, Session, Tx, ok, bind_ok, pure, ◌>>=◌}
use nexora_ai.Numbering.{prefix_of, is_counter, upsert, allocate}

-- The number that a counter gives out next; a counter with no row begins at 1.
abbrev pub next_of : String → ℕ → List Sequence → ℕ
next_of series period [] = 1
next_of series period (q ∷ qs) =
    if is_counter series period q then q.next_value else next_of series period qs

upsert-next_of :
    (s : String) (p : ℕ) (x : String) (qs : List Sequence) → (upsert s p x qs).0 ≡ next_of s p qs
unfolding upsert
upsert-next_of s p x [] = refl
upsert-next_of s p x (q ∷ qs) = ground (arith, upsert-next_of s p x qs)

abbrev same_key : String → ℕ → String → ℕ → Bool
same_key s p t r = str_eq s t && p == r

next_of-upsert :
    (s : String) (p : ℕ) (t : String) (r : ℕ) (x : String) (qs : List Sequence)
    → next_of t r (upsert s p x qs).1
      ≡ (if same_key t r s p then next_of t r qs + 1 else next_of t r qs)
unfolding upsert
next_of-upsert s p t r x [] = ground arith
next_of-upsert s p t r x (q ∷ qs) =
    ground (arith, next_of-upsert s p t r x qs, eq_iff s q.series, eq_iff t q.series, eq_iff t s)

-- A run of requests, each a series and a period.
pub allocate_all : {S : Type 0} → List (String × ℕ) → Tx S (List DocumentNumber)
allocate_all [] = pure []
allocate_all ((series, period) ∷ rest) = do
  number ← allocate series period
  numbers ← allocate_all rest
  pure (number ∷ numbers)

-- The values among the results that the counter of `t` and `r` gave out, in order.
abbrev pub values_of : String → ℕ → List (String × ℕ) → List DocumentNumber → List ℕ
values_of t r ((s, p) ∷ rest) (n ∷ ns) =
    let later = values_of t r rest ns in if same_key t r s p then n.allocated ∷ later else later
values_of t r _ _ = []

abbrev pub requests_of : String → ℕ → List (String × ℕ) → ℕ
requests_of t r [] = 0
requests_of t r ((s, p) ∷ rest) =
    if same_key t r s p then suc (requests_of t r rest) else requests_of t r rest

abbrev pub count_from : ℕ → ℕ → List ℕ
count_from n zero = []
count_from n (suc k) = n ∷ count_from (n + 1) k

abbrev pub Known : String × ℕ → Type 0
Known (series, period) = is_some (prefix_of series) ≡ true

-- One request of a known series succeeds, with the counter's next value.
allocate_next :
    {S : Type 0} (series : String) (period : ℕ) (s : Session S)
    → Known (series, period)
    → (n : DocumentNumber) × (allocate series period s
        ≡ ok (n, record s { sequences = (upsert series period n.prefix s.sequences).1 }))
      × (n.allocated ≡ next_of series period s.sequences)
unfolding allocate
allocate_next series period s known = elim (Option-cases (prefix_of series)) [
  | inl missing ↦ cc (known, ap (is_some {A = String}) missing)
  | inr (prefix, e) ↦ (
    record {
      prefix = prefix;
      period = period;
      allocated = (upsert series period prefix s.sequences).0;
    },
    rw e refl,
    upsert-next_of series period prefix s.sequences,
  )
]

-- For every run of requests of known series, in any order and over any counters: the run succeeds,
-- and the values given out for one series and period are consecutive, from the counter's next
-- value on, as many as the run asks for.
pub allocate_all_gapless :
    {S : Type 0} (t : String) (r : ℕ) (requests : List (String × ℕ)) (s : Session S)
    → All Known requests
    → (ns : List DocumentNumber) × (s' : Session S) × (allocate_all requests s ≡ ok (ns, s'))
      × (values_of t r requests ns
          ≡ count_from (next_of t r s.sequences) (requests_of t r requests))
unfolding allocate_all
allocate_all_gapless t r [] s known = ([], s, refl, refl)
allocate_all_gapless t r ((series, period) ∷ rest) s (known, others) =
    let (n, e, v) = allocate_next series period s known in
    let s1 = record s { sequences = (upsert series period n.prefix s.sequences).1 } in
    let (ns, s', es, vs) = allocate_all_gapless t r rest s1 others in
    (
      n ∷ ns,
      s',
      bind_ok (allocate series period) _ e ∙ bind_ok (allocate_all rest) _ es,
      grind (arith, v, vs, next_of-upsert series period t r n.prefix s.sequences, eq_iff t series),
    )
