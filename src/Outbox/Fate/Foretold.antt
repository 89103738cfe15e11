-- ===== src/Outbox/Fate/Foretold.antt =====
-- A run in full, told for one row: the table follows what is foretold.
use nexora_ai.Prelude.{
  ℕ, suc, ◌+◌, ◌≤◌, ◌≡◌, refl, sym, ap, subst, ◌∙◌, Bool, true, false, String, some, List, [], ◌∷◌,
  ◌++◌, ◌==◌, arith, any_of, length, if◌then◌else◌, Bool-cases, inl, inr,
}
use nexora_ai.Prelude.Groups.{Distinct, Distinct-append, find}
use nexora_ai.Session.{
  Uuid, Env, Session, Result, ok, err, integrity_error, bind_ok, service_transaction, raise_if,
  modify, pure, ◌>>=◌, ◌>>◌,
}
use nexora_ai.Session.Keeps.{committed, rolled_back}
use nexora_ai.Outbox.{
  OutboxEvent, Outbox, Payload, new_event, insert_event, enqueue, Settings, Carriers, dispatch,
  is_due, drain,
}
use nexora_ai.Outbox.Attempts.{key}
use nexora_ai.Outbox.Exact.{passed, drain_exact}
use nexora_ai.Outbox.Life.{Step, staged, drained, perform, run}
use nexora_ai.Outbox.Fate.{Fate, attempted, foretold, fate_of, passed-fate}
use nexora_ai.Outbox.Fate.Passes.{
  passed-dispatch, pass-find, pass-Distinct, pass-length, chosen_fewer,
}

-- A new row is put after the others.
find-append :
    (i : Uuid) (x : OutboxEvent) (es : List OutboxEvent) (e : OutboxEvent)
    → find key i es ≡ some e
    → find key i (es ++ x ∷ []) ≡ some e
find-append i x [] e f = cc
find-append i x (y ∷ es) e f = elim (Bool-cases (i == y.id)) [
  | inl k ↦ rw k (subst (λ b. (if b then some y else find key i es) ≡ some e) k f)
  | inr k ↦
      rw k (find-append i x es e (subst (λ b. (if b then some y else find key i es) ≡ some e) k f))
]

length-snoc : (x : OutboxEvent) (es : List OutboxEvent) → length (es ++ x ∷ []) ≡ length es + 1
length-snoc x [] = refl
length-snoc x (y ∷ es) = ap suc (length-snoc x es) ∙ omega arith

-- A staging by what the primary key says.
module _ (s : Settings) (env : Env) (topic : String) (payload : Payload) (t : Session Outbox) where
  staging : Bool → Result {0} (Unit × Session Outbox)
  staging taken =
      let e = new_event env (env.uuid7 t.drawn) topic payload in
      ((raise_if taken (integrity_error "outbox_events")
            >> modify (λ (o : Outbox). record o { events = o.events ++ e ∷ [] })
            >> pure e)
          >>= λ _. pure tt)
        (record t { drawn = t.drawn + 1 })

  staged_taken :
      any_of (λ q. env.uuid7 t.drawn == q.id) t.rows.events ≡ true
      → perform s env (staged topic payload) t ≡ err (integrity_error "outbox_events")
  unfolding staging perform enqueue insert_event
  staged_taken k = ap staging k

  staged_new :
      any_of (λ q. env.uuid7 t.drawn == q.id) t.rows.events ≡ false
      → perform s env (staged topic payload) t
        ≡ ok (
          tt,
          record t {
            rows = record {
              events = t.rows.events ++ new_event env (env.uuid7 t.drawn) topic payload ∷ [];
            };
            drawn = t.drawn + 1;
          },
        )
  unfolding staging perform enqueue insert_event
  staged_new k = ap staging k

-- The row of an identifier, at a fate, in a table of so many rows at most.
record Follows (i : Uuid) (r : OutboxEvent) (a : Fate) (most : ℕ) (es : List OutboxEvent)
    : Type 0 where
  row : OutboxEvent
  there : find key i es ≡ some row
  distinct : Distinct key es
  answers : (c : Carriers) → dispatch c row ≡ dispatch c r
  fate : fate_of row ≡ a
  fits : length es ≤ most

module _ (s : Settings) (i : Uuid) (r : OutboxEvent) (a : Fate) (most : ℕ) where
  staged-Follows :
      (env : Env) (topic : String) (payload : Payload) (t : Session Outbox)
      → Follows i r a most t.rows.events
      → Follows i r a
          (most + 1)
          (service_transaction (perform s env (staged topic payload)) t).1.rows.events
  staged-Follows env topic payload t f =
      let e = new_event env (env.uuid7 t.drawn) topic payload in
      let es = t.rows.events in
      let longer = length-snoc e es in
      let before = f.fits in
      elim (Bool-cases (any_of (λ q. e.id == q.id) es)) [
        | inl k ↦
            subst (λ p. Follows i r a (most + 1) p.1.rows.events)
              (sym (
                rolled_back (perform s env (staged topic payload)) t _
                  (staged_taken s env topic payload t k)))
              (record {
                row = f.row;
                there = f.there;
                distinct = f.distinct;
                answers = f.answers;
                fate = f.fate;
                fits = omega arith;
              })
        | inr k ↦
            subst (λ p. Follows i r a (most + 1) p.1.rows.events)
              (sym (
                committed (perform s env (staged topic payload)) t
                  (staged_new s env topic payload t k)))
              (record {
                row = f.row;
                there = find-append i e es f.row f.there;
                distinct = Distinct-append key e es f.distinct k;
                answers = f.answers;
                fate = f.fate;
                fits = omega arith;
              })
      ]

  drained-Follows :
      (env : Env) (c : Carriers) (t : Session Outbox)
      → most ≤ s.outbox_batch_size
      → Follows i r a most t.rows.events
      → Follows i r
          (attempted s.outbox_max_attempts env.now (dispatch c r) a)
          (most + 1)
          (service_transaction (perform s env (drained c)) t).1.rows.events
  unfolding perform
  drained-Follows env c t room f =
      let es = t.rows.events in
      let fewer = chosen_fewer (is_due s env.now) es in
      let same = pass-length s c env.now es in
      let before = f.fits in
      let pass = drain_exact s c env t f.distinct (omega arith) in
      subst
        (λ p.
          Follows i r (attempted s.outbox_max_attempts env.now (dispatch c r) a) (most + 1)
            p.1.rows.events)
        (sym
          (committed (perform s env (drained c)) t (bind_ok (drain s c env) (λ _. pure tt) pass)))
        (record {
          row = passed s c env.now f.row;
          there = pass-find s c env.now i es f.row f.there;
          distinct = pass-Distinct s c env.now es f.distinct;
          answers = λ d. passed-dispatch s c env.now d f.row ∙ f.answers d;
          fate =
              passed-fate s c env.now f.row
              ∙ ap (λ o. attempted s.outbox_max_attempts env.now o (fate_of f.row)) (f.answers c)
              ∙ ap (attempted s.outbox_max_attempts env.now (dispatch c r)) f.fate;
          fits = omega arith;
        })

run-Follows :
    (s : Settings) (i : Uuid) (r : OutboxEvent) (xs : List (Env × Step)) (a : Fate) (most : ℕ)
    (t : Session Outbox)
    → most + length xs ≤ s.outbox_batch_size
    → Follows i r a most t.rows.events
    → Follows i r (foretold s r xs a) s.outbox_batch_size (run s xs t).rows.events
unfolding run
run-Follows s i r [] a most t room f = record {
  row = f.row;
  there = f.there;
  distinct = f.distinct;
  answers = f.answers;
  fate = f.fate;
  fits = let before = f.fits in omega arith;
}
run-Follows s i r ((env, staged topic payload) ∷ xs) a most t room f =
    run-Follows s i r xs a (most + 1)
      (service_transaction (perform s env (staged topic payload)) t).1 (omega arith)
      (staged-Follows s i r a most env topic payload t f)
run-Follows s i r ((env, drained c) ∷ xs) a most t room f =
    run-Follows s i r xs (attempted s.outbox_max_attempts env.now (dispatch c r) a) (most + 1)
      (service_transaction (perform s env (drained c)) t).1 (omega arith)
      (drained-Follows s i r a most env c t (omega arith) f)

-- A run in full, told for one row: where identifiers are different, the row stands under its
-- identifier, and the batch has room for the rows at the start and one more for each step, the row
-- stands in the end, and its fate is the one foretold from its own at the start. There staging
-- changes nothing; a drain leaves a row that was delivered, that is put off beyond its time or
-- that has had its attempts; and any other row it delivers at its time where the carrier takes it,
-- and puts off with one more failure where the carrier answers with an error.
pub run-foretold :
    (s : Settings) (xs : List (Env × Step)) (t : Session Outbox) (i : Uuid) (r : OutboxEvent)
    → Distinct key t.rows.events
    → find key i t.rows.events ≡ some r
    → length t.rows.events + length xs ≤ s.outbox_batch_size
    → (e : OutboxEvent) × (find key i (run s xs t).rows.events ≡ some e)
      × (fate_of e ≡ foretold s r xs (fate_of r))
run-foretold s xs t i r d f room =
    let end = run-Follows s i r xs (fate_of r) (length t.rows.events) t room (record {
      row = r;
      there = f;
      distinct = d;
      answers = λ c. refl;
      fate = refl;
      fits = omega arith;
    }) in
    (end.row, end.there, end.fate)
