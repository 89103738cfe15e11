-- ===== src/Outbox/Life.antt =====
-- The outbox over any run of stagings and drains.
use nexora_ai.Prelude.{
  ℕ, ◌≤◌, ◌≡◌, ap, ◌∙◌, true, false, ◌||◌, String, List, [], ◌∷◌, ◌==◌, arith, All-append, any_of,
  is_some,
}
use nexora_ai.Prelude.Rows.{any_of-append}
use nexora_ai.Session.{Uuid, Env, Session, Tx, pure, service_transaction, ◌>>=◌}
use nexora_ai.Session.Keeps.{
  Keeps-guarded, service_transaction-Keeps, Keeps, Keeps-modify, keeps_rules,
}
use nexora_ai.Outbox.{
  OutboxEvent, Outbox, Payload, new_event, insert_event, enqueue, Settings, Carriers, drain,
}
use nexora_ai.Outbox.Drained.{Stands, IsRow, IsWithin, drain-IsWithin, drain-IsRow}

enqueue-IsWithin :
    (most : ℕ) (env : Env) (topic : String) (payload : Payload)
    → Keeps (IsWithin most) (enqueue env topic payload)
unfolding enqueue insert_event
enqueue-IsWithin most env topic payload =
    search
      (
        keeps_rules,
        Keeps-modify,
        (λ (j : Uuid) (o : Outbox) (h : IsWithin most o).
            All-append (λ e. e.attempts ≤ most) o.events (new_event env j topic payload ∷ []) h
              (omega arith, tt)),
      )
      depth 9

-- A new row is another one.
other_row :
    (i : Uuid) (e : OutboxEvent) (es : List OutboxEvent)
    → any_of (λ f. e.id == f.id) es ≡ false
    → any_of (λ q. i == q.id) es ≡ true
    → (i == e.id) ≡ false
other_row i e [] n h = cc
other_row i e (f ∷ es) n h = ground (arith, other_row i e es)

insert_event-Stands :
    (i : Uuid) (P : OutboxEvent → Type 0) (e : OutboxEvent) → Keeps (Stands i P) (insert_event e)
unfolding insert_event
insert_event-Stands i P e =
    Keeps-guarded (λ o. any_of (λ f. e.id == f.id) o.events) _ _
      λ o h fresh.
        let n = other_row i e o.events fresh h.stands in
        record {
          stands = any_of-append (λ q. i == q.id) o.events e ∙ ap (λ b. b || i == e.id) h.stands;
          satisfies =
              All-append (λ q. (i == q.id) ≡ true → P q) o.events (e ∷ []) h.satisfies
                ((λ k. cc (n, k)), tt);
        }

pub enqueue-Stands :
    (i : Uuid) (P : OutboxEvent → Type 0) (env : Env) (topic : String) (payload : Payload)
    → Keeps (Stands i P) (enqueue env topic payload)
unfolding enqueue
enqueue-Stands i P env topic payload = search (keeps_rules, insert_event-Stands i P) depth 9

-- The life of the outbox: rows are staged, and batches drained by whatever the carriers do then.
pub data Step : Type 0 where
  staged : String → Payload → Step
  drained : Carriers → Step

unfoldable pub perform : Settings → Env → Step → Tx Outbox Unit
perform s env (staged topic payload) = enqueue env topic payload >>= λ _. pure tt
perform s env (drained c) = drain s c env >>= λ _. pure tt

unfoldable pub run : Settings → List (Env × Step) → Session Outbox → Session Outbox
run s [] t = t
run s ((env, x) ∷ xs) t = run s xs (service_transaction (perform s env x) t).1

module _ (P : Outbox → Type 0) (s : Settings)
    (stage : (env : Env) (topic : String) (payload : Payload) → Keeps P (enqueue env topic payload))
    (send : (c : Carriers) (env : Env) → Keeps P (drain s c env)) where
  perform-Keeps : (env : Env) (x : Step) → Keeps P (perform s env x)
  unfolding perform
  perform-Keeps env (staged topic payload) = search (keeps_rules, stage env topic payload)
  perform-Keeps env (drained c) = search (keeps_rules, send c env)

  pub run-Keeps : (xs : List (Env × Step)) (t : Session Outbox) → P t.rows → P (run s xs t).rows
  unfolding run
  run-Keeps [] t h = h
  run-Keeps ((env, x) ∷ xs) t h =
      run-Keeps xs (service_transaction (perform s env x) t).1
        (service_transaction-Keeps (perform s env x) t (perform-Keeps env x) h)

-- However rows are staged and batches drained, and whatever the mail server and the task queue
-- answer: a row that is marked as sent stays in the table as it is, and no row is attempted more
-- often than the settings allow, where that holds at the start.
pub run_sent :
    (s : Settings) (xs : List (Env × Step)) (t : Session Outbox) (i : Uuid) (r : OutboxEvent)
    → is_some r.sent_at ≡ true
    → IsRow i r t.rows
    → IsWithin s.outbox_max_attempts t.rows
    → IsRow i r (run s xs t).rows × IsWithin s.outbox_max_attempts (run s xs t).rows
run_sent s xs t i r sent row within = (
  run-Keeps (IsRow i r) s (enqueue-Stands i (λ q. q ≡ r)) (λ c env. drain-IsRow s c env i r sent) xs
      t row,
  run-Keeps (IsWithin s.outbox_max_attempts) s (enqueue-IsWithin s.outbox_max_attempts)
      (drain-IsWithin s) xs t within,
)
