-- ===== src/Outbox.antt =====
-- `modules/outbox`: the rows that a business transaction stages, and the drain that sends them. The
-- mail server and the task queue are parameters: each returns the error of a call, or none.
pub mod Drained
mod Exact
mod Fate
pub mod Attempts
pub mod Life
pub mod Settles
mod Tests
use nexora_ai.Prelude.{
  ℕ, ◌+◌, ◌-◌, ◌*◌, ◌^◌, String, Bool, true, false, ◌&&◌, not, Option, none, some, List, [], ◌∷◌,
  ◌++◌, ◌==◌, leb, ltb, str_eq, if◌then◌else◌, any_of, select_where, update_where, is_some, zero,
  suc,
}
use nexora_ai.Session.{
  Uuid, Env, integrity_error, Tx, pure, raise_if, gets, modify, new_id, ◌>>=◌, ◌>>◌,
}

-- What a mail's template is filled with, such as its single-use token, is a list of names and values.
pub data Payload : Type 0 where
  email_payload : String → String → List (String × String) → Payload
  index_payload : Uuid → Uuid → Payload
  cleanup_payload : Uuid → Uuid → String → Payload

-- Times are in seconds.
pub record OutboxEvent : Type 0 where
  pub id : Uuid
  pub topic : String
  pub payload : Payload
  pub available_at : ℕ
  pub sent_at : Option ℕ
  pub attempts : ℕ
  pub last_error : Option String

pub record Outbox : Type 0 where
  pub events : List OutboxEvent

abbrev pub new_event : Env → Uuid → String → Payload → OutboxEvent
new_event env i topic payload = record {
  id = i;
  topic = topic;
  payload = payload;
  available_at = env.now;
  sent_at = none;
  attempts = 0;
  last_error = none;
}

-- The primary key.
unfoldable pub insert_event : OutboxEvent → Tx Outbox Unit
insert_event e = do
  taken ← gets (λ o. any_of (λ f. e.id == f.id) o.events)
  raise_if taken (integrity_error "outbox_events")
  modify (λ o. record o { events = o.events ++ e ∷ [] })

unfoldable pub enqueue : Env → String → Payload → Tx Outbox OutboxEvent
enqueue env topic payload = do
  i ← new_id env
  insert_event (new_event env i topic payload)
  pure (new_event env i topic payload)

unfoldable pub enqueue_email :
    Env → String → String → List (String × String) → Tx Outbox OutboxEvent
unfolding enqueue
enqueue_email env to template payload = enqueue env "email.send" (email_payload to template payload)

unfoldable pub enqueue_document_index : Env → Uuid → Uuid → Tx Outbox OutboxEvent
unfolding enqueue
enqueue_document_index env tenant document =
    enqueue env "documents.index" (index_payload tenant document)

unfoldable pub enqueue_document_cleanup : Env → Uuid → Uuid → String → Tx Outbox OutboxEvent
unfolding enqueue
enqueue_document_cleanup env tenant document storage_key =
    enqueue env "documents.cleanup" (cleanup_payload tenant document storage_key)

pub record Settings : Type 0 where
  pub outbox_max_attempts : ℕ
  pub outbox_batch_size : ℕ

-- The calls that leave the process. A drain calls for each row once, and may be answered differently
-- for two rows of one payload.
pub record Carriers : Type 0 where
  pub sender : Uuid → Payload → Option String
  pub document_indexer : Uuid → Payload → Option String
  pub document_cleaner : Uuid → Payload → Option String

-- `_dispatch`
unfoldable pub dispatch : Carriers → OutboxEvent → Option String
dispatch c e =
    if str_eq e.topic "email.send"
    then c.sender e.id e.payload
    else if str_eq e.topic "documents.index"
    then c.document_indexer e.id e.payload
    else if str_eq e.topic "documents.cleanup"
    then c.document_cleaner e.id e.payload
    else some "ValueError"

-- `_backoff`
unfoldable pub backoff : ℕ → ℕ
backoff attempts = let delay = 30 * 2 ^ (attempts - 1) in if leb delay 3_600 then delay else 3_600

abbrev pub is_due : Settings → ℕ → OutboxEvent → Bool
is_due s now e =
    not (is_some e.sent_at) && leb e.available_at now && ltb e.attempts s.outbox_max_attempts

-- `ORDER BY available_at`
abbrev pub insert_by_time : OutboxEvent → List OutboxEvent → List OutboxEvent
insert_by_time e [] = e ∷ []
insert_by_time e (f ∷ fs) =
    let rest = insert_by_time e fs in
    if leb e.available_at f.available_at then e ∷ f ∷ fs else f ∷ rest

abbrev pub by_time : List OutboxEvent → List OutboxEvent
by_time [] = []
by_time (e ∷ es) = insert_by_time e (by_time es)

abbrev pub limited : ℕ → List OutboxEvent → List OutboxEvent
limited zero es = []
limited (suc n) [] = []
limited (suc n) (e ∷ es) = e ∷ limited n es

unfoldable pub claimed : Settings → ℕ → List OutboxEvent → List OutboxEvent
claimed s now es = limited s.outbox_batch_size (by_time (select_where (is_due s now) es))

-- One row after its dispatch.
unfoldable pub settled : Carriers → ℕ → OutboxEvent → OutboxEvent
unfolding backoff
settled c now e = elim (dispatch c e) [
  | some error ↦ record e {
    attempts = e.attempts + 1;
    last_error = some error;
    available_at = now + backoff (e.attempts + 1);
  }
  | none ↦ record e { attempts = e.attempts + 1; sent_at = some now; last_error = none }
]

unfoldable pub settle_all : Carriers → ℕ → List OutboxEvent → List OutboxEvent → List OutboxEvent
settle_all c now [] rows = rows
settle_all c now (e ∷ es) rows =
    settle_all c now es (update_where (λ r. e.id == r.id) (λ _. settled c now e) rows)

abbrev pub count_sent : Carriers → List OutboxEvent → ℕ
count_sent c [] = 0
count_sent c (e ∷ es) = if is_some (dispatch c e) then count_sent c es else count_sent c es + 1

-- `drain`: the rows of a batch in turn, and the number of those sent.
unfoldable pub drain : Settings → Carriers → Env → Tx Outbox ℕ
drain s c env = do
  batch ← gets (λ o. claimed s env.now o.events)
  modify (λ o. record o { events = settle_all c env.now batch o.events })
  pure (count_sent c batch)
