-- ===== src/Idempotency.antt =====
-- `modules/idempotency` and the way that `record_payment` of `sales/service.py` uses it: a key is
-- claimed and completed in the transaction of the work. `digest` stands for SHA-256 of the body in
-- canonical JSON, and `B` for the JSON of a response.
pub mod Once
mod Tests
use nexora_ai.Prelude.{
  ℕ, String, Bool, true, false, ◌&&◌, not, Option, none, some, List, [], ◌∷◌, ◌++◌, str_eq,
  if◌then◌else◌, first, update_where, is_some,
}
use nexora_ai.Session.{
  conflict, domain_validation, Session, Result, ok, err, Tx, pure, raise_if, or_raise, gets, modify,
  ◌>>=◌, ◌>>◌,
}

pub data KeyStatus : Type 0 where
  in_progress completed : KeyStatus

abbrev pub is_completed : KeyStatus → Bool
is_completed in_progress = false
is_completed completed = true

pub record IdempotencyKey (B : Type 0) : Type 0 where
  pub endpoint : String
  pub key : String
  pub request_hash : String
  pub status : KeyStatus
  pub response_status : Option ℕ
  pub response_body : Option B

-- The key rows beside the rows of the work.
pub record Keyed (B S : Type 0) : Type 0 where
  pub keys : List (IdempotencyKey B)
  pub work : S

pub record Claim (B : Type 0) : Type 0 where
  pub won : Bool
  pub stored_response : Option B
  pub stored_status : Option ℕ

module _ {B : Type 0} where
  abbrev pub is_key : String → String → IdempotencyKey B → Bool
  is_key endpoint key k = str_eq endpoint k.endpoint && str_eq key k.key

  abbrev pub new_key : String → String → String → IdempotencyKey B
  new_key endpoint key hash = record {
    endpoint = endpoint;
    key = key;
    request_hash = hash;
    status = in_progress;
    response_status = none;
    response_body = none;
  }

  -- The columns that `complete` sets.
  abbrev pub completed_key : ℕ → B → IdempotencyKey B → IdempotencyKey B
  completed_key response_status response_body k = record k {
    status = completed;
    response_status = some response_status;
    response_body = some response_body;
  }

module _ {B S : Type 0} where
  abbrev pub key_row : String → String → Keyed B S → Option (IdempotencyKey B)
  key_row endpoint key b = first (is_key endpoint key) b.keys

  abbrev pub add_key : String → String → String → Keyed B S → Keyed B S
  add_key endpoint key hash b = record b { keys = b.keys ++ new_key endpoint key hash ∷ [] }

  -- What `claim` does where the key stands already.
  unfoldable pub replay_key : String → IdempotencyKey B → Tx (Keyed B S) (Claim B)
  replay_key hash existing = do
    raise_if (not (str_eq existing.request_hash hash)) (domain_validation "IDEMPOTENCY_KEY_REUSE")
    raise_if (not (is_completed existing.status)) (conflict "REQUEST_IN_PROGRESS")
    pure (record {
      won = false;
      stored_response = existing.response_body;
      stored_status = existing.response_status;
    })

  -- The insert that does nothing on a conflict, or the row that it conflicts with. Transactions run
  -- one at a time, so that row is visible.
  unfoldable pub claim_or_replay :
      String → String → String → Option (IdempotencyKey B) → Tx (Keyed B S) (Claim B)
  claim_or_replay endpoint key hash none = do
    modify (add_key endpoint key hash)
    pure (record { won = true; stored_response = none; stored_status = none })
  claim_or_replay endpoint key hash (some k) = replay_key hash k

  -- `claim`
  unfoldable pub claim : String → String → String → Tx (Keyed B S) (Claim B)
  claim endpoint key hash = do
    existing ← gets (key_row endpoint key)
    claim_or_replay endpoint key hash existing

  -- `complete`
  unfoldable pub complete : String → String → ℕ → B → Tx (Keyed B S) Unit
  complete endpoint key response_status response_body = modify (λ b. record b {
    keys = update_where (is_key endpoint key) (completed_key response_status response_body) b.keys;
  })

  -- Work on the other rows, in the same transaction.
  abbrev pub inside : {R : Type 0} → Tx S R → Tx (Keyed B S) R
  inside m s =
      elim (m (record {
        rows = s.rows.work;
        sequences = s.sequences;
        audit_rows = s.audit_rows;
        drawn = s.drawn;
      })) [
        | err e ↦ err e
        | ok (r, t) ↦ ok (
          r,
          record {
            rows = record { keys = s.rows.keys; work = t.rows };
            sequences = t.sequences;
            audit_rows = t.audit_rows;
            drawn = t.drawn;
          },
        )
      ]

-- The service that stands behind one endpoint: how its result is found again in the rows from the
-- response that was stored, and the response that is stored for a result.
pub record Endpoint (P B S R : Type 0) : Type 0 where
  pub path : String
  pub digest : P → String
  pub work : P → Tx S R
  pub respond : R → B
  pub found : B → S → Option R

module _ {P B S R : Type 0} (e : Endpoint P B S R) where
  -- The work, and the snapshot of its response under the key that it was done for.
  unfoldable pub do_work : Option String → P → Tx (Keyed B S) (R × Bool)
  unfolding complete
  do_work none payload = do r ← inside (e.work payload); pure (r, false)
  do_work (some key) payload = do
    r ← inside (e.work payload)
    complete e.path key 201 (e.respond r)
    pure (r, false)

  -- `if existing is not None: return existing`
  unfoldable pub return_or_work : String → P → Option R → Tx (Keyed B S) (R × Bool)
  return_or_work key payload (some r) = pure (r, true)
  return_or_work key payload none = do_work (some key) payload

  -- A stored response whose result is still there is returned, and the work is done otherwise.
  unfoldable pub answer_stored : String → P → Option B → Tx (Keyed B S) (R × Bool)
  answer_stored key payload none = do_work (some key) payload
  answer_stored key payload (some b) = do
    existing ← gets (λ k. e.found b k.work)
    return_or_work key payload existing

  unfoldable pub answer : String → P → Claim B → Tx (Keyed B S) (R × Bool)
  answer key payload c = answer_stored key payload (if c.won then none else c.stored_response)

  -- The request: the result, and whether it is a replay.
  unfoldable pub guarded : Option String → P → Tx (Keyed B S) (R × Bool)
  guarded none payload = do_work none payload
  guarded (some key) payload =
      if str_eq key ""
      then do_work none payload
      else (do c ← claim e.path key (e.digest payload); answer key payload c)
