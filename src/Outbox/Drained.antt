-- ===== src/Outbox/Drained.antt =====
-- What the drain promises of every row.
use nexora_ai.Prelude.{
  ℕ, zero, suc, ◌+◌, ◌≤◌, ◌<◌, ◌≡◌, refl, sym, ◌∙◌, subst, true, false, List, [], ◌∷◌, ◌==◌, leb,
  arith, All, All-map, any_of, select_where, update_where, is_some, Bool-cases, Option-cases, inl,
  inr,
}
use nexora_ai.Prelude.Rows.{All-update}
use nexora_ai.Session.{Uuid, Env}
use nexora_ai.Session.Keeps.{Keeps}
use nexora_ai.Outbox.{
  OutboxEvent, Outbox, Settings, Carriers, dispatch, is_due, insert_by_time, by_time, limited,
  claimed, settled, settle_all, drain,
}

-- What holds of every row holds of the rows of a batch.
module _ (P : OutboxEvent → Type 0) where
  All-insert_by_time :
      (e : OutboxEvent) (es : List OutboxEvent) → P e → All P es → All P (insert_by_time e es)
  All-insert_by_time e [] p h = (p, tt)
  All-insert_by_time e (f ∷ fs) p h = elim (Bool-cases (leb e.available_at f.available_at)) [
    | inl k ↦ rw k (p, h)
    | inr k ↦ rw k (h.0, All-insert_by_time e fs p h.1)
  ]

  All-by_time : (es : List OutboxEvent) → All P es → All P (by_time es)
  All-by_time [] h = tt
  All-by_time (e ∷ es) h = All-insert_by_time e (by_time es) h.0 (All-by_time es h.1)

  All-limited : (n : ℕ) (es : List OutboxEvent) → All P es → All P (limited n es)
  All-limited zero es h = tt
  All-limited (suc n) [] h = tt
  All-limited (suc n) (e ∷ es) h = (h.0, All-limited n es h.1)

  All-due :
      (s : Settings) (now : ℕ) (es : List OutboxEvent)
      → All P es
      → All (λ e. P e × (is_due s now e ≡ true)) (select_where (is_due s now) es)
  All-due s now [] h = tt
  All-due s now (e ∷ es) h = elim (Bool-cases (is_due s now e)) [
    | inl k ↦ rw k ((h.0, k), All-due s now es h.1)
    | inr k ↦ rw k (All-due s now es h.1)
  ]

pub claimed-due :
    (P : OutboxEvent → Type 0) (s : Settings) (now : ℕ) (es : List OutboxEvent)
    → All P es
    → All (λ e. P e × (is_due s now e ≡ true)) (claimed s now es)
unfolding claimed
claimed-due P s now es h =
    let Q : OutboxEvent → Type 0 = λ e. P e × (is_due s now e ≡ true) in
    All-limited Q s.outbox_batch_size (by_time (select_where (is_due s now) es))
      (All-by_time Q (select_where (is_due s now) es) (All-due P s now es h))

pub settled_lem :
    (c : Carriers) (now : ℕ) (e : OutboxEvent)
    → ((settled c now e).id ≡ e.id) × ((settled c now e).attempts ≡ e.attempts + 1)
unfolding settled
settled_lem c now e = elim (Option-cases (dispatch c e)) [
  | inl n ↦ rw (n, settled) (refl, refl)
  | inr (error, s) ↦ rw (s, settled) (refl, refl)
]

-- What holds of the rows and of each row of the batch when it is settled holds afterwards.
settle_all-All :
    (P : OutboxEvent → Type 0) (c : Carriers) (now : ℕ) (es rows : List OutboxEvent)
    → All (λ e. P (settled c now e)) es
    → All P rows
    → All P (settle_all c now es rows)
unfolding settle_all
settle_all-All P c now [] rows h k = k
settle_all-All P c now (e ∷ es) rows h k =
    settle_all-All P c now es _ h.1
      (All-update P P (λ r. e.id == r.id) (λ _. settled c now e) rows (λ _ _ _. h.0) (λ _ _ p. p) k)

any_of-settled :
    (i : Uuid) (c : Carriers) (now : ℕ) (e : OutboxEvent) (rows : List OutboxEvent)
    → any_of (λ r. i == r.id) (update_where (λ r. e.id == r.id) (λ _. settled c now e) rows)
      ≡ any_of (λ r. i == r.id) rows
any_of-settled i c now e [] = refl
any_of-settled i c now e (r ∷ rows) =
    ground (arith, (settled_lem c now e).0, any_of-settled i c now e rows)

any_of-settle_all :
    (i : Uuid) (c : Carriers) (now : ℕ) (es rows : List OutboxEvent)
    → any_of (λ r. i == r.id) (settle_all c now es rows) ≡ any_of (λ r. i == r.id) rows
unfolding settle_all
any_of-settle_all i c now [] rows = refl
any_of-settle_all i c now (e ∷ es) rows =
    any_of-settle_all i c now es _ ∙ any_of-settled i c now e rows

-- A row stands, and satisfies P.
pub record Stands (i : Uuid) (P : OutboxEvent → Type 0) (o : Outbox) : Type 0 where
  pub stands : any_of (λ q. i == q.id) o.events ≡ true
  pub satisfies : All (λ q. (i == q.id) ≡ true → P q) o.events

-- A row stands and is what it is.
abbrev pub IsRow : Uuid → OutboxEvent → Outbox → Type 0
IsRow i r = Stands i (λ q. q ≡ r)

abbrev pub IsWithin : ℕ → Outbox → Type 0
IsWithin most o = All (λ e. e.attempts ≤ most) o.events

pub due_below :
    (s : Settings) (now : ℕ) (e : OutboxEvent)
    → is_due s now e ≡ true
    → e.attempts < s.outbox_max_attempts
due_below s now e h = ground arith

not_due :
    (s : Settings) (now : ℕ) (e : OutboxEvent) → is_some e.sent_at ≡ true → is_due s now e ≡ false
not_due s now e h = rw h refl

pub drain_batch :
    (P : OutboxEvent → Type 0) (s : Settings) (c : Carriers) (now : ℕ) (rows : List OutboxEvent)
    → ((e : OutboxEvent) → P e → is_due s now e ≡ true → P (settled c now e))
    → All P rows
    → All P (settle_all c now (claimed s now rows) rows)
drain_batch P s c now rows f h =
    settle_all-All P c now (claimed s now rows) rows
      (All-map (λ e. P e × (is_due s now e ≡ true)) (λ e. P (settled c now e)) (claimed s now rows)
        (λ e p. f e p.0 p.1) (claimed-due P s now rows h))
      h

pub drain-IsWithin :
    (s : Settings) (c : Carriers) (env : Env)
    → Keeps (IsWithin s.outbox_max_attempts) (drain s c env)
unfolding drain
drain-IsWithin s c env = record {
  at = λ t h.
      drain_batch (λ e. e.attempts ≤ s.outbox_max_attempts) s c env.now t.rows.events
        (λ e p d.
          subst (λ n. n ≤ s.outbox_max_attempts) (sym (settled_lem c env.now e).1)
            (omega (arith, due_below s env.now e d)))
        h;
}

pub drain-Stands :
    (s : Settings) (c : Carriers) (env : Env) (i : Uuid) (P : OutboxEvent → Type 0)
    → ((e : OutboxEvent) → P e → is_due s env.now e ≡ true → P (settled c env.now e))
    → Keeps (Stands i P) (drain s c env)
unfolding drain
drain-Stands s c env i P f = record {
  at = λ t h. record {
    stands =
        any_of-settle_all i c env.now (claimed s env.now t.rows.events) t.rows.events ∙ h.stands;
    satisfies =
        drain_batch (λ q. (i == q.id) ≡ true → P q) s c env.now t.rows.events
          (λ e p d k. f e (p (subst (λ j. (i == j) ≡ true) (settled_lem c env.now e).0 k)) d)
          h.satisfies;
  };
}

pub drain-IsRow :
    (s : Settings) (c : Carriers) (env : Env) (i : Uuid) (r : OutboxEvent)
    → is_some r.sent_at ≡ true
    → Keeps (IsRow i r) (drain s c env)
drain-IsRow s c env i r sent =
    drain-Stands s c env i (λ q. q ≡ r)
      λ e same d. cc (
        d,
        not_due s env.now e (subst (λ (x : OutboxEvent). is_some x.sent_at ≡ true) (sym same) sent),
      )
