-- ===== src/Outbox/Settles.antt =====
-- The drains of the outbox one after another, with nothing staged between them: the attempts that
-- are left become fewer until there are none.
use nexora_ai.Prelude.{
  ℕ, ◌+◌, ◌-◌, ◌≤◌, ◌<◌, ◌≡◌, refl, true, false, ◌||◌, List, [], ◌∷◌, leb, arith, All, All-map,
  length, is_some, is_empty, Bool-cases, Option-cases, inl, inr,
}
use nexora_ai.Prelude.Groups.{Distinct}
use nexora_ai.Session.{Env, Session, service_transaction}
use nexora_ai.Outbox.{
  OutboxEvent, Outbox, Settings, Carriers, dispatch, backoff, is_due, claimed, settled, settle_all,
  drain,
}
use nexora_ai.Outbox.Drained.{drain_batch}
use nexora_ai.Outbox.Attempts.{
  key, left_of, left_in, settle_all_below, start-IsAbove, batch_less, Distinct-settle_all,
  claimed-Ready, claimed_none,
}
use nexora_ai.Outbox.Life.{Step, drained, perform, run}

-- A row that is not sent is not put off any longer.
abbrev pub Waits : ℕ → OutboxEvent → Type 0
Waits now e = is_some e.sent_at ≡ false → e.available_at ≤ now

backoff_lem : (n : ℕ) → backoff n ≤ 3_600
unfolding backoff
backoff_lem n = ground arith

settled-Waits : (c : Carriers) (now : ℕ) (e : OutboxEvent) → Waits (now + 3_600) (settled c now e)
unfolding settled
settled-Waits c now e = elim (Option-cases (dispatch c e)) [
  | inl n ↦ rw (n, settled) (λ h. cc)
  | inr (error, m) ↦ rw (m, settled) (λ h. omega (arith, backoff_lem (e.attempts + 1)))
]

idle_lem :
    (s : Settings) (now : ℕ) (rows : List OutboxEvent)
    → All (Waits now) rows
    → All (λ e. is_due s now e ≡ false) rows
    → left_in s.outbox_max_attempts rows ≡ 0
idle_lem s now [] w n = refl
idle_lem s now (e ∷ rows) w n =
    let rest = idle_lem s now rows w.1 n.1 in
    let here : left_of s.outbox_max_attempts e ≡ 0 = elim (Bool-cases (is_some e.sent_at)) [
      | inl k ↦ rw k refl
      | inr k ↦ let t = w.0 k in let d = n.0 in rw k (ground arith)
    ] in
    omega arith

-- A drain at a time when nothing is put off.
drain_less :
    (s : Settings) (c : Carriers) (now : ℕ) (rows : List OutboxEvent)
    → 0 < s.outbox_batch_size
    → Distinct key rows
    → All (Waits now) rows
    → left_in s.outbox_max_attempts (settle_all c now (claimed s now rows) rows)
      ≤ left_in s.outbox_max_attempts rows - 1
drain_less s c now rows b d w = elim (Bool-cases (is_empty (claimed s now rows))) [
  | inl e ↦
      let idle = idle_lem s now rows w (claimed_none s now rows b e) in
      let below =
        settle_all_below s c now rows (claimed s now rows) rows (claimed-Ready s c now rows d)
          (start-IsAbove s c now rows d) in
      omega arith
  | inr e ↦
      let less = batch_less s c now rows (claimed s now rows) d (claimed-Ready s c now rows d) e in
      omega arith
]

abbrev pub drains : List (Env × Carriers) → List (Env × Step)
drains [] = []
drains ((env, c) ∷ xs) = (env, drained c) ∷ drains xs

-- Each drain is an hour after the one before it, at least.
abbrev pub Spaced : ℕ → List (Env × Carriers) → Type 0
Spaced now [] = Unit
Spaced now ((env, c) ∷ xs) = (now ≤ env.now) × Spaced (env.now + 3_600) xs

run_left :
    (s : Settings) (now : ℕ) (xs : List (Env × Carriers)) (t : Session Outbox)
    → 0 < s.outbox_batch_size
    → Spaced now xs
    → Distinct key t.rows.events
    → All (Waits now) t.rows.events
    → left_in s.outbox_max_attempts (run s (drains xs) t).rows.events
      ≤ left_in s.outbox_max_attempts t.rows.events - length xs
unfolding run service_transaction perform drain
run_left s now [] t b sp d w = omega arith
run_left s now ((env, c) ∷ xs) t b sp d w =
    let rows = t.rows.events in
    let due : All (Waits env.now) rows =
      All-map (Waits now) (Waits env.now) rows (λ e k h. let l = k h in let m = sp.0 in omega arith)
        w in
    let later : All (Waits (env.now + 3_600)) rows =
      All-map (Waits env.now) (Waits (env.now + 3_600)) rows (λ e k h. let l = k h in omega arith)
        due in
    let less = drain_less s c env.now rows b d due in
    let rest =
      run_left s (env.now + 3_600) xs (service_transaction (perform s env (drained c)) t).1 b sp.1
        (Distinct-settle_all s c env.now (claimed s env.now rows) rows d)
        (drain_batch (Waits (env.now + 3_600)) s c env.now rows (λ e _ _. settled-Waits c env.now e)
          later) in
    omega arith

-- A row is sent or has had its attempts.
abbrev pub IsSettled : ℕ → OutboxEvent → Type 0
IsSettled most e = (is_some e.sent_at || leb most e.attempts) ≡ true

none_left : (most : ℕ) (rows : List OutboxEvent) → left_in most rows ≡ 0 → All (IsSettled most) rows
none_left most [] h = tt
none_left most (e ∷ rows) h =
    let rest = none_left most rows (omega arith) in
    let here : left_of most e ≡ 0 = omega arith in (ground arith, rest)

-- Every row is settled in the end: after as many drains as there are attempts left in all rows, every
-- row is sent or has had all its attempts, whatever the mail server and the task queue answer. The
-- batch has room for a row, identifiers are different, nothing is staged meanwhile, each drain is an
-- hour after the one before it, and the first comes when no row is put off any longer.
pub run_settles :
    (s : Settings) (now : ℕ) (xs : List (Env × Carriers)) (t : Session Outbox)
    → 0 < s.outbox_batch_size
    → Spaced now xs
    → Distinct key t.rows.events
    → All (Waits now) t.rows.events
    → left_in s.outbox_max_attempts t.rows.events ≤ length xs
    → All (IsSettled s.outbox_max_attempts) (run s (drains xs) t).rows.events
run_settles s now xs t b sp d w enough =
    let bound = run_left s now xs t b sp d w in
    none_left s.outbox_max_attempts (run s (drains xs) t).rows.events (omega arith)
