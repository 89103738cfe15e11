-- ===== src/Outbox/Fate.antt =====
-- The life of one row, told without the table: what each drain makes of it at its time, by the
-- answer of its carrier.
pub mod Foretold
mod Passes
use nexora_ai.Prelude.{
  ℕ, ◌+◌, ◌*◌, ◌^◌, ◌≡◌, refl, sym, ap, ◌∙◌, Bool, true, false, ◌&&◌, String, Option, none, some,
  List, [], ◌∷◌, leb, ltb, arith, if◌then◌else◌, Bool-cases, Option-cases, inl, inr,
}
use nexora_ai.Session.{Env}
use nexora_ai.Outbox.{OutboxEvent, Settings, Carriers, dispatch, backoff, is_due, settled}
use nexora_ai.Outbox.Exact.{passed}
use nexora_ai.Outbox.Life.{Step, staged, drained}

-- A row waits, after a number of failed attempts, until a time, or was delivered at a time.
pub data Fate : Type 0 where
  waiting_until : ℕ → ℕ → Fate
  delivered_at : ℕ → Fate

-- Half a minute, twice as long after each failure, and an hour at most.
abbrev pub pause : ℕ → ℕ
pause failures = if leb (30 * 2 ^ failures) 3_600 then 30 * 2 ^ failures else 3_600

-- A drain at a time, where the carrier would answer with an error or with none.
abbrev pub attempted : ℕ → ℕ → Option String → Fate → Fate
attempted most now answer (delivered_at at) = delivered_at at
attempted most now answer (waiting_until failures at) =
    if leb at now && ltb failures most
    then elim answer [
      | none ↦ delivered_at now
      | some error ↦ waiting_until (failures + 1) (now + pause failures)
    ]
    else waiting_until failures at

-- The fate of a row after a run; its carrier answers for the row as it was at the start.
abbrev pub foretold : Settings → OutboxEvent → List (Env × Step) → Fate → Fate
foretold s r [] a = a
foretold s r ((env, staged topic payload) ∷ xs) a = foretold s r xs a
foretold s r ((env, drained c) ∷ xs) a =
    foretold s r xs (attempted s.outbox_max_attempts env.now (dispatch c r) a)

abbrev pub fate_of : OutboxEvent → Fate
fate_of e = elim e.sent_at [
  | none ↦ waiting_until e.attempts e.available_at
  | some at ↦ delivered_at at
]

backoff_lem : (n : ℕ) → backoff (n + 1) ≡ pause n
unfolding backoff
backoff_lem n = ap (λ m. pause m) (omega arith)

settled_taken :
    (c : Carriers) (now : ℕ) (e : OutboxEvent)
    → dispatch c e ≡ none
    → fate_of (settled c now e) ≡ delivered_at now
unfolding settled
settled_taken c now e m = rw (m, settled) refl

settled_refused :
    (c : Carriers) (now : ℕ) (e : OutboxEvent) (error : String)
    → dispatch c e ≡ some error
    → e.sent_at ≡ none
    → fate_of (settled c now e) ≡ waiting_until (e.attempts + 1) (now + pause e.attempts)
unfolding settled
settled_refused c now e error m n =
    rw (m, settled)
      (rw n (ap (λ d. waiting_until (e.attempts + 1) (now + d)) (backoff_lem e.attempts)))

-- What a pass makes of a row is what a drain makes of its fate.
pub passed-fate :
    (s : Settings) (c : Carriers) (now : ℕ) (e : OutboxEvent)
    → fate_of (passed s c now e) ≡ attempted s.outbox_max_attempts now (dispatch c e) (fate_of e)
passed-fate s c now e = elim (Option-cases e.sent_at) [
  | inl n ↦
      let waits : fate_of e ≡ waiting_until e.attempts e.available_at = rw n refl in
      let due = λ (b : Bool). fate_of (if b then settled c now e else e) in
      let told = λ (o : Option String).
        attempted s.outbox_max_attempts now o (waiting_until e.attempts e.available_at) in
      let says : told (dispatch c e)
          ≡ attempted s.outbox_max_attempts now (dispatch c e) (fate_of e) =
        ap (attempted s.outbox_max_attempts now (dispatch c e)) (sym waits) in
      elim (Bool-cases (leb e.available_at now && ltb e.attempts s.outbox_max_attempts)) [
        | inl k ↦
            let taken : is_due s now e ≡ true = ground arith in
            ap due taken
            ∙ elim (Option-cases (dispatch c e)) [
              | inl m ↦ settled_taken c now e m ∙ rw k refl ∙ ap told (sym m)
              | inr (error, m) ↦ settled_refused c now e error m n ∙ rw k refl ∙ ap told (sym m)
            ]
            ∙ says
        | inr k ↦
            let idle : is_due s now e ≡ false = ground arith in
            ap due idle ∙ waits ∙ rw k refl ∙ says
      ]
  | inr (at, n) ↦
      let idle : is_due s now e ≡ false = ground arith in
      let sent : fate_of e ≡ delivered_at at = rw n refl in
      ap (λ b. fate_of (if b then settled c now e else e)) idle
      ∙ sent
      ∙ ap (attempted s.outbox_max_attempts now (dispatch c e)) (sym sent)
]
