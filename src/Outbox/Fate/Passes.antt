-- ===== src/Outbox/Fate/Passes.antt =====
-- One pass of a drain over the table: what it leaves of a row and of the whole.
use nexora_ai.Prelude.{
  ℕ, suc, ◌≤◌, ◌≡◌, refl, ap, subst, Bool, none, some, List, [], ◌∷◌, ◌==◌, arith, any_of, length,
  map, select_where, if◌then◌else◌, Bool-cases, Option-cases, inl, inr,
}
use nexora_ai.Prelude.Groups.{Distinct, find}
use nexora_ai.Session.{Uuid}
use nexora_ai.Outbox.{OutboxEvent, Settings, Carriers, dispatch, is_due, settled}
use nexora_ai.Outbox.Attempts.{key}
use nexora_ai.Outbox.Drained.{settled_lem}
use nexora_ai.Outbox.Exact.{passed}

-- Neither the identifier nor the answers change.
settled-dispatch :
    (c d : Carriers) (now : ℕ) (e : OutboxEvent) → dispatch d (settled c now e) ≡ dispatch d e
unfolding settled dispatch
settled-dispatch c d now e = elim (Option-cases (dispatch c e)) [
  | inl n ↦ rw (n, settled) refl
  | inr (error, m) ↦ rw (m, settled) refl
]

module _ (s : Settings) (c : Carriers) (now : ℕ) where
  passed-id : (e : OutboxEvent) → (passed s c now e).id ≡ e.id
  passed-id e = elim (Bool-cases (is_due s now e)) [
    | inl k ↦ rw k (settled_lem c now e).0
    | inr k ↦ rw k refl
  ]

  pub passed-dispatch :
      (d : Carriers) (e : OutboxEvent) → dispatch d (passed s c now e) ≡ dispatch d e
  passed-dispatch d e = elim (Bool-cases (is_due s now e)) [
    | inl k ↦ rw k (settled-dispatch c d now e)
    | inr k ↦ rw k refl
  ]

  abbrev pass : List OutboxEvent → List OutboxEvent
  pass es = map (passed s c now) es

  pub pass-find :
      (i : Uuid) (es : List OutboxEvent) (e : OutboxEvent)
      → find key i es ≡ some e
      → find key i (pass es) ≡ some (passed s c now e)
  pass-find i [] e f = cc
  pass-find i (x ∷ es) e f = elim (Bool-cases (i == x.id)) [
    | inl k ↦
        rw (passed-id x, k)
          (ap (λ o. elim o [ none ↦ none | some y ↦ some (passed s c now y) ])
            (subst (λ b. (if b then some x else find key i es) ≡ some e) k f))
    | inr k ↦
        rw (passed-id x, k)
          (pass-find i es e (subst (λ b. (if b then some x else find key i es) ≡ some e) k f))
  ]

  pass-any_of :
      (i : Uuid) (es : List OutboxEvent)
      → any_of (λ q. i == q.id) (pass es) ≡ any_of (λ q. i == q.id) es
  pass-any_of i [] = refl
  pass-any_of i (x ∷ es) = rw (passed-id x, pass-any_of i es) refl

  pub pass-Distinct : (es : List OutboxEvent) → Distinct key es → Distinct key (pass es)
  pass-Distinct [] d = tt
  pass-Distinct (x ∷ es) d = (rw (passed-id x, pass-any_of x.id es) d.0, pass-Distinct es d.1)

  pub pass-length : (es : List OutboxEvent) → length (pass es) ≡ length es
  pass-length [] = refl
  pass-length (x ∷ es) = ap suc (pass-length es)

pub chosen_fewer :
    (t : OutboxEvent → Bool) (es : List OutboxEvent) → length (select_where t es) ≤ length es
chosen_fewer t [] = omega arith
chosen_fewer t (e ∷ es) = ground (arith, chosen_fewer t es)
